-- ===== src/Terminal/Commands.antt =====
-- historyAdd of src/libc/terminal.cpp: which commands the history holds.
use mr_hak_os.Prelude.{
  ℕ, zero, suc, ◌+◌, ◌-◌, ◌≤◌, ◌<◌, ◌≡◌, ◌≢◌, ◌∙◌, refl, List, [], arith, length, set, get_or, ap,
  length-set, get_or-set_ne, dec_lt, ℕ_discrete, get_or-set_self, subst, sym,
}
use mr_hak_os.Terminal.Editor.{History, put_row, shift_history, history_max, copy_command}
use mr_hak_os.CString.Text.{text, strlen-length}
use mr_hak_os.CString.{strlen}
use mr_hak_os.Terminal.Line.{line_capacity}
use mr_hak_os.Terminal.Copying.{length-copy_command, copy_command-text}

-- A row of the history: 256 bytes, with a 0 among them.
pub record IsRow (row : List ℕ) : Type 0 where
  pub room : length row ≡ line_capacity + 1
  pub ended : strlen row ≤ line_capacity

abbrev pub IsRows : List (List ℕ) → Type 0
IsRows rows = (length rows ≡ history_max) × ((r : ℕ) → r < history_max → IsRow (get_or rows r []))

pub record IsHistory (h : History) : Type 0 where
  pub rows_valid : IsRows h.rows
  pub short : h.count ≤ history_max
  pub inside : h.index ≤ h.count

copy-IsRow :
    (s d : List ℕ) → strlen s ≤ line_capacity → IsRow d → IsRow (copy_command line_capacity 0 s d)
copy-IsRow s d h v = record {
  room = length-copy_command line_capacity 0 s d ∙ v.room;
  ended = omega (
    arith,
    strlen-length (copy_command line_capacity 0 s d),
    strlen-length s,
    ap length (copy_command-text s d h v.room),
  );
}

set-IsRows :
    (rows : List (List ℕ)) (r : ℕ) (row : List ℕ)
    → IsRows rows
    → IsRow row
    → IsRows (set rows r row)
set-IsRows rows r row (n, v) w = (
  length-set rows r row ∙ n,
  λ k h. elim (ℕ_discrete r k) [
    | yes e ↦
        subst (λ j. IsRow (get_or (set rows r row) j [])) e
          (subst IsRow (sym (get_or-set_self rows r row [] (omega (arith, n, e)))) w)
    | no ne ↦ subst IsRow (sym (get_or-set_ne rows r k row [] ne)) (v k h)
  ],
)

-- The text of a row.
abbrev pub command : List (List ℕ) → ℕ → List ℕ
command rows r = text (get_or rows r [])

pub put_row-at :
    (r : ℕ) (s : List ℕ) (rows : List (List ℕ))
    → IsRows rows
    → strlen s ≤ line_capacity
    → r < history_max
    → IsRows (put_row r s rows) × (command (put_row r s rows) r ≡ text s)
put_row-at r s rows (n, v) h l =
    let row = copy_command line_capacity 0 s (get_or rows r []) in
    (
      set-IsRows rows r row (n, v) (copy-IsRow s (get_or rows r []) h (v r l)),
      ap text (get_or-set_self rows r row [] (omega (arith, n)))
          ∙ copy_command-text s (get_or rows r []) h (v r l).room,
    )

pub put_row-ne :
    (r k : ℕ) (s : List ℕ) (rows : List (List ℕ))
    → r ≢ k
    → command (put_row r s rows) k ≡ command rows k
put_row-ne r k s rows ne =
    ap text (get_or-set_ne rows r k (copy_command line_capacity 0 s (get_or rows r [])) [] ne)

pub shift_history-IsRows :
    (n r : ℕ) (rows : List (List ℕ))
    → IsRows rows
    → 0 < r
    → r + n ≤ history_max
    → IsRows (shift_history n r rows)
unfolding shift_history
shift_history-IsRows zero r rows v p h = v
shift_history-IsRows (suc n) r rows v p h =
    shift_history-IsRows n (r + 1) (put_row (r - 1) (get_or rows r []) rows)
      (put_row-at (r - 1) (get_or rows r []) rows v (v.1 r (omega arith)).ended (omega arith)).0
      (omega arith) (omega arith)

shift_history-below :
    (n r k : ℕ) (rows : List (List ℕ))
    → k + 1 < r
    → command (shift_history n r rows) k ≡ command rows k
unfolding shift_history
shift_history-below zero r k rows h = refl
shift_history-below (suc n) r k rows h =
    shift_history-below n (r + 1) k (put_row (r - 1) (get_or rows r []) rows) (omega arith)
    ∙ put_row-ne (r - 1) k (get_or rows r []) rows (λ e. omega arith)

-- Every command of the rows moves up by one row.
pub shift_history-at :
    (n r k : ℕ) (rows : List (List ℕ))
    → IsRows rows
    → 0 < r
    → r + n ≤ history_max
    → r ≤ k + 1
    → k + 1 < r + n
    → command (shift_history n r rows) k ≡ command rows (k + 1)
unfolding shift_history
shift_history-at zero r k rows v p h a b = absurd (omega arith)
shift_history-at (suc n) r k rows v p h a b =
    let s = get_or rows r [] in
    let next = put_row (r - 1) s rows in
    let (w, e) = put_row-at (r - 1) s rows v (v.1 r (omega arith)).ended (omega arith) in
    elim (dec_lt r (k + 1)) [
      | yes later ↦
          shift_history-at n (r + 1) k next w (omega arith) (omega arith) (omega arith)
            (omega arith)
          ∙ put_row-ne (r - 1) (k + 1) s rows (λ e. omega arith)
      | no here ↦
          let k_is : k ≡ r - 1 = omega arith in
          let r_is : r ≡ k + 1 = omega arith in
          shift_history-below n (r + 1) k next (omega arith)
          ∙ ap (command next) k_is
          ∙ e
          ∙ ap (command rows) r_is
    ]
