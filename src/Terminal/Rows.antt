-- ===== src/Terminal/Rows.antt =====
-- The rows of the history of src/libc/terminal.cpp as a list of commands.
use mr_hak_os.Prelude.{
  ℕ, zero, suc, ◌+◌, ◌-◌, ◌≤◌, ◌<◌, ◌≡◌, ◌≢◌, ◌∙◌, refl, List, [], ◌∷◌, ◌++◌, arith, length, drop,
  get_or, get_or-drop, get_or-append_right, get_or-append_left, take, ap, list_ext, sym,
  length-drop, length-append, dec_lt,
}
use mr_hak_os.Terminal.Commands.{
  IsRows, command, IsHistory, put_row-at, shift_history-IsRows, put_row-ne, shift_history-at,
}
use mr_hak_os.Terminal.Editor.{History, history_max, put_row, shift_history}
use mr_hak_os.CString.Text.{text}
use mr_hak_os.CString.{strlen}
use mr_hak_os.Terminal.Line.{line_capacity}

-- The texts of rows.
abbrev pub texts : List (List ℕ) → List (List ℕ)
texts [] = []
texts (row ∷ rows) = text row ∷ texts rows

-- The commands that the history holds, oldest first.
abbrev pub commands : History → List (List ℕ)
commands h = texts (take h.count h.rows)

abbrev pub last_of : List (List ℕ) → List ℕ
last_of cs = get_or cs (length cs - 1) []

-- What a new command does to the list: a blank one and one that is the same as the last are not stored; another comes
-- to the end, and the oldest one leaves when there are more than 16.
pub data Added (c : List ℕ) (old : List (List ℕ)) : List (List ℕ) → Type 0 where
  blank : c ≡ [] → Added c old old
  again : last_of old ≡ c → Added c old old
  stored :
      c ≢ [] → last_of old ≢ c → Added c old (drop (length old + 1 - history_max) (old ++ c ∷ []))

pub text-nil : text [] ≡ []
unfolding text
text-nil = refl

pub get_or-texts :
    (n i : ℕ) (rows : List (List ℕ))
    → i < n
    → get_or (texts (take n rows)) i [] ≡ text (get_or rows i [])
get_or-texts zero i rows h = absurd (omega arith)
get_or-texts (suc n) i [] h = sym text-nil
get_or-texts (suc n) zero (r ∷ rows) h = refl
get_or-texts (suc n) (suc i) (r ∷ rows) h = get_or-texts n i rows (omega arith)

pub length-texts :
    (n : ℕ) (rows : List (List ℕ)) → n ≤ length rows → length (texts (take n rows)) ≡ n
length-texts zero rows h = refl
length-texts (suc n) [] h = absurd (omega arith)
length-texts (suc n) (r ∷ rows) h = omega (arith, length-texts n rows (omega arith))

pub length-commands : (h : History) → IsHistory h → length (commands h) ≡ h.count
length-commands h v = length-texts h.count h.rows (omega (arith, v.rows_valid.0, v.short))

-- A list of rows whose commands are known is a list of commands.
pub commands-ext :
    (n : ℕ) (rows : List (List ℕ)) (cs : List (List ℕ))
    → n ≤ length rows
    → length cs ≡ n
    → ((k : ℕ) → k < n → command rows k ≡ get_or cs k [])
    → texts (take n rows) ≡ cs
commands-ext n rows cs h l at =
    let size = length-texts n rows h in
    list_ext (texts (take n rows)) cs [] (size ∙ sym l)
      (λ k i. get_or-texts n k rows (omega (arith, size)) ∙ at k (omega (arith, size)))

-- The command at a place of the list with a new one behind it, after the first `d` have left.
pub snoc-at :
    (cs : List (List ℕ)) (c : List ℕ) (d k : ℕ)
    → d + k < length cs
    → get_or (drop d (cs ++ c ∷ [])) k [] ≡ get_or cs (d + k) []
snoc-at cs c d k h = get_or-drop d k (cs ++ c ∷ []) [] ∙ get_or-append_left cs (c ∷ []) (d + k) [] h

pub snoc-last :
    (cs : List (List ℕ)) (c : List ℕ) (d k : ℕ)
    → d + k ≡ length cs
    → get_or (drop d (cs ++ c ∷ [])) k [] ≡ c
snoc-last cs c d k h =
    let first : d + k - length cs ≡ 0 = omega (arith, h) in
    get_or-drop d k (cs ++ c ∷ []) []
    ∙ get_or-append_right cs (c ∷ []) (d + k) [] (omega (arith, h))
    ∙ ap (λ i. get_or (c ∷ []) i []) first

-- A new command in the row behind the others.
pub put_row-commands :
    (h : History) (cmd : List ℕ)
    → IsHistory h
    → strlen cmd ≤ line_capacity
    → h.count < history_max
    → texts (take (h.count + 1) (put_row h.count cmd h.rows))
      ≡ drop (length (commands h) + 1 - history_max) (commands h ++ text cmd ∷ [])
put_row-commands h cmd v short room =
    let n = length-commands h v in
    let cs = commands h in
    let c = text cmd in
    let (w, new) = put_row-at h.count cmd h.rows v.rows_valid short room in
    let d = length cs + 1 - history_max in
    let none_left : d ≡ 0 = omega (arith, n) in
    commands-ext (h.count + 1) (put_row h.count cmd h.rows) (drop d (cs ++ c ∷ []))
      (omega (arith, w.0))
      (omega (arith, length-drop d (cs ++ c ∷ []), length-append cs (c ∷ []), n))
      (λ k l. elim (dec_lt k h.count) [
        | yes old ↦
            put_row-ne h.count k cmd h.rows (λ e. omega arith)
            ∙ sym (get_or-texts h.count k h.rows old)
            ∙ ap (λ i. get_or cs i []) (omega arith)
            ∙ sym (snoc-at cs c d k (omega (arith, n)))
        | no last ↦
            let e : k ≡ h.count = omega arith in
            ap (command (put_row h.count cmd h.rows)) e
            ∙ new
            ∙ sym (snoc-last cs c d k (omega (arith, n)))
      ])

-- All rows move up, and the new command takes the last one.
pub shift-commands :
    (h : History) (cmd : List ℕ)
    → IsHistory h
    → strlen cmd ≤ line_capacity
    → h.count ≡ history_max
    → IsRows (put_row 15 cmd (shift_history 15 1 h.rows))
      × (texts (take h.count (put_row 15 cmd (shift_history 15 1 h.rows)))
          ≡ drop (length (commands h) + 1 - history_max) (commands h ++ text cmd ∷ []))
shift-commands h cmd v short full =
    let n = length-commands h v in
    let cs = commands h in
    let c = text cmd in
    let moved = shift_history 15 1 h.rows in
    let u = shift_history-IsRows 15 1 h.rows v.rows_valid (omega arith) (omega arith) in
    let (w, new) = put_row-at 15 cmd moved u short (omega arith) in
    let d = length cs + 1 - history_max in
    (
      w,
      commands-ext h.count (put_row 15 cmd moved) (drop d (cs ++ c ∷ [])) (omega (arith, w.0))
          (omega (arith, length-drop d (cs ++ c ∷ []), length-append cs (c ∷ []), n))
          (λ k l. elim (dec_lt k 15) [
            | yes old ↦
                put_row-ne 15 k cmd moved (λ e. omega arith)
                ∙ shift_history-at 15 1 k h.rows v.rows_valid (omega arith) (omega arith)
                    (omega arith) (omega arith)
                ∙ sym (get_or-texts h.count (k + 1) h.rows (omega arith))
                ∙ ap (λ i. get_or cs i []) (omega (arith, n))
                ∙ sym (snoc-at cs c d k (omega (arith, n)))
            | no last ↦
                let e : k ≡ 15 = omega arith in
                ap (command (put_row 15 cmd moved)) e
                ∙ new
                ∙ sym (snoc-last cs c d k (omega (arith, n)))
          ]),
    )
