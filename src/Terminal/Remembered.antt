-- ===== src/Terminal/Remembered.antt =====
-- historyAdd of src/libc/terminal.cpp as an operation on the list of the last 16 commands.
use mr_hak_os.Terminal.Rows.{
  Added, stored, blank, again, last_of, commands, get_or-texts, length-commands, put_row-commands,
  shift-commands,
}
use mr_hak_os.Prelude.{
  ℕ, zero, suc, ◌-◌, ◌≤◌, ◌<◌, ◌≡◌, ◌≢◌, ◌∙◌, refl, List, [], ◌∷◌, arith, length, get_or, ap, sym,
  dec_lt, true, false, inl, inr, ◌==◌, ltb, ◌&&◌, Bool-cases, subst, ◌||◌, if-elim,
}
use mr_hak_os.Terminal.Commands.{command, IsHistory, put_row-at}
use mr_hak_os.Terminal.Editor.{History, history_max, history_add, append_command, rotate_commands}
use mr_hak_os.CString.Text.{text, strcmp_iff}
use mr_hak_os.CString.{strlen, is_equal, strcmp}
use mr_hak_os.Terminal.Line.{line_capacity}

-- The first character of a text that is not empty.
text-cons : (s : List ℕ) → (get_or s 0 0 == 0) ≡ false → text s ≢ []
unfolding text
text-cons [] z e = absurd (ground arith)
text-cons (c ∷ s) z e = ground arith

text-blank : (s : List ℕ) → (get_or s 0 0 == 0) ≡ true → text s ≡ []
unfolding text
text-blank [] z = refl
text-blank (c ∷ s) z = ground arith

-- The last row that is in use holds the last command.
last_of-commands :
    (h : History) → IsHistory h → 0 < h.count → last_of (commands h) ≡ command h.rows (h.count - 1)
last_of-commands h v p =
    let n = length-commands h v in
    ap (λ k. get_or (commands h) (k - 1) []) n
    ∙ get_or-texts h.count (h.count - 1) h.rows (omega arith)

pub get_or-behind : (cs : List (List ℕ)) (k : ℕ) → length cs ≤ k → get_or cs k [] ≡ []
get_or-behind [] k h = refl
get_or-behind (c ∷ cs) zero h = absurd (omega arith)
get_or-behind (c ∷ cs) (suc k) h = get_or-behind cs k (omega arith)

-- The comparison with the last command, in which an empty history is like one that ends with a blank.
last_of-same :
    (h : History) (cmd : List ℕ)
    → IsHistory h
    → text cmd ≢ []
    → (ltb 0 h.count && is_equal (strcmp (get_or h.rows (h.count - 1) []) cmd)) ≡ false
    → last_of (commands h) ≢ text cmd
last_of-same h cmd v some_text differs e = elim (dec_lt 0 h.count) [
  | yes used ↦
      let row = get_or h.rows (h.count - 1) [] in
      let same : is_equal (strcmp row cmd) ≡ true =
        (strcmp_iff row cmd).1 (sym (last_of-commands h v used) ∙ e) in
      absurd (ground arith)
  | no unused ↦
      let n : length (commands h) ≡ 0 = omega (arith, length-commands h v) in
      let first : get_or (commands h) (length (commands h) - 1) [] ≡ [] =
        get_or-behind (commands h) (length (commands h) - 1) (omega arith) in
      absurd (some_text (sym e ∙ first))
]

skipped-Added :
    (cmd : List ℕ) (h : History)
    → IsHistory h
    → (get_or cmd 0 0 == 0)
        || (ltb 0 h.count && is_equal (strcmp (get_or h.rows (h.count - 1) []) cmd))
      ≡ true
    → Added (text cmd) (commands h) (commands h)
skipped-Added cmd h v skip = elim (Bool-cases (get_or cmd 0 0 == 0)) [
  | inl empty ↦ blank (text-blank cmd empty)
  | inr more ↦
      let row = get_or h.rows (h.count - 1) [] in
      let same : is_equal (strcmp row cmd) ≡ true = ground arith in
      again (last_of-commands h v (ground arith) ∙ (strcmp_iff row cmd).0 same)
]

-- What historyAdd makes of a history.
pub record Grown (c : List ℕ) (old new : History) : Type 0 where
  pub valid : IsHistory new
  pub rested : new.index ≡ new.count
  pub added : Added c (commands old) (commands new)

append_command-Grown :
    (cmd : List ℕ) (h : History)
    → IsHistory h
    → strlen cmd ≤ line_capacity
    → text cmd ≢ []
    → last_of (commands h) ≢ text cmd
    → h.count < history_max
    → Grown (text cmd) h (append_command cmd h)
unfolding append_command
append_command-Grown cmd h v short some_text new room = record {
  valid = record {
    rows_valid = (put_row-at h.count cmd h.rows v.rows_valid short room).0;
    short = omega arith;
    inside = omega arith;
  };
  rested = refl;
  added =
      subst (Added (text cmd) (commands h)) (sym (put_row-commands h cmd v short room))
        (stored some_text new);
}

rotate_commands-Grown :
    (cmd : List ℕ) (h : History)
    → IsHistory h
    → strlen cmd ≤ line_capacity
    → text cmd ≢ []
    → last_of (commands h) ≢ text cmd
    → h.count ≡ history_max
    → Grown (text cmd) h (rotate_commands cmd h)
unfolding rotate_commands
rotate_commands-Grown cmd h v short some_text new full =
    let (w, e) = shift-commands h cmd v short full in
    record {
      valid = record { rows_valid = w; short = v.short; inside = omega arith };
      rested = refl;
      added = subst (Added (text cmd) (commands h)) (sym e) (stored some_text new);
    }

-- historyAdd keeps the history well-formed, ends the browsing, and adds the command to the list of the last 16.
pub history_add-Grown :
    (cmd : List ℕ) (h : History)
    → IsHistory h
    → strlen cmd ≤ line_capacity
    → Grown (text cmd) h (history_add cmd h)
unfolding history_add
history_add-Grown cmd h v short =
    if-elim (Grown (text cmd) h) _ _ _
      (λ skip. record {
        valid = record { rows_valid = v.rows_valid; short = v.short; inside = omega arith };
        rested = refl;
        added = skipped-Added cmd h v skip;
      })
      (λ go.
        let some_text = text-cons cmd (ground arith) in
        let new = last_of-same h cmd v some_text (ground arith) in
        if-elim (Grown (text cmd) h) _ _ _
          (λ room. append_command-Grown cmd h v short some_text new (ground arith))
          (λ full. rotate_commands-Grown cmd h v short some_text new (ground (arith, v.short))))
