-- ===== src/Terminal/Copying.antt =====
-- The loops of src/libc/terminal.cpp that copy a command from one buffer to another.
use mr_hak_os.Prelude.{
  ℕ, zero, suc, ◌+◌, ◌≤◌, ◌<◌, ◌≡◌, ◌∙◌, List, true, false, inl, inr, arith, ◌==◌, length, get_or,
  length-set, Bool-cases, ap, dec_lt, set, get_or-set_ne, ==_iff, sym, get_or-set_self,
}
use mr_hak_os.Terminal.Editor.{copy_command, copied}
use mr_hak_os.CString.Text.{text, text-eq_of_get_or, get_or-strlen, strlen-le_of_nul}
use mr_hak_os.CString.{strlen}
use mr_hak_os.Terminal.Line.{line_capacity}

-- A character before the end is not 0, and the first 0 is the end.
end-of_zero : (s : List ℕ) (i : ℕ) → i ≤ strlen s → (get_or s i 0 == 0) ≡ true → i ≡ strlen s
end-of_zero s i l z =
    let zero_at : get_or s i 0 ≡ 0 = (==_iff (get_or s i 0) 0).0 z in
    omega (arith, strlen-le_of_nul s i zero_at)

end-of_more : (s : List ℕ) (i : ℕ) → i ≤ strlen s → (get_or s i 0 == 0) ≡ false → i < strlen s
end-of_more s i l z = elim (dec_lt i (strlen s)) [
  | yes h ↦ h
  | no h ↦
      let e : i ≡ strlen s = omega arith in
      let zero_at : get_or s i 0 ≡ 0 = ap (λ k. get_or s k 0) e ∙ get_or-strlen s in
      absurd (ground arith)
]

pub copied-strlen :
    (n i : ℕ) (s : List ℕ) → i ≤ strlen s → strlen s ≤ i + n → copied n i s ≡ strlen s
unfolding copied
copied-strlen zero i s l h = omega arith
copied-strlen (suc n) i s l h = elim (Bool-cases (get_or s i 0 == 0)) [
  | inl z ↦ rw z (end-of_zero s i l z)
  | inr z ↦
      let next = end-of_more s i l z in rw z (copied-strlen n (i + 1) s (omega arith) (omega arith))
]

pub length-copy_command : (n i : ℕ) (s d : List ℕ) → length (copy_command n i s d) ≡ length d
unfolding copy_command
length-copy_command zero i s d = length-set d i 0
length-copy_command (suc n) i s d = elim (Bool-cases (get_or s i 0 == 0)) [
  | inl z ↦ rw z (length-set d i 0)
  | inr z ↦
      rw z
        (length-copy_command n (i + 1) s (set d i (get_or s i 0)) ∙ length-set d i (get_or s i 0))
]

copy_command-below :
    (n i j : ℕ) (s d : List ℕ) → j < i → get_or (copy_command n i s d) j 0 ≡ get_or d j 0
unfolding copy_command
copy_command-below zero i j s d h = get_or-set_ne d i j 0 0 (λ e. omega arith)
copy_command-below (suc n) i j s d h = elim (Bool-cases (get_or s i 0 == 0)) [
  | inl z ↦ rw z (get_or-set_ne d i j 0 0 (λ e. omega arith))
  | inr z ↦ rw z (
      copy_command-below n (i + 1) j s (set d i (get_or s i 0)) (omega arith)
      ∙ get_or-set_ne d i j (get_or s i 0) 0 (λ e. omega arith))
]

-- The 0 that ends the copy.
copy_command-end :
    (i : ℕ) (s d : List ℕ) → i < length d → i ≡ strlen s → get_or (set d i 0) i 0 ≡ get_or s i 0
copy_command-end i s d l e =
    get_or-set_self d i 0 0 l ∙ sym (ap (λ k. get_or s k 0) e ∙ get_or-strlen s)

pub copy_command-at :
    (n i j : ℕ) (s d : List ℕ)
    → i ≤ j
    → j ≤ strlen s
    → strlen s ≤ i + n
    → i + n < length d
    → get_or (copy_command n i s d) j 0 ≡ get_or s j 0
unfolding copy_command
copy_command-at zero i j s d a b c r =
    let same : j ≡ i = omega arith in
    ap (λ k. get_or (set d i 0) k 0) same
    ∙ copy_command-end i s d (omega arith) (omega arith)
    ∙ ap (λ k. get_or s k 0) (sym same)
copy_command-at (suc n) i j s d a b c r = elim (Bool-cases (get_or s i 0 == 0)) [
  | inl z ↦
      let e = end-of_zero s i (omega arith) z in
      let same : j ≡ i = omega arith in
      rw z (
        ap (λ k. get_or (set d i 0) k 0) same
        ∙ copy_command-end i s d (omega arith) e
        ∙ ap (λ k. get_or s k 0) (sym same))
  | inr z ↦
      let w = get_or s i 0 in
      let next = end-of_more s i (omega arith) z in
      rw z (elim (dec_lt i j) [
        | yes later ↦
            copy_command-at n (i + 1) j s (set d i w) (omega arith) b (omega arith)
              (omega (arith, length-set d i w))
        | no here ↦
            let same : j ≡ i = omega arith in
            ap (λ k. get_or (copy_command n (i + 1) s (set d i w)) k 0) same
            ∙ copy_command-below n (i + 1) i s (set d i w) (omega arith)
            ∙ get_or-set_self d i w 0 (omega arith)
            ∙ ap (λ k. get_or s k 0) (sym same)
      ])
]

-- The text of the copy is that of the source, when it is no longer than the buffer.
pub copy_command-text :
    (s d : List ℕ)
    → strlen s ≤ line_capacity
    → length d ≡ line_capacity + 1
    → text (copy_command line_capacity 0 s d) ≡ text s
copy_command-text s d h r =
    text-eq_of_get_or (copy_command line_capacity 0 s d) s
      (λ j l. copy_command-at line_capacity 0 j s d (omega arith) l (omega arith) (omega arith))
