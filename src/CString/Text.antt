-- ===== src/CString/Text.antt =====
-- The text that a C string stands for, and what strlen and strcmp say of it.
use mr_hak_os.Prelude.{
  ℕ, ◌≤◌, ◌≡◌, refl, List, [], ◌∷◌, true, ◌==◌, if◌then◌else◌, length, arith, ◌↔◌, get_or,
  Bool-cases, inl, suc, inr, zero, take, ap, ◌+◌, ◌∙◌,
}
use native.Mathlib.Numerals.{towards_suc}
use mr_hak_os.CString.{strlen, strcmp, is_equal}

-- The characters before the terminator.
unfoldable pub text : List ℕ → List ℕ
text [] = []
text (c ∷ s) = let rest = c ∷ text s in if c == 0 then [] else rest

-- `strlen` counts the characters before the first NUL byte.
pub strlen-length : (s : List ℕ) → strlen s ≡ length (text s)
unfolding strlen text
strlen-length [] = refl
strlen-length (c ∷ s) = ground (arith, strlen-length s)

pub strlen-le : (s : List ℕ) → strlen s ≤ length s
unfolding strlen
strlen-le [] = omega arith
strlen-le (c ∷ s) = ground (arith, strlen-le s)

pub strcmp_refl : (s : List ℕ) → is_equal (strcmp s s) ≡ true
unfolding strcmp
strcmp_refl [] = refl
strcmp_refl (c ∷ s) = ground (arith, strcmp_refl s)

-- `strcmp` returns 0 exactly when the two texts are equal.
pub strcmp_iff : (a b : List ℕ) → (is_equal (strcmp a b) ≡ true) ↔ (text a ≡ text b)
unfolding strcmp text
strcmp_iff [] [] = ground arith
strcmp_iff [] (d ∷ b) = ground arith
strcmp_iff (c ∷ a) [] = ground arith
strcmp_iff (c ∷ a) (d ∷ b) = ground (arith, strcmp_iff a b)

-- A NUL byte at place `k` ends the text there or before.
pub strlen-le_of_nul : (s : List ℕ) (k : ℕ) → get_or s k 0 ≡ 0 → strlen s ≤ k
unfolding strlen
strlen-le_of_nul [] k h = omega arith
strlen-le_of_nul (c ∷ s) zero h = ground arith
strlen-le_of_nul (c ∷ s) (suc k) h = ground (arith, strlen-le_of_nul s k)

-- Two buffers that agree up to the terminator of one hold the same text.
pub text-eq_of_get_or :
    (a s : List ℕ) → ((j : ℕ) → j ≤ strlen s → get_or a j 0 ≡ get_or s j 0) → text a ≡ text s
unfolding text strlen
text-eq_of_get_or [] [] h = refl
text-eq_of_get_or [] (c ∷ s) h = ground (arith, h 0)
text-eq_of_get_or (b ∷ a) [] h = ground (arith, h 0)
text-eq_of_get_or (b ∷ a) (c ∷ s) h = elim (Bool-cases (c == 0)) [
  | inl e ↦ ground (arith, h 0)
  | inr e ↦ ground (arith, h 0, text-eq_of_get_or a s (λ j p. h (suc j) (ground arith)))
]

pub get_or-strlen : (s : List ℕ) → get_or s (strlen s) 0 ≡ 0
unfolding strlen
get_or-strlen [] = refl
get_or-strlen (c ∷ s) = elim (Bool-cases (c == 0)) [
  | inl e ↦ rw e (ground arith)
  | inr e ↦ rw e (simp towards_suc (get_or-strlen s))
]

pub text-take : (s : List ℕ) → text s ≡ take (strlen s) s
unfolding text strlen
text-take [] = refl
text-take (c ∷ s) = elim (Bool-cases (c == 0)) [
  | inl z ↦ rw z refl
  | inr z ↦
      let one_more : suc (strlen s) ≡ strlen s + 1 = omega arith in
      rw z (ap (λ r. c ∷ r) (text-take s) ∙ ap (λ n. take n (c ∷ s)) one_more)
]
