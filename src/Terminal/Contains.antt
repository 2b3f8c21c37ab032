-- ===== src/Terminal/Contains.antt =====
-- textContains of src/libc/terminal.cpp finds what is there.
use mr_hak_os.Terminal.{text_contains, starts, contains_from, no_text}
use mr_hak_os.Prelude.{
  ℕ, ◌≡◌, ◌≢◌, refl, List, [], ◌∷◌, ◌++◌, true, false, some, inl, inr, arith, ◌==◌, Bool-cases,
}

-- No character is the terminator.
abbrev pub IsText : List ℕ → Type 0
IsText [] = Unit
IsText (c ∷ s) = (c ≢ 0) × IsText s

starts-append : (needle post : List ℕ) → starts needle (needle ++ post) ≡ true
unfolding starts
starts-append [] post = refl
starts-append (c ∷ needle) post = ground (arith, starts-append needle post)

contains_from-append :
    (pre needle post : List ℕ)
    → IsText pre
    → no_text needle ≡ false
    → contains_from (pre ++ (needle ++ post)) needle ≡ true
unfolding contains_from
contains_from-append [] [] post t n = absurd (cc)
contains_from-append [] (c ∷ needle) post t n =
    let s = starts-append needle post in unfold starts in ground (arith, n, s)
contains_from-append (c ∷ pre) needle post (nz, t) n =
    let z : (c == 0) ≡ false = ground arith in
    let rest = contains_from-append pre needle post t n in
    elim (Bool-cases (starts needle (c ∷ (pre ++ (needle ++ post))))) [
      | inl s ↦ rw (z, s) refl
      | inr s ↦ rw (z, s) rest
    ]

-- `textContains` finds a text that is not empty wherever it stands, when no terminator comes before it.
pub text_contains-append :
    (pre needle post : List ℕ)
    → IsText pre
    → no_text needle ≡ false
    → text_contains (some (pre ++ (needle ++ post))) (some needle) ≡ true
unfolding text_contains
text_contains-append pre needle post t n = rw n (contains_from-append pre needle post t n)
