-- ===== src/Crypto/Counter.antt =====
-- The counter of the counter mode of src/libc/crypto.cpp, as a big-endian number.
use mr_hak_os.Prelude.{
  ℕ, zero, suc, ◌+◌, ◌*◌, ◌≤◌, ◌<◌, ◌≡◌, ◌∙◌, refl, List, arith, ◌==◌, set, get_or, length, ◌%◌,
  ap₂, dec_lt, get_or-set_self, if-elim, get_or-set_ne, sym, length-set, ap, subst,
}
use mr_hak_os.Crypto.Aes.{ctr_incr_full}

-- The number that the first `n` bytes stand for.
abbrev pub counter_number : ℕ → List ℕ → ℕ
counter_number zero c = 0
counter_number (suc n) c = counter_number n c * 256 + get_or c n 0

number-set : (n i v : ℕ) (c : List ℕ) → n ≤ i → counter_number n (set c i v) ≡ counter_number n c
number-set zero i v c h = refl
number-set (suc n) i v c h =
    ap₂ (λ x y. x * 256 + y) (number-set n i v c (omega arith))
      (get_or-set_ne c i n v 0 (λ e. omega arith))

-- The loop leaves the bytes from the n-th on, and their number.
incr-behind : (n j : ℕ) (c : List ℕ) → n ≤ j → get_or (ctr_incr_full n c) j 0 ≡ get_or c j 0
unfolding ctr_incr_full
incr-behind zero j c h = refl
incr-behind (suc i) j c h =
    let b = (get_or c i 0 + 1) % 256 in
    if-elim (λ r. get_or r j 0 ≡ get_or c j 0) (b == 0) (ctr_incr_full i (set c i b)) (set c i b)
      (λ _. incr-behind i j (set c i b) (omega arith) ∙ get_or-set_ne c i j b 0 (λ e. omega arith))
      (λ _. get_or-set_ne c i j b 0 (λ e. omega arith))

-- One more, or 0 when all the bytes were 255.
pub data NextNumber (n : ℕ) (c next : List ℕ) : Type 0 where
  counted : counter_number n next ≡ counter_number n c + 1 → NextNumber n c next
  wrapped : counter_number n next ≡ 0 → ((i : ℕ) → i < n → get_or c i 0 ≡ 255) → NextNumber n c next

wrapped-snoc :
    (i : ℕ) (c d : List ℕ)
    → ((k : ℕ) → k < i → get_or d k 0 ≡ 255)
    → ((k : ℕ) → k < i → get_or d k 0 ≡ get_or c k 0)
    → get_or c i 0 ≡ 255
    → (k : ℕ) → k < suc i
    → get_or c k 0 ≡ 255
wrapped-snoc i c d all same last k h = elim (dec_lt k i) [
  | yes old ↦ sym (same k old) ∙ all k old
  | no new ↦ let e : k ≡ i = omega arith in ap (λ j. get_or c j 0) e ∙ last
]

carry-NextNumber :
    (i : ℕ) (c : List ℕ)
    → i < length c
    → get_or c i 0 ≡ 255
    → NextNumber i (set c i 0) (ctr_incr_full i (set c i 0))
    → NextNumber (suc i) c (ctr_incr_full i (set c i 0))
carry-NextNumber i c r last (counted e) =
    let d = set c i 0 in
    let low : get_or (ctr_incr_full i d) i 0 ≡ 0 =
      incr-behind i i d (omega arith) ∙ get_or-set_self c i 0 0 r in
    counted (omega (arith, e, low, last, number-set i i 0 c (omega arith)))
carry-NextNumber i c r last (wrapped e all) =
    let d = set c i 0 in
    let low : get_or (ctr_incr_full i d) i 0 ≡ 0 =
      incr-behind i i d (omega arith) ∙ get_or-set_self c i 0 0 r in
    wrapped (omega (arith, e, low))
      (wrapped-snoc i c d all (λ k h. get_or-set_ne c i k 0 0 (λ q. omega arith)) last)

-- The first `n` bytes of the counter are counted up as one number.
pub ctr_incr_full-NextNumber :
    (n : ℕ) (c : List ℕ)
    → n ≤ length c
    → ((i : ℕ) → i < n → get_or c i 0 < 256)
    → NextNumber n c (ctr_incr_full n c)
unfolding ctr_incr_full
ctr_incr_full-NextNumber zero c h byte = wrapped refl (λ i k. absurd (omega arith))
ctr_incr_full-NextNumber (suc i) c h byte =
    let b = (get_or c i 0 + 1) % 256 in
    if-elim (NextNumber (suc i) c) (b == 0) (ctr_incr_full i (set c i b)) (set c i b)
      (λ carry.
        let last : get_or c i 0 ≡ 255 = ground (arith, byte i (omega arith)) in
        let b_is : b ≡ 0 = ground arith in
        subst (λ x. NextNumber (suc i) c (ctr_incr_full i (set c i x))) (sym b_is)
          (carry-NextNumber i c (omega arith) last (
            ctr_incr_full-NextNumber i (set c i 0) (omega (arith, length-set c i 0)) (λ k l.
              subst (λ x. x < 256) (sym (get_or-set_ne c i k 0 0 (λ q. omega arith)))
                (byte k (omega arith))))))
      (λ done.
        let one_more : b ≡ get_or c i 0 + 1 = ground (arith, byte i (omega arith)) in
        counted (
          omega (
            arith,
            one_more,
            number-set i i b c (omega arith),
            get_or-set_self c i b 0 (omega arith),
          )))
