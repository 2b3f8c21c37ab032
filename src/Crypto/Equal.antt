-- ===== src/Crypto/Equal.antt =====
-- crypto_equal of src/libc/crypto.cpp and the equality of buffers.
use mr_hak_os.Prelude.{
  ℕ, zero, suc, ◌≤◌, ◌≡◌, ◌∙◌, refl, List, [], ◌∷◌, true, arith, ◌/◌, bit_xor, bit_or, ◌↔◌, sym, ap,
  length, ==_iff, ap₂,
}
use Prim.Native.Nat.{digits, bit_xor-bitwise, bit_or-bitwise, max}
use mr_hak_os.Crypto.Xor.{bit_xor-twice, bit_xor_self}
use mr_hak_os.Crypto.Aes.{differences, crypto_equal}

-- A bitwise or is 0 when both numbers are.
or_digits-zero : (n a b : ℕ) → a ≤ n → digits (λ b. b) max n a b ≡ 0 → (a ≡ 0) × (b ≡ 0)
or_digits-zero zero zero b h e = (refl, e)
or_digits-zero zero (suc a) b h e = absurd (omega arith)
or_digits-zero (suc n) zero b h e = (refl, e)
or_digits-zero (suc n) (suc a) b h e =
    let (x, y) = or_digits-zero n (suc a / 2) (b / 2) (omega arith) (omega arith) in
    (omega (arith, x, e), omega (arith, y, e))

bit_or-zero : (a b : ℕ) → bit_or a b ≡ 0 → (a ≡ 0) × (b ≡ 0)
bit_or-zero a b e = or_digits-zero a a b (omega arith) (sym (bit_or-bitwise a b) ∙ e)

-- An exclusive or is 0 when both numbers are the same.
bit_xor_iff : (a b : ℕ) → (bit_xor a b ≡ 0) ↔ (a ≡ b)
bit_xor_iff a b = (
  λ e. sym (bit_xor-twice a b) ∙ ap (λ x. bit_xor x b) e ∙ bit_xor-bitwise 0 b,
  λ e. ap (λ x. bit_xor x b) e ∙ bit_xor_self b,
)

-- No difference has been found before, and none is found.
differences-to_zero :
    (diff : ℕ) (a b : List ℕ)
    → length a ≡ length b
    → differences diff a b ≡ 0
    → (diff ≡ 0) × (a ≡ b)
unfolding differences
differences-to_zero diff [] [] n e = (e, refl)
differences-to_zero diff [] (y ∷ b) n e = absurd (omega arith)
differences-to_zero diff (x ∷ a) [] n e = absurd (omega arith)
differences-to_zero diff (x ∷ a) (y ∷ b) n e =
    let (d, rest) = differences-to_zero (bit_or diff (bit_xor x y)) a b (omega arith) e in
    let (old, new) = bit_or-zero diff (bit_xor x y) d in
    (old, ap₂ ◌∷◌ ((bit_xor_iff x y).0 new) rest)

differences_self : (a : List ℕ) → differences 0 a a ≡ 0
unfolding differences
differences_self [] = refl
differences_self (x ∷ a) =
    ap (λ d. differences (bit_or 0 d) a a) (bit_xor_self x) ∙ differences_self a

-- Of two buffers of the same length, crypto_equal tells whether they are equal.
pub crypto_equal_iff : (a b : List ℕ) → length a ≡ length b → (crypto_equal a b ≡ true) ↔ (a ≡ b)
unfolding crypto_equal
crypto_equal_iff a b n = (
  λ e. (differences-to_zero 0 a b n ((==_iff (differences 0 a b) 0).0 e)).1,
  λ e. (==_iff (differences 0 a b) 0).1 (ap (differences 0 a) (sym e) ∙ differences_self a),
)
