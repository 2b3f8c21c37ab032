-- ===== src/Crypto/Xor.antt =====
-- Exclusive or of numbers, digit by digit.
use mr_hak_os.Prelude.{
  ℕ, zero, suc, ◌+◌, ◌*◌, ◌≤◌, ◌<◌, ◌≡◌, ◌∙◌, refl, arith, bit_xor, ◌/◌, ◌%◌, subst, ap, sym,
}
use Prim.Native.Nat.{digits, differ, bit_xor-bitwise}

-- The digits of the exclusive or, with room for `n` of them.
abbrev xor_digits : ℕ → ℕ → ℕ → ℕ
xor_digits n a b = digits (λ b. b) differ n a b

differ-differ : (x y : ℕ) → x < 2 → y < 2 → differ (differ x y) y ≡ x
differ-differ zero zero h l = refl
differ-differ zero (suc zero) h l = refl
differ-differ (suc zero) zero h l = refl
differ-differ (suc zero) (suc zero) h l = refl
differ-differ (suc (suc x)) y h l = absurd (omega arith)
differ-differ zero (suc (suc y)) h l = absurd (omega arith)
differ-differ (suc zero) (suc (suc y)) h l = absurd (omega arith)

differ_lt : (x y : ℕ) → x < 2 → y < 2 → differ x y < 2
differ_lt zero y h l = l
differ_lt (suc x) zero h l = h
differ_lt (suc x) (suc y) h l = differ_lt x y (omega arith) (omega arith)

xor_digits-zero : (n b : ℕ) → xor_digits n 0 b ≡ b
xor_digits-zero zero b = refl
xor_digits-zero (suc n) b = refl

xor_digits-suc :
    (n a b : ℕ) → xor_digits (suc n) a b ≡ xor_digits n (a / 2) (b / 2) * 2 + differ (a % 2) (b % 2)
xor_digits-suc n zero b = rw (xor_digits-zero n (b / 2)) (omega arith)
xor_digits-suc n (suc a) b = refl

differ_self : (x : ℕ) → differ x x ≡ 0
differ_self zero = refl
differ_self (suc x) = differ_self x

xor_digits_self : (m b : ℕ) → b ≤ m → xor_digits m b b ≡ 0
xor_digits_self zero zero h = refl
xor_digits_self zero (suc b) h = absurd (omega arith)
xor_digits_self (suc m) b h =
    xor_digits-suc m b b
    ∙ omega (arith, xor_digits_self m (b / 2) (omega arith), differ_self (b % 2))

-- One digit, when the others are known.
xor_digits-step :
    (k a b y z d : ℕ)
    → y ≡ z * 2 + d
    → d ≡ differ (a % 2) (b % 2)
    → xor_digits k z (b / 2) ≡ a / 2
    → xor_digits (suc k) y b ≡ a
xor_digits-step k a b y z d e f rest =
    let small : d < 2 = omega (arith, f, differ_lt (a % 2) (b % 2) (omega arith) (omega arith)) in
    let half : y / 2 ≡ z = omega arith in
    let low : y % 2 ≡ d = omega arith in
    let back : differ (y % 2) (b % 2) ≡ a % 2 =
      ap (λ x. differ x (b % 2)) (low ∙ f)
      ∙ differ-differ (a % 2) (b % 2) (omega arith) (omega arith) in
    xor_digits-suc k y b ∙ omega (arith, ap (λ x. xor_digits k x (b / 2)) half, rest, back)

-- Twice the same number gives the first one back.
xor_digits-twice :
    (n m a b : ℕ) → a ≤ n → xor_digits n a b ≤ m → xor_digits m (xor_digits n a b) b ≡ a
xor_digits-twice zero m zero b h l = xor_digits_self m b l
xor_digits-twice zero m (suc a) b h l = absurd (omega arith)
xor_digits-twice (suc n) zero a b h l =
    let e = xor_digits-suc n a b in
    let y = xor_digits (suc n) a b in
    let none : y ≡ 0 = omega arith in
    ap (λ x. xor_digits 1 x b) (sym none)
    ∙ xor_digits-step 0 a b y (xor_digits n (a / 2) (b / 2)) (differ (a % 2) (b % 2)) e refl
        (xor_digits-twice n 0 (a / 2) (b / 2) (omega arith) (omega arith))
xor_digits-twice (suc n) (suc k) a b h l =
    let e = xor_digits-suc n a b in
    xor_digits-step k a b (xor_digits (suc n) a b) (xor_digits n (a / 2) (b / 2))
      (differ (a % 2) (b % 2)) e refl
      (xor_digits-twice n k (a / 2) (b / 2) (omega arith) (omega arith))

pub bit_xor-twice : (a b : ℕ) → bit_xor (bit_xor a b) b ≡ a
bit_xor-twice a b =
    let e : bit_xor a b ≡ xor_digits a a b = bit_xor-bitwise a b in
    bit_xor-bitwise (bit_xor a b) b
    ∙ subst (λ y. xor_digits y y b ≡ a) (sym e)
        (xor_digits-twice a (xor_digits a a b) a b (omega arith) (omega arith))

pub bit_xor_self : (a : ℕ) → bit_xor a a ≡ 0
bit_xor_self a = bit_xor-bitwise a a ∙ xor_digits_self a a (omega arith)
