-- ===== src/Network/Packet.antt =====
-- The bytes of a received packet, as src/libc/network.cpp reads them. A pointer with a length is the list of the
-- bytes that it may read; the result `none` is a read behind them, or a handler that does not return.
use mr_hak_os.Prelude.{
  ℕ, ◌+◌, ◌*◌, List, Option, get_elem?, take, some, none, ◌^◌, drop, zero, suc, ◌≤◌, ◌<◌, ◌≡◌, ◌∙◌,
  refl, [], ◌∷◌, Bool, true, false, arith, length, get_or, subst, length-take, sym, length-drop,
  get_or-take, get_or-drop,
}

infixl 5 ◌>>=◌
unfoldable pub ◌>>=◌ {ℓ κ} : {A : Type ℓ} {B : Type κ} → Option A → (A → Option B) → Option B
none >>= f = none
some a >>= f = f a

-- p[i]
unfoldable pub byte_of : List ℕ → ℕ → Option ℕ
byte_of p i = get_elem? p i

unfoldable pub rd16 : List ℕ → ℕ → Option ℕ
unfolding byte_of ◌>>=◌
rd16 p i = do a ← byte_of p i; b ← byte_of p (i + 1); some (a * 256 + b)

unfoldable pub rd32 : List ℕ → ℕ → Option ℕ
unfolding byte_of ◌>>=◌
rd32 p i = do
  a ← byte_of p i
  b ← byte_of p (i + 1)
  c ← byte_of p (i + 2)
  d ← byte_of p (i + 3)
  some (a * 2 ^ 24 + b * 2 ^ 16 + c * 2 ^ 8 + d)

-- if (test) return result;
unfoldable pub return_if {ℓ} : {A : Type ℓ} → Bool → A → Option A → Option A
return_if true result rest = some result
return_if false result rest = rest

-- if (test) x else y, where the branches read
unfoldable pub branch {ℓ} : {A : Type ℓ} → Bool → Option A → Option A → Option A
branch true x y = x
branch false x y = y

-- What a helper found, or the result with which the caller then leaves.
unfoldable pub or_return {ℓ κ} :
    {A : Type ℓ} {B : Type κ} → Option A → B → (A → Option B) → Option B
or_return none result f = some result
or_return (some a) result f = f a

-- The `n` bytes at p + from.
abbrev pub view : List ℕ → ℕ → ℕ → List ℕ
view p from n = take n (drop from p)

-- The computation reads no byte that it may not read, and its result has the property.
pub data Returns {ℓ κ} {A : Type ℓ} (P : A → Type κ) : Option A → Type (ℓ ⊔ κ) where
  returns : (a : A) → P a → Returns P (some a)

pub Returns-mono :
    {A : Type 0} {P Q : A → Type 0} {o : Option A}
    → ((a : A) → P a → Q a)
    → Returns P o
    → Returns Q o
Returns-mono f (returns a h) = returns a (f a h)

pub Returns-bind :
    {A B : Type 0} {P : A → Type 0} {Q : B → Type 0} {o : Option A} {f : A → Option B}
    → Returns P o
    → ((a : A) → P a → Returns Q (f a))
    → Returns Q (o >>= f)
unfolding ◌>>=◌
Returns-bind (returns a h) k = k a h

byte_of-some : (p : List ℕ) (i : ℕ) → i < length p → byte_of p i ≡ some (get_or p i 0)
unfolding byte_of
byte_of-some [] i h = elim h [ ]
byte_of-some (x ∷ p) zero h = refl
byte_of-some (x ∷ p) (suc i) h = byte_of-some p i (omega arith)

-- A read in range, and what follows it.
pub byte_of-then :
    {B : Type 0} {Q : B → Type 0} (p : List ℕ) (i : ℕ) (f : ℕ → Option B)
    → i < length p
    → Returns Q (f (get_or p i 0))
    → Returns Q (byte_of p i >>= f)
unfolding ◌>>=◌
byte_of-then {B} {Q} p i f h r = subst (λ o. Returns Q (o >>= f)) (sym (byte_of-some p i h)) r

-- The numbers that two and four bytes stand for.
abbrev pub be16 : List ℕ → ℕ → ℕ
be16 p i = get_or p i 0 * 256 + get_or p (i + 1) 0

abbrev pub be32 : List ℕ → ℕ → ℕ
be32 p i =
    get_or p i 0 * 2 ^ 24
    + get_or p (i + 1) 0 * 2 ^ 16
    + get_or p (i + 2) 0 * 2 ^ 8
    + get_or p (i + 3) 0

pub rd16-some : (p : List ℕ) (i : ℕ) → i + 2 ≤ length p → rd16 p i ≡ some (be16 p i)
unfolding rd16 ◌>>=◌
rd16-some p i h = rw (byte_of-some p i (omega arith), byte_of-some p (i + 1) (omega arith)) refl

pub rd32-some : (p : List ℕ) (i : ℕ) → i + 4 ≤ length p → rd32 p i ≡ some (be32 p i)
unfolding rd32 ◌>>=◌
rd32-some p i h =
    rw
      (
        byte_of-some p i (omega arith),
        byte_of-some p (i + 1) (omega arith),
        byte_of-some p (i + 2) (omega arith),
        byte_of-some p (i + 3) (omega arith),
      )
      refl

pub rd16-then :
    {B : Type 0} {Q : B → Type 0} (p : List ℕ) (i : ℕ) (f : ℕ → Option B)
    → i + 2 ≤ length p
    → Returns Q (f (be16 p i))
    → Returns Q (rd16 p i >>= f)
unfolding ◌>>=◌
rd16-then {B} {Q} p i f h r = subst (λ o. Returns Q (o >>= f)) (sym (rd16-some p i h)) r

pub rd32-then :
    {B : Type 0} {Q : B → Type 0} (p : List ℕ) (i : ℕ) (f : ℕ → Option B)
    → i + 4 ≤ length p
    → Returns Q (f (be32 p i))
    → Returns Q (rd32 p i >>= f)
unfolding ◌>>=◌
rd32-then {B} {Q} p i f h r = subst (λ o. Returns Q (o >>= f)) (sym (rd32-some p i h)) r

pub return_if-Returns :
    {B : Type 0} {Q : B → Type 0} (c : Bool) (b : B) (rest : Option B)
    → (c ≡ true → Q b)
    → (c ≡ false → Returns Q rest)
    → Returns Q (return_if c b rest)
unfolding return_if
return_if-Returns true b rest f g = returns b (f refl)
return_if-Returns false b rest f g = g refl

pub or_return-Returns :
    {A B : Type 0} {Q : B → Type 0} (o : Option A) (b : B) (f : A → Option B)
    → Q b
    → ((a : A) → o ≡ some a → Returns Q (f a))
    → Returns Q (or_return o b f)
unfolding or_return
or_return-Returns none b f q g = returns b q
or_return-Returns (some a) b f q g = g a refl

pub branch-Returns :
    {B : Type 0} {Q : B → Type 0} (c : Bool) (x y : Option B)
    → (c ≡ true → Returns Q x)
    → (c ≡ false → Returns Q y)
    → Returns Q (branch c x y)
unfolding branch
branch-Returns true x y f g = f refl
branch-Returns false x y f g = g refl

pub length-view : (p : List ℕ) (from n : ℕ) → from + n ≤ length p → length (view p from n) ≡ n
length-view p from n h = omega (arith, length-take n (drop from p), length-drop from p)

pub get_or-view :
    (p : List ℕ) (from n i : ℕ) → i < n → get_or (view p from n) i 0 ≡ get_or p (from + i) 0
get_or-view p from n i h = get_or-take n i (drop from p) 0 h ∙ get_or-drop from i p 0

-- The computation reads no byte that it may not read.
abbrev pub Answers : {A : Type 0} → Option A → Type 0
Answers o = Returns {0, 0} (λ _. Unit) o
