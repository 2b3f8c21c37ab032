-- ===== src/Prelude/Places.antt =====
-- A property of every place and value of a list, counted from `i`.
use Prim.Native.Nat.{ℕ, zero, suc, ◌+◌}
use mathlib.Core.Path.{◌≡◌, subst}
use mathlib.Core.List.{List, [], ◌∷◌, ◌++◌}
use mathlib.Core.Option.{some}
use native.Mathlib.Omega.{arith}
use mr_hak_os.Prelude.Lists.{length, get_elem?, set}

module _ {ℓ κ} {A : Type ℓ} where
  abbrev pub AllFrom : (ℕ → A → Type κ) → ℕ → List A → Type κ
  AllFrom P i [] = Unit
  AllFrom P i (x ∷ xs) = P i x × AllFrom P (i + 1) xs

  pub AllFrom-get :
      (P : ℕ → A → Type κ) (i k j : ℕ) (xs : List A) (x : A)
      → AllFrom P i xs
      → get_elem? xs k ≡ some x
      → i + k ≡ j
      → P j x
  AllFrom-get P i k j [] x h e q = absurd (cc)
  AllFrom-get P i zero j (y ∷ xs) x h e q =
      let q' : i ≡ j = omega arith in
      let e' : y ≡ x = cc in subst (P j) e' (subst (λ n. P n y) q' h.0)
  AllFrom-get P i (suc k) j (y ∷ xs) x h e q = AllFrom-get P (i + 1) k j xs x h.1 e (omega arith)

  pub AllFrom-set :
      (P : ℕ → A → Type κ) (i k j : ℕ) (xs : List A) (v : A)
      → AllFrom P i xs
      → P j v
      → i + k ≡ j
      → AllFrom P i (set xs k v)
  AllFrom-set P i k j [] v h p q = tt
  AllFrom-set P i zero j (y ∷ xs) v h p q =
      let q' : j ≡ i = omega arith in (subst (λ n. P n v) q' p, h.1)
  AllFrom-set P i (suc k) j (y ∷ xs) v h p q =
      (h.0, AllFrom-set P (i + 1) k j xs v h.1 p (omega arith))

  pub AllFrom-snoc :
      (P : ℕ → A → Type κ) (i j : ℕ) (xs : List A) (v : A)
      → AllFrom P i xs
      → P j v
      → i + length xs ≡ j
      → AllFrom P i (xs ++ v ∷ [])
  AllFrom-snoc P i j [] v h p q = let q' : j ≡ i = omega arith in (subst (λ n. P n v) q' p, tt)
  AllFrom-snoc P i j (y ∷ xs) v h p q = (h.0, AllFrom-snoc P (i + 1) j xs v h.1 p (omega arith))

  pub AllFrom-mono :
      (P Q : ℕ → A → Type κ) (i : ℕ) (xs : List A)
      → ((n : ℕ) (x : A) → P n x → Q n x)
      → AllFrom P i xs
      → AllFrom Q i xs
  AllFrom-mono P Q i [] f h = tt
  AllFrom-mono P Q i (x ∷ xs) f h = (f i x h.0, AllFrom-mono P Q (i + 1) xs f h.1)
