-- ===== src/Prelude/Lists.antt =====
-- Lists measured and indexed by native numbers, under the library's names, and sums over lists.
use Prim.Native.Nat.{ℕ, zero, suc, ◌+◌, ◌≤◌}
use mathlib.Core.Path.{◌≡◌, refl, ap}
use mathlib.Core.Option.{Option, none, some}
use mathlib.Core.List.{List, [], ◌∷◌, ◌++◌}
use native.Mathlib.Omega.{arith}

module _ {ℓ} {A : Type ℓ} where
  abbrev pub length : List A → ℕ
  length [] = 0
  length (x ∷ xs) = suc (length xs)

  abbrev pub get_elem? : List A → ℕ → Option A
  get_elem? [] i = none
  get_elem? (x ∷ xs) zero = some x
  get_elem? (x ∷ xs) (suc i) = get_elem? xs i

  -- A write out of bounds changes nothing.
  abbrev pub set : List A → ℕ → A → List A
  set [] i v = []
  set (x ∷ xs) zero v = v ∷ xs
  set (x ∷ xs) (suc i) v = x ∷ set xs i v

  -- The sum of a measure over a list.
  abbrev pub sum_by : (A → ℕ) → List A → ℕ
  sum_by f [] = 0
  sum_by f (x ∷ xs) = f x + sum_by f xs

module _ {ℓ} {A : Type ℓ} where
  pub sum_by-append : (f : A → ℕ) (xs ys : List A) → sum_by f (xs ++ ys) ≡ sum_by f xs + sum_by f ys
  sum_by-append f [] ys = omega arith
  sum_by-append f (x ∷ xs) ys = omega (arith, sum_by-append f xs ys)

  -- Replacing one element moves the sum by the difference of the two measures.
  pub sum_by-set :
      (f : A → ℕ) (xs : List A) (i : ℕ) (v w : A)
      → get_elem? xs i ≡ some v
      → sum_by f (set xs i w) + f v ≡ sum_by f xs + f w
  sum_by-set f [] i v w h = cc
  sum_by-set f (x ∷ xs) zero v w h = ground (arith, ap f (some_inj h))
    where
      some_inj : {a b : A} → some a ≡ some b → a ≡ b
      some_inj e = cc
  sum_by-set f (x ∷ xs) (suc i) v w h = omega (arith, sum_by-set f xs i v w h)

  pub sum_by-get :
      (f : A → ℕ) (xs : List A) (i : ℕ) (v : A) → get_elem? xs i ≡ some v → f v ≤ sum_by f xs
  sum_by-get f [] i v h = cc
  sum_by-get f (x ∷ xs) zero v h = ground (arith, ap f (some_inj h))
    where
      some_inj : {a b : A} → some a ≡ some b → a ≡ b
      some_inj e = cc
  sum_by-get f (x ∷ xs) (suc i) v h = omega (arith, sum_by-get f xs i v h)

  pub get_elem?-append_last : (xs : List A) (v : A) → get_elem? (xs ++ v ∷ []) (length xs) ≡ some v
  get_elem?-append_last [] v = refl
  get_elem?-append_last (x ∷ xs) v = get_elem?-append_last xs v
