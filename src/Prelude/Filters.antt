-- ===== src/Prelude/Filters.antt =====
-- Tests over lists: all, filter, counts, and what they say of one element.
use Prim.Native.Nat.{ℕ, zero, suc, ◌≤◌, ◌<◌}
use native.Mathlib.Decide.{dec_lt}
use mathlib.Core.Path.{◌≡◌, refl}
use mathlib.Core.Logic.{inl, inr}
use mathlib.Core.Bool.{Bool, true, false, ◌&&◌, ◌||◌}
use mathlib.Core.Option.{some}
use mathlib.Core.List.{List, [], ◌∷◌}
use native.Mathlib.Omega.{arith}
use repchat.Prelude.Tests.{if◌then◌else◌, Bool-cases}
use repchat.Prelude.Lists.{length, get_elem?, sum_by}

abbrev pub bit : Bool → ℕ
bit true = 1
bit false = 0

module _ {ℓ} {A : Type ℓ} where
  abbrev pub all : (A → Bool) → List A → Bool
  all p [] = true
  all p (x ∷ xs) = p x && all p xs

  abbrev pub any_of : (A → Bool) → List A → Bool
  any_of p [] = false
  any_of p (x ∷ xs) = p x || any_of p xs

  abbrev pub filter : (A → Bool) → List A → List A
  filter p [] = []
  filter p (x ∷ xs) = let rest = filter p xs in if p x then x ∷ rest else rest

  -- `sum(p(x) for x in xs)`
  abbrev pub count : (A → Bool) → List A → ℕ
  count p xs = sum_by (λ x. bit (p x)) xs

module _ {ℓ} {A : Type ℓ} where
  pub all-get :
      (p : A → Bool) (xs : List A) (i : ℕ) (x : A)
      → all p xs ≡ true
      → get_elem? xs i ≡ some x
      → p x ≡ true
  all-get p [] i x h e = cc
  all-get p (y ∷ ys) zero x h e = ground arith
  all-get p (y ∷ ys) (suc i) x h e = all-get p ys i x (ground arith) e

  pub count-get :
      (p : A → Bool) (xs : List A) (i : ℕ) (x : A)
      → count p xs ≡ 0
      → get_elem? xs i ≡ some x
      → p x ≡ false
  count-get p [] i x h e = cc
  count-get p (y ∷ ys) zero x h e = ground arith
  count-get p (y ∷ ys) (suc i) x h e = count-get p ys i x (ground arith) e

  pub length-filter : (p : A → Bool) (xs : List A) → length (filter p xs) ≤ length xs
  length-filter p [] = omega arith
  length-filter p (x ∷ xs) = elim (Bool-cases (p x)) [
    | inl e ↦ rw e (omega (arith, length-filter p xs))
    | inr e ↦ rw e (omega (arith, length-filter p xs))
  ]

  -- What a filter that drops nothing says of each element.
  pub length-filter-get :
      (p : A → Bool) (xs : List A) (i : ℕ) (x : A)
      → length xs ≤ length (filter p xs)
      → get_elem? xs i ≡ some x
      → p x ≡ true
  length-filter-get p [] i x h e = cc
  length-filter-get p (y ∷ ys) zero x h e = elim (Bool-cases (p y)) [
    | inl k ↦ cc
    | inr k ↦ absurd (let h' = rw k at h in omega (arith, length-filter p ys))
  ]
  length-filter-get p (y ∷ ys) (suc i) x h e = elim (Bool-cases (p y)) [
    | inl k ↦ length-filter-get p ys i x (let h' = rw k at h in omega arith) e
    | inr k ↦ absurd (let h' = rw k at h in omega (arith, length-filter p ys))
  ]

  -- A test on what a filter keeps.
  pub all-filter-get :
      (p q : A → Bool) (xs : List A) (i : ℕ) (x : A)
      → all q (filter p xs) ≡ true
      → p x ≡ true
      → get_elem? xs i ≡ some x
      → q x ≡ true
  all-filter-get p q [] i x h k e = cc
  all-filter-get p q (y ∷ ys) zero x h k e =
      let same : y ≡ x = cc in
      let kept : p y ≡ true = rw same k in let h' = rw kept at h in rw (← same) (ground arith)
  all-filter-get p q (y ∷ ys) (suc i) x h k e = elim (Bool-cases (p y)) [
    | inl kept ↦ all-filter-get p q ys i x (let h' = rw kept at h in ground arith) k e
    | inr gone ↦ all-filter-get p q ys i x (rw gone at h) k e
  ]

  -- A test that holds of some element holds of one at a place.
  pub any_of-get :
      (p : A → Bool) (xs : List A)
      → any_of p xs ≡ true
      → (i : ℕ) × ((x : A) × (get_elem? xs i ≡ some x) × (p x ≡ true))
  any_of-get p [] h = cc
  any_of-get p (x ∷ xs) h = elim (Bool-cases (p x)) [
    | inl e ↦ (0, (x, refl, e))
    | inr e ↦ let (i, found) = any_of-get p xs (rw e at h) in (suc i, found)
  ]

  -- An element that a filter keeps.
  pub filter-get :
      (p : A → Bool) (xs : List A) (i : ℕ) (x : A)
      → get_elem? (filter p xs) i ≡ some x
      → (j : ℕ) × (get_elem? xs j ≡ some x) × (p x ≡ true)
  filter-get p [] i x e = cc
  filter-get p (y ∷ ys) i x e = elim (Bool-cases (p y)) [
    | inl kept ↦ kept_get i kept (rw kept at e) (λ n h. filter-get p ys n x h)
    | inr gone ↦ let (j, a, b) = filter-get p ys i x (rw gone at e) in (suc j, a, b)
  ]
    where
      kept_get :
          (n : ℕ)
          → p y ≡ true
          → get_elem? (y ∷ filter p ys) n ≡ some x
          → ((m : ℕ)
              → get_elem? (filter p ys) m ≡ some x
              → (j : ℕ) × (get_elem? ys j ≡ some x) × (p x ≡ true))
          → (j : ℕ) × (get_elem? (y ∷ ys) j ≡ some x) × (p x ≡ true)
      kept_get zero kept h ih = let same : y ≡ x = cc in (0, h, rw (← same) kept)
      kept_get (suc n) kept h ih = let (j, a, b) = ih n h in (suc j, a, b)

  -- A positive sum has a positive summand.
  pub sum_by-positive :
      (f : A → ℕ) (xs : List A)
      → 0 < sum_by f xs
      → (i : ℕ) × ((x : A) × (get_elem? xs i ≡ some x) × (0 < f x))
  sum_by-positive f [] h = absurd (omega arith)
  sum_by-positive f (x ∷ xs) h = elim (dec_lt 0 (f x)) [
    | yes p ↦ (0, (x, refl, p))
    | no p ↦ let (i, found) = sum_by-positive f xs (omega arith) in (suc i, found)
  ]

  pub count-positive :
      (p : A → Bool) (xs : List A)
      → 0 < count p xs
      → (i : ℕ) × ((x : A) × (get_elem? xs i ≡ some x) × (p x ≡ true))
  count-positive p xs h =
      let (i, (x, e, found)) = sum_by-positive (λ x. bit (p x)) xs h in (i, (x, e, ground arith))
