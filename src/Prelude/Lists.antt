-- ===== src/Prelude/Lists.antt =====
-- Lists measured by native numbers, sums and maxima over a list, Boolean quantifiers and filters.
use Prim.Native.Nat.{ℕ, suc, ◌+◌, ◌≤◌, max}
use mathlib.Core.Path.{◌≡◌, refl, sym, subst}
use mathlib.Core.Bool.{Bool, true, false, ◌&&◌, ◌||◌}
use mathlib.Core.List.{List, [], ◌∷◌, ◌++◌, map, Memᴰ}
use mathlib.Core.List.Memᴰ.{head, tail}
use native.Mathlib.Omega.{arith}
use mathlib.Core.Logic.{inl, inr}
use modelark.Prelude.Tests.{if◌then◌else◌, Bool-cases}

module _ {ℓ} {A : Type ℓ} where
  abbrev pub length : List A → ℕ
  length [] = 0
  length (x ∷ xs) = suc (length xs)

  -- sum(f(x) for x in xs)
  abbrev pub sum_by : (A → ℕ) → List A → ℕ
  sum_by f [] = 0
  sum_by f (x ∷ xs) = f x + sum_by f xs

  -- max((f(x) for x in xs), default=0)
  abbrev pub max_by : (A → ℕ) → List A → ℕ
  max_by f [] = 0
  max_by f (x ∷ xs) = max (f x) (max_by f xs)

  -- [x for x in xs if p(x)]
  abbrev pub select : (A → Bool) → List A → List A
  select p [] = []
  select p (x ∷ xs) = let rest = select p xs in if p x then x ∷ rest else rest

  -- all(p(x) for x in xs)
  abbrev pub all : (A → Bool) → List A → Bool
  all p [] = true
  all p (x ∷ xs) = p x && all p xs

  -- any(p(x) for x in xs)
  abbrev pub any : (A → Bool) → List A → Bool
  any p [] = false
  any p (x ∷ xs) = p x || any p xs

  -- Every member satisfies a predicate.
  abbrev pub All {κ} : (A → Type κ) → List A → Type κ
  All P [] = Unit
  All P (x ∷ xs) = P x × All P xs

  pub length-append : (xs ys : List A) → length (xs ++ ys) ≡ length xs + length ys
  length-append [] ys = omega arith
  length-append (x ∷ xs) ys = omega (arith, length-append xs ys)

  pub sum_by-append : (f : A → ℕ) (xs ys : List A) → sum_by f (xs ++ ys) ≡ sum_by f xs + sum_by f ys
  sum_by-append f [] ys = omega arith
  sum_by-append f (x ∷ xs) ys = omega (arith, sum_by-append f xs ys)

  pub max_by-append :
      (f : A → ℕ) (xs ys : List A) → max_by f (xs ++ ys) ≡ max (max_by f xs) (max_by f ys)
  max_by-append f [] ys = omega arith
  max_by-append f (x ∷ xs) ys = omega (arith, max_by-append f xs ys)

  pub select-append :
      (p : A → Bool) (xs ys : List A) → select p (xs ++ ys) ≡ select p xs ++ select p ys
  select-append p [] ys = refl
  select-append p (x ∷ xs) ys = ground (arith, select-append p xs ys)

  pub sum_by-select-le :
      (f : A → ℕ) (p : A → Bool) (xs : List A) → sum_by f (select p xs) ≤ sum_by f xs
  sum_by-select-le f p [] = omega arith
  sum_by-select-le f p (x ∷ xs) = ground (arith, sum_by-select-le f p xs)

module _ {ℓ κ} {A : Type ℓ} where
  pub All-at : (P : A → Type κ) (xs : List A) (a : A) → All P xs → Memᴰ a xs → P a
  All-at P xs a ps m =
      elim m as (λ xs m. All P xs → P a) [
        | head e ↦ λ qs. subst P (sym e) qs.0
        | tail (m → ih) ↦ λ qs. ih qs.1
      ]
        ps

  -- What holds of every member of a list, from a proof for each.
  pub All-from : (P : A → Type κ) (xs : List A) → ((a : A) → Memᴰ a xs → P a) → All P xs
  All-from P [] f = tt
  All-from P (x ∷ xs) f = (f x (head refl), All-from P xs (λ a m. f a (tail m)))

  pub All-weaken {μ} :
      (P : A → Type κ) (Q : A → Type μ) (xs : List A) → ((a : A) → P a → Q a) → All P xs → All Q xs
  All-weaken P Q [] f ps = tt
  All-weaken P Q (x ∷ xs) f (p, ps) = (f x p, All-weaken P Q xs f ps)

-- What holds of each member still does beside its membership.
pub All-listed {ℓ κ} :
    {A : Type ℓ} (P : A → Type κ) (xs : List A) → All P xs → All (λ a. P a × Memᴰ a xs) xs
All-listed P xs ps = All-from _ xs (λ a m. (All-at P xs a ps m, m))

pub All-map {ℓ μ κ} :
    {A : Type ℓ} {B : Type μ} (P : B → Type κ) (f : A → B) (xs : List A)
    → All (λ a. P (f a)) xs
    → All P (map f xs)
All-map P f [] ps = tt
All-map P f (x ∷ xs) (p, ps) = (p, All-map P f xs ps)

module _ {ℓ} {A : Type ℓ} (p : A → Bool) where
  -- The members that pass a test still have what all had.
  pub All-select {κ} :
      (P : A → Type κ) (xs : List A) → All P xs → All (λ x. P x × (p x ≡ true)) (select p xs)
  All-select P [] ps = tt
  All-select P (x ∷ xs) (h, ps) = elim (Bool-cases (p x)) [
    | inl e ↦ rw e ((h, e), All-select P xs ps)
    | inr e ↦ rw e (All-select P xs ps)
  ]

  pub all-true : (xs : List A) → All (λ x. p x ≡ true) xs → all p xs ≡ true
  all-true [] ps = refl
  all-true (x ∷ xs) (h, ps) = ground (arith, h, all-true xs ps)

  pub all-at : (xs : List A) (a : A) → all p xs ≡ true → Memᴰ a xs → p a ≡ true
  all-at xs a h m =
      elim m as (λ xs m. all p xs ≡ true → p a ≡ true) [
        | head {x} {xs} e ↦
            λ h. let k : p x ≡ true = ground (arith, h) in subst (λ y. p y ≡ true) (sym e) k
        | tail {x} {xs} (m → ih) ↦ λ h. ih (ground (arith, h))
      ]
        h

  pub Mem-select : (a : A) (xs : List A) → Memᴰ a xs → p a ≡ true → Memᴰ a (select p xs)
  Mem-select a xs m h = elim m as (λ xs m. Memᴰ a (select p xs)) [
    | head {x} {xs} e ↦ let k : p x ≡ true = subst (λ x. p x ≡ true) e h in rw k (head e)
    | tail {x} {xs} (m → ih) ↦ elim (Bool-cases (p x)) [ inl e ↦ rw e (tail ih) | inr e ↦ rw e ih ]
  ]
