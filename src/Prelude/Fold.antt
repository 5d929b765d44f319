-- ===== src/Prelude/Fold.antt =====
-- Sums and maxima over a list alike: folds with an operation whose arguments may be exchanged.
use modelark.Prelude.{
  ℕ, ◌+◌, max, ◌≡◌, refl, ◌∙◌, ap, ap₂, Bool, List, [], ◌∷◌, ◌++◌, arith, if◌then◌else◌, sum_by,
  max_by, select, map, String, text_lt, All, Bool-cases, inl, inr,
}
use modelark.Prelude.Sort.{sort, sort_texts, insert}

unfoldable pub fold_by {ℓ} : {A : Type ℓ} → (ℕ → ℕ → ℕ) → (A → ℕ) → List A → ℕ
fold_by op f [] = 0
fold_by op f (x ∷ xs) = op (f x) (fold_by op f xs)

module _ {ℓ} {A : Type ℓ} where
  -- A sum over the members that pass a test, as a sum of weights.
  pub sum_by-select :
      (f : A → ℕ) (p : A → Bool) (xs : List A)
      → sum_by f (select p xs) ≡ fold_by ◌+◌ (λ x. if p x then f x else 0) xs
  unfolding fold_by
  sum_by-select f p [] = refl
  sum_by-select f p (x ∷ xs) = ground (arith, sum_by-select f p xs)

  pub max_by-select :
      (f : A → ℕ) (p : A → Bool) (xs : List A)
      → max_by f (select p xs) ≡ fold_by max (λ x. if p x then f x else 0) xs
  unfolding fold_by
  max_by-select f p [] = refl
  max_by-select f p (x ∷ xs) = ground (arith, max_by-select f p xs)

-- Exchange of arguments, associativity, and 0 as a unit.
pub record IsFold (op : ℕ → ℕ → ℕ) : Type 0 where
  pub exchange : (a b c : ℕ) → op a (op b c) ≡ op b (op a c)
  pub assoc : (a b c : ℕ) → op (op a b) c ≡ op a (op b c)
  pub unit : (a : ℕ) → op 0 a ≡ a
  pub unit_right : (a : ℕ) → op a 0 ≡ a

pub sum-IsFold : IsFold ◌+◌
sum-IsFold = record {
  exchange = λ a b c. omega arith;
  assoc = λ a b c. omega arith;
  unit = λ a. omega arith;
  unit_right = λ a. omega arith;
}

pub max-IsFold : IsFold max
max-IsFold = record {
  exchange = λ a b c. omega arith;
  assoc = λ a b c. omega arith;
  unit = λ a. omega arith;
  unit_right = λ a. omega arith;
}

module _ {op : ℕ → ℕ → ℕ} (laws : IsFold op) where
  fold_by-insert {ℓ} :
      {A : Type ℓ} (lt : A → A → Bool) (f : A → ℕ) (a : A) (xs : List A)
      → fold_by op f (insert lt a xs) ≡ op (f a) (fold_by op f xs)
  unfolding fold_by insert
  fold_by-insert lt f a [] = refl
  fold_by-insert lt f a (x ∷ xs) = elim (Bool-cases (lt x a)) [
    | inl e ↦ rw e (ap (op (f x)) (fold_by-insert lt f a xs) ∙ laws.exchange (f x) (f a) _)
    | inr e ↦ rw e refl
  ]

  -- Sorting changes no fold.
  pub fold_by-sort {ℓ} :
      {A : Type ℓ} (lt : A → A → Bool) (f : A → ℕ) (xs : List A)
      → fold_by op f (sort lt xs) ≡ fold_by op f xs
  unfolding fold_by sort
  fold_by-sort lt f [] = refl
  fold_by-sort lt f (x ∷ xs) =
      fold_by-insert lt f x (sort lt xs) ∙ ap (op (f x)) (fold_by-sort lt f xs)

  pub fold_by-sort_texts :
      (f : String → ℕ) (xs : List String) → fold_by op f (sort_texts xs) ≡ fold_by op f xs
  unfolding sort_texts
  fold_by-sort_texts f xs = fold_by-sort text_lt f xs

  pub fold_by_snoc {ℓ} :
      {A : Type ℓ} (f : A → ℕ) (xs : List A) (a : A)
      → fold_by op f (xs ++ a ∷ []) ≡ op (f a) (fold_by op f xs)
  unfolding fold_by
  fold_by_snoc f [] a = refl
  fold_by_snoc f (x ∷ xs) a = ap (op (f x)) (fold_by_snoc f xs a) ∙ laws.exchange (f x) (f a) _

pub fold_by_cong {ℓ} :
    {A : Type ℓ} (op : ℕ → ℕ → ℕ) (f g : A → ℕ) (xs : List A)
    → All (λ x. f x ≡ g x) xs
    → fold_by op f xs ≡ fold_by op g xs
unfolding fold_by
fold_by_cong op f g [] h = refl
fold_by_cong op f g (x ∷ xs) (e, h) = ap₂ op e (fold_by_cong op f g xs h)

module _ {ℓ κ} {A : Type ℓ} {B : Type κ} (g : A → B) where
  pub sum_by-map : (f : B → ℕ) (xs : List A) → sum_by f (map g xs) ≡ sum_by (λ x. f (g x)) xs
  sum_by-map f [] = refl
  sum_by-map f (x ∷ xs) = ap (◌+◌ (f (g x))) (sum_by-map f xs)

  pub max_by-map : (f : B → ℕ) (xs : List A) → max_by f (map g xs) ≡ max_by (λ x. f (g x)) xs
  max_by-map f [] = refl
  max_by-map f (x ∷ xs) = ap (max (f (g x))) (max_by-map f xs)

  pub fold_by-map :
      (op : ℕ → ℕ → ℕ) (f : B → ℕ) (xs : List A)
      → fold_by op f (map g xs) ≡ fold_by op (λ x. f (g x)) xs
  unfolding fold_by
  fold_by-map op f [] = refl
  fold_by-map op f (x ∷ xs) = ap (op (f (g x))) (fold_by-map op f xs)
