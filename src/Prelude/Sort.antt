-- ===== src/Prelude/Sort.antt =====
-- Python's `sorted` with a strict order on the keys: a stable insertion sort.
use modelark.Prelude.{
  Bool, List, [], ◌∷◌, String, text_lt, if◌then◌else◌, All, arith, ◌≡◌, refl, ◌||◌, ◌==◌, contains,
  eq_iff, ap, map, ◌∙◌, Bool-cases, inl, inr, length, suc, false,
}

module _ {ℓ} {A : Type ℓ} (lt : A → A → Bool) where
  unfoldable pub insert : A → List A → List A
  insert a [] = a ∷ []
  insert a (x ∷ xs) = let rest = insert a xs in if lt x a then x ∷ rest else a ∷ x ∷ xs

  unfoldable pub sort : List A → List A
  unfolding insert
  sort [] = []
  sort (x ∷ xs) = insert x (sort xs)

module _ {ℓ} {A : Type ℓ} (lt : A → A → Bool) where
  All-insert {κ} : (P : A → Type κ) (a : A) (xs : List A) → P a → All P xs → All P (insert lt a xs)
  unfolding insert
  All-insert P a [] p ps = (p, tt)
  All-insert P a (x ∷ xs) p (q, qs) = elim (Bool-cases (lt x a)) [
    | inl e ↦ rw e (q, All-insert P a xs p qs)
    | inr e ↦ rw e (p, (q, qs))
  ]

  pub All-sort {κ} : (P : A → Type κ) (xs : List A) → All P xs → All P (sort lt xs)
  unfolding sort
  All-sort P [] ps = tt
  All-sort P (x ∷ xs) (p, ps) = All-insert P x (sort lt xs) p (All-sort P xs ps)

  length-insert : (a : A) (xs : List A) → length (insert lt a xs) ≡ suc (length xs)
  unfolding insert
  length-insert a [] = refl
  length-insert a (x ∷ xs) = ground (arith, length-insert a xs)

  pub length-sort : (xs : List A) → length (sort lt xs) ≡ length xs
  unfolding sort
  length-sort [] = refl
  length-sort (x ∷ xs) = omega (arith, length-insert x (sort lt xs), length-sort xs)

-- sorted(labels)
unfoldable pub sort_texts : List String → List String
sort_texts = sort text_lt

contains-insert :
    (j x : String) (xs : List String)
    → contains (insert text_lt x xs) j ≡ ((x == j) || contains xs j)
unfolding insert
contains-insert j x [] = refl
contains-insert j x (y ∷ ys) = ground (arith, contains-insert j x ys)

pub contains-sort : (j : String) (xs : List String) → contains (sort_texts xs) j ≡ contains xs j
unfolding sort_texts sort
contains-sort j [] = refl
contains-sort j (x ∷ xs) =
    contains-insert j x (sort_texts xs) ∙ ap (λ b. (x == j) || b) (contains-sort j xs)

-- No text twice.
abbrev pub Distinct : List String → Type 0
Distinct [] = Unit
Distinct (x ∷ xs) = (contains xs x ≡ false) × Distinct xs

Distinct-insert :
    (x : String) (xs : List String)
    → contains xs x ≡ false
    → Distinct xs
    → Distinct (insert text_lt x xs)
unfolding insert
Distinct-insert x [] h d = (h, tt)
Distinct-insert x (y ∷ ys) h (e, d) =
    ground (arith, contains-insert y x ys, Distinct-insert x ys, eq_iff x y, eq_iff y x)

pub Distinct-sort : (xs : List String) → Distinct xs → Distinct (sort_texts xs)
unfolding sort_texts sort
Distinct-sort [] d = tt
Distinct-sort (x ∷ xs) (h, d) =
    Distinct-insert x (sort_texts xs) (contains-sort x xs ∙ h) (Distinct-sort xs d)

module _ {ℓ} {A : Type ℓ} (lt : A → A → Bool) (f : A → String) where
  contains-map-insert :
      (k : String) (a : A) (xs : List A)
      → contains (map f (insert lt a xs)) k ≡ ((f a == k) || contains (map f xs) k)
  unfolding insert
  contains-map-insert k a [] = refl
  contains-map-insert k a (x ∷ xs) = elim (Bool-cases (lt x a)) [
    | inl e ↦ rw e (ground (arith, contains-map-insert k a xs))
    | inr e ↦ rw e refl
  ]

  -- Sorting changes nothing of what the members are mapped to.
  pub contains-map-sort :
      (k : String) (xs : List A) → contains (map f (sort lt xs)) k ≡ contains (map f xs) k
  unfolding sort
  contains-map-sort k [] = refl
  contains-map-sort k (x ∷ xs) =
      contains-map-insert k x (sort lt xs) ∙ ap (λ b. (f x == k) || b) (contains-map-sort k xs)

  Distinct-map-insert :
      (a : A) (xs : List A)
      → contains (map f xs) (f a) ≡ false
      → Distinct (map f xs)
      → Distinct (map f (insert lt a xs))
  unfolding insert
  Distinct-map-insert a [] h d = (h, tt)
  Distinct-map-insert a (x ∷ xs) h (e, d) = elim (Bool-cases (lt x a)) [
    | inl g ↦ rw g (
      ground (arith, contains-map-insert (f x) a xs, eq_iff (f x) (f a), eq_iff (f a) (f x)),
      Distinct-map-insert a xs (ground arith) d,
    )
    | inr g ↦ rw g (h, (e, d))
  ]

  pub Distinct-map-sort : (xs : List A) → Distinct (map f xs) → Distinct (map f (sort lt xs))
  unfolding sort
  Distinct-map-sort [] d = tt
  Distinct-map-sort (x ∷ xs) (h, d) =
      Distinct-map-insert x (sort lt xs) (contains-map-sort (f x) xs ∙ h) (Distinct-map-sort xs d)
