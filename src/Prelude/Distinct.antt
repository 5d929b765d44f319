-- ===== src/Prelude/Distinct.antt =====
-- Python's `set` of texts, as a list without repetition.
use modelark.Prelude.{
  String, ◌≡◌, ◌∙◌, refl, ap, true, false, List, [], ◌∷◌, contains, arith, Bool-cases, inl, inr,
  if◌then◌else◌, ◌==◌, ◌||◌, eq_iff, sym, subst,
}
use modelark.Prelude.Sort.{Distinct}

-- set(xs), in some order
unfoldable pub distinct : List String → List String
distinct [] = []
distinct (x ∷ xs) = let rest = distinct xs in if contains xs x then rest else x ∷ rest

pub contains-distinct : (xs : List String) (k : String) → contains (distinct xs) k ≡ contains xs k
unfolding distinct
contains-distinct [] k = refl
contains-distinct (x ∷ xs) k = elim (Bool-cases (contains xs x)) [
  | inl e ↦ rw e (ground (arith, contains-distinct xs k, eq_iff x k))
  | inr e ↦ rw e (ap (λ b. (x == k) || b) (contains-distinct xs k))
]

pub Distinct-distinct : (xs : List String) → Distinct (distinct xs)
unfolding distinct
Distinct-distinct [] = tt
Distinct-distinct (x ∷ xs) = elim (Bool-cases (contains xs x)) [
  | inl e ↦ rw e (Distinct-distinct xs)
  | inr e ↦ rw e (contains-distinct xs x ∙ e, Distinct-distinct xs)
]

-- the only member of a set is every member of the list
pub distinct_one :
    (xs : List String) (d k : String) → distinct xs ≡ d ∷ [] → contains xs k ≡ true → d ≡ k
distinct_one xs d k e h =
    let g : contains (d ∷ []) k ≡ true =
      subst (λ ys. contains ys k ≡ true) e (contains-distinct xs k ∙ h) in
    ground (arith, eq_iff d k)

pub distinct_none :
    (xs : List String) (k : String) → distinct xs ≡ [] → contains xs k ≡ true → true ≡ false
distinct_none xs k e h =
    let g : contains [] k ≡ true =
      subst (λ ys. contains ys k ≡ true) e (contains-distinct xs k ∙ h) in
    cc

-- the first two members of a set are members of the list, and differ
pub distinct_two :
    (xs : List String) (d e : String) (ds : List String)
    → distinct xs ≡ d ∷ e ∷ ds
    → (contains xs d ≡ true) × (contains xs e ≡ true) × ((d == e) ≡ false)
distinct_two xs d e ds h =
    let apart : Distinct (d ∷ e ∷ ds) = subst Distinct h (Distinct-distinct xs) in
    let in_first : contains (distinct xs) d ≡ true = rw h (ground (arith, eq_iff d d)) in
    let in_second : contains (distinct xs) e ≡ true = rw h (ground (arith, eq_iff e e)) in
    (
      sym (contains-distinct xs d) ∙ in_first,
      sym (contains-distinct xs e) ∙ in_second,
      ground (arith, eq_iff d e, eq_iff e d, apart.0),
    )
