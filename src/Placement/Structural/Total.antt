-- ===== src/Placement/Structural/Total.antt =====
-- The fuel of the search for dependency cycles in _structural of modelark/placement.py.
use modelark.Prelude.{
  ℕ, suc, zero, ◌+◌, ◌≤◌, ◌≡◌, refl, ap, String, Option, none, some, Bool, true, false, ◌||◌, List,
  [], ◌∷◌, ◌==◌, contains, map, All, arith, length, is_some, Bool-cases, Option-cases, inl, inr,
}
use modelark.Prelude.Sort.{Distinct}
use modelark.Prelude.Pigeonhole.{length-Distinct-le}
use modelark.Candidates.{CopyRequirement}
use modelark.Placement.{SolverInput, req_of, last_by}
use modelark.Placement.Structural.{
  GateCode, visit, after_visit, waits_for, cycle_check, after_cycles, structural, req_ids,
  visit_fuel, or_else, blocked_check, reference_check, sorted_reqs,
}

length-map {ℓ κ} :
    {A : Type ℓ} {B : Type κ} (f : A → B) (xs : List A) → length (map f xs) ≡ length xs
length-map f [] = refl
length-map f (x ∷ xs) = ap suc (length-map f xs)

last_by-known {ℓ} :
    {A : Type ℓ} (key : A → String) (k : String) (xs : List A) (o : Option A)
    → is_some (last_by key k xs o) ≡ true
    → (is_some o || contains (map key xs) k) ≡ true
unfolding last_by
last_by-known key k [] o h = ground (arith)
last_by-known key k (x ∷ xs) o h = elim (Bool-cases (key x == k)) [
  | inl e ↦ ground (arith, last_by-known key k xs (some x))
  | inr e ↦ ground (arith, last_by-known key k xs o)
]

module _ (inp : SolverInput) where
  waits_for-known :
      (rid d : String) → waits_for inp rid ≡ some d → contains (req_ids inp) rid ≡ true
  unfolding waits_for req_of
  waits_for-known rid d h = elim (Option-cases (req_of inp.desired rid)) [
    | inl e ↦ cc
    | inr (r, e) ↦ last_by-known _ rid inp.desired none (ap is_some e)
  ]

  abbrev Known : List String → Type 0
  Known = All (λ z. contains (req_ids inp) z ≡ true)

  visit_total :
      (fuel : ℕ) (visiting seen : List String) (rid : String)
      → Distinct visiting
      → Known visiting
      → length inp.desired + 2 ≤ fuel + length visiting
      → is_some (visit inp fuel visiting seen rid) ≡ true
  unfolding visit
  visit_total zero visiting seen rid d k h = ground (
    arith,
    length-Distinct-le visiting (req_ids inp) d k,
    length-map (λ r. r.requirement_id) inp.desired,
  )
  visit_total (suc fuel) visiting seen rid d k h = elim (Bool-cases (contains seen rid)) [
    | inl e ↦ rw e refl
    | inr e ↦ elim (Bool-cases (contains visiting rid)) [
      | inl f ↦ rw (e, f) refl
      | inr f ↦ elim (Option-cases (waits_for inp rid)) [
        | inl g ↦ rw (e, f, g) refl
        | inr (w, g) ↦
            rw (e, f, g)
              (after_visit_total rid _ (
                visit_total fuel (rid ∷ visiting) seen w (f, d) (waits_for-known rid w g, k)
                  (omega arith)))
      ]
    ]
  ]
    where
      after_visit_total :
          (r : String) (o : Option (Bool × List String))
          → is_some o ≡ true
          → is_some (after_visit r o) ≡ true
      after_visit_total r none h = cc
      after_visit_total r (some (true, s)) h = refl
      after_visit_total r (some (false, s)) h = refl

  cycle_check_total :
      (seen : List String) (rs : List CopyRequirement) → is_some (cycle_check inp seen rs) ≡ true
  unfolding cycle_check
  cycle_check_total seen [] = refl
  cycle_check_total seen (r ∷ rs) = by_visit (λ s. cycle_check_total s rs) _ refl
    where
      by_visit :
          ((s : List String) → is_some (cycle_check inp s rs) ≡ true)
          → (o : Option (Bool × List String))
          → visit inp (visit_fuel inp) [] seen r.requirement_id ≡ o
          → is_some (cycle_check inp seen (r ∷ rs)) ≡ true
      by_visit rest none e =
          let t = visit_total (visit_fuel inp) [] seen r.requirement_id tt tt (omega arith) in cc
      by_visit rest (some (true, s)) e = rw (e, cycle_check) refl
      by_visit rest (some (false, s)) e = rw (e, cycle_check) (rest s)

  after_cycles_total :
      (o : Option (Option GateCode)) → is_some o ≡ true → is_some (after_cycles inp o) ≡ true
  unfolding after_cycles
  after_cycles_total none h = cc
  after_cycles_total (some none) h = refl
  after_cycles_total (some (some c)) h = refl

  -- The structural checks of every graph end.
  pub structural_total : is_some (structural inp) ≡ true
  unfolding structural
  structural_total =
      elim (Option-cases
        (or_else (blocked_check inp (sorted_reqs inp)) (reference_check inp (sorted_reqs inp)))) [
          | inl e ↦
              rw (e, structural) (after_cycles_total _ (cycle_check_total [] (sorted_reqs inp)))
          | inr (c, e) ↦ rw (e, structural) refl
        ]
