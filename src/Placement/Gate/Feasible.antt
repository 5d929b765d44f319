-- ===== src/Placement/Gate/Feasible.antt =====
-- The answers of gate_b of modelark/placement.py, their codes and assignments.
use modelark.Prelude.{
  ℕ, ◌≡◌, refl, sym, ◌∙◌, ap, subst, String, Option, none, some, Bool, true, false, not, ◌&&◌, List,
  [], ◌∷◌, arith, is_some, inl, inr, Bool-cases, ◌==◌,
}
use modelark.Prelude.Dict.{Dict, get, count_at, count_at-put}
use modelark.Placement.{SolverInput, CanonicalAssignment, DriveEvidenceFact, as_map}
use modelark.Placement.Partial.{KeyPart}
use modelark.Placement.Search.Invariant.{IdsMatch}
use modelark.Placement.Assignment.{SearchResult, found, bound_exhausted, infeasible}
use modelark.Placement.Assignment.Solution.{
  Solves, SomeSolves, some-Solves, Solution, search-Solution,
}
use modelark.Placement.Structural.{GateCode, feasible, structural, is_empty}
use modelark.Placement.Structural.Refuses.{structural-Refuses}
use modelark.Placement.Gate.{
  GateResult, free_map, zero_unproven, gate_b, search_b, after_known, known_infeasible,
  after_optimistic, refused, relevant_unknowns, targets_with_unknown_max, bind_result, map_result,
}

unproven_zero :
    (evs : List (String × DriveEvidenceFact)) (free : Dict ℕ) (lab : String)
    → count_at lab free ≡ 0
    → count_at lab (zero_unproven free evs) ≡ 0
unfolding zero_unproven
unproven_zero [] free lab h = h
unproven_zero ((l, ev) ∷ evs) free lab h =
    unproven_zero evs _ lab (elim (Bool-cases ev.executable) [
      | inl e ↦ rw e h
      | inr e ↦ rw e (ground (arith, count_at-put l lab 0 free))
    ])

zero_unproven-at :
    (evs : List (String × DriveEvidenceFact)) (free : Dict ℕ) (lab : String) (d : DriveEvidenceFact)
    → get lab evs ≡ some d
    → d.executable ≡ false
    → count_at lab (zero_unproven free evs) ≡ 0
unfolding zero_unproven get
zero_unproven-at [] free lab d h k = cc
zero_unproven-at ((l, ev) ∷ evs) free lab d h k = elim (Bool-cases (l == lab)) [
  | inl e ↦ unproven_zero evs _ lab (ground (arith, count_at-put l lab 0 free))
  | inr e ↦ zero_unproven-at evs _ lab d (ground arith) k
]

-- A drive whose evidence is not executable has no room in the budgets of the search.
pub free_map_unproven :
    (inp : SolverInput) (lab : String) (d : DriveEvidenceFact)
    → get lab (as_map inp.drive_evidence) ≡ some d
    → d.executable ≡ false
    → count_at lab (free_map inp) ≡ 0
unfolding free_map
free_map_unproven inp lab d h k = zero_unproven-at (as_map inp.drive_evidence) _ lab d h k

-- An answer has an assignment when its code is `feasible`, and that assignment is a solution.
pub record Verdict (inp : SolverInput) (g : GateResult) : Type 0 where
  pub feasible_some : g.code ≡ feasible → is_some g.assignment ≡ true
  pub solves :
      (a : CanonicalAssignment)
      → g.assignment ≡ some a
      → (g.code ≡ feasible) × Solves inp (free_map inp) a

abbrev pub is_feasible : GateCode → Bool
is_feasible feasible = true
is_feasible _ = false

is_feasible-eq : (c : GateCode) → is_feasible c ≡ true → c ≡ feasible
is_feasible-eq c h = ground arith

same_answer :
    (c : GateCode) (o : Option CanonicalAssignment)
    → (c ≡ feasible → is_some o ≡ true)
    → ((a : CanonicalAssignment) → o ≡ some a → c ≡ feasible)
    → is_some o ≡ is_feasible c
same_answer c (some a) f g = sym (ap is_feasible (g a refl))
same_answer c none f g = elim (Bool-cases (is_feasible c)) [
  | inl e ↦ f (is_feasible-eq c e) ∙ sym e
  | inr e ↦ sym e
]

module _ (part_hash : KeyPart → ℕ) (inp : SolverInput) where
  abbrev Answer : Option (Option GateResult) → Type 0
  Answer o = (g : GateResult) → o ≡ some (some g) → Verdict inp g

  -- an answer without an assignment
  refused-Verdict :
      (c : GateCode) (v : ℕ) (labs : List String)
      → (c ≡ feasible → ⊥)
      → Verdict inp (refused part_hash c v labs)
  unfolding refused
  refused-Verdict c v labs f = record { feasible_some = λ h. elim (f h) [ ]; solves = λ a h. cc }

  answer : (g : GateResult) → Verdict inp g → Answer (some (some g))
  answer g v k h = let e : g ≡ k = cc in subst (Verdict inp) e v

  after_optimistic-Verdict :
      (v : ℕ) (r : SearchResult) → Verdict inp (after_optimistic part_hash inp v r)
  unfolding after_optimistic
  after_optimistic-Verdict v r =
      elim r.kind as (λ k. r.kind ≡ k → Verdict inp (after_optimistic part_hash inp v r)) [
        | found ↦ λ e. rw (e, after_optimistic) (refused-Verdict _ _ _ (λ h. cc))
        | bound_exhausted ↦ λ e. rw (e, after_optimistic) (refused-Verdict _ _ _ (λ h. cc))
        | infeasible ↦ λ e. rw (e, after_optimistic) (refused-Verdict _ _ _ (λ h. cc))
      ]
        refl

  mapped :
      (v : ℕ) (o : Option (Option SearchResult))
      → Answer (map_result (after_optimistic part_hash inp v) o)
  mapped v none g h = cc
  mapped v (some none) g h = cc
  mapped v (some (some r)) g h = answer _ (after_optimistic-Verdict v r) g h

  known_infeasible-Answer : (v : ℕ) → Answer (known_infeasible part_hash inp v)
  unfolding known_infeasible
  known_infeasible-Answer v =
      elim (Bool-cases
        (is_empty (relevant_unknowns inp) && is_empty (targets_with_unknown_max inp))) [
          | inl e ↦ rw (e, known_infeasible) (answer _ (refused-Verdict _ _ _ (λ h. cc)))
          | inr e ↦ elim (Bool-cases (not (is_empty (targets_with_unknown_max inp)))) [
            | inl f ↦ rw (e, f, known_infeasible) (answer _ (refused-Verdict _ _ _ (λ h. cc)))
            | inr f ↦ rw (e, f, known_infeasible) (mapped v _)
          ]
        ]

  after_known-Answer :
      (r : SearchResult) → Solution inp (free_map inp) r → Answer (after_known part_hash inp r)
  unfolding after_known
  after_known-Answer r s =
      elim r.kind as (λ k. r.kind ≡ k → Answer (after_known part_hash inp r)) [
        | found ↦ λ e.
            rw (e, after_known)
              (answer _ (record {
                feasible_some = λ h. s.found_first e;
                solves = λ a h. (refl, s.first a h);
              }))
        | bound_exhausted ↦ λ e. rw (e, after_known) (answer _ (refused-Verdict _ _ _ (λ h. cc)))
        | infeasible ↦ λ e. rw (e, after_known) (known_infeasible-Answer r.visited)
      ]
        refl

  searched :
      IdsMatch inp
      → (o : Option (Option SearchResult)) → search_b part_hash inp (free_map inp) ≡ o
      → Answer (bind_result (after_known part_hash inp) o)
  searched ids none e g h = cc
  searched ids (some none) e g h = cc
  searched ids (some (some r)) e g h =
      after_known-Answer r (search-Solution inp (free_map inp) part_hash ids _ _ _ r e) g h

  by_structural :
      IdsMatch inp
      → (o : Option (Option GateCode)) → structural inp ≡ o
      → Answer (gate_b part_hash inp)
  unfolding gate_b
  by_structural ids none e = rw (e, gate_b) (λ g h. cc)
  by_structural ids (some none) e = rw (e, gate_b) (searched ids _ refl)
  by_structural ids (some (some c)) e =
      rw (e, gate_b)
        (answer _
          (refused-Verdict c 0 [] (λ h. structural-Refuses inp (e ∙ ap (λ k. some (some k)) h))))

  gate_b-Verdict :
      (g : GateResult) → IdsMatch inp → gate_b part_hash inp ≡ some (some g) → Verdict inp g
  gate_b-Verdict g ids h = by_structural ids _ refl g h

  -- Where each candidate carries the id it is listed under, an answer of gate_b has an assignment if
  -- its code is FEASIBLE and none otherwise; and the assignment has a task for every requirement that
  -- is neither satisfied nor blocked, makes each task from a candidate that is listed under its
  -- requirement, and stays on every drive within the executable budget.
  pub gate_b_sound :
      (g : GateResult)
      → IdsMatch inp
      → gate_b part_hash inp ≡ some (some g)
      → (is_some g.assignment ≡ is_feasible g.code) × SomeSolves inp (free_map inp) g.assignment
  gate_b_sound g ids h =
      let v = gate_b-Verdict g ids h in
      (
        same_answer g.code g.assignment v.feasible_some (λ a e. (v.solves a e).0),
        some-Solves inp (free_map inp) g.assignment (λ a e. (v.solves a e).1),
      )
