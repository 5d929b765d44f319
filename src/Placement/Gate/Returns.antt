-- ===== src/Placement/Gate/Returns.antt =====
-- The fuel and the exceptions of gate_b of modelark/placement.py.
use modelark.Prelude.{
  ℕ, ◌≡◌, refl, Option, none, some, true, false, not, ◌&&◌, is_some, inl, inr, Bool-cases,
}
use modelark.Placement.{SolverInput}
use modelark.Placement.Partial.{KeyPart}
use modelark.Placement.Order.{is_comparable}
use modelark.Placement.Assignment.{SearchResult, found, bound_exhausted, infeasible}
use modelark.Placement.Assignment.Total.{search_returns}
use modelark.Placement.Structural.{GateCode, structural, is_empty}
use modelark.Placement.Structural.Total.{structural_total}
use modelark.Placement.Gate.{
  GateResult, free_map, gate_b, after_known, known_infeasible, after_optimistic, raise_unknown,
  relevant_unknowns, targets_with_unknown_max, never,
}

module _ (part_hash : KeyPart → ℕ) (inp : SolverInput) (c : is_comparable inp ≡ true) where
  -- The model has a result, which is no exception.
  abbrev Returned : Option (Option GateResult) → Type 0
  Returned o = (g : GateResult) × (o ≡ some (some g))

  known_infeasible-Returned : (v : ℕ) → Returned (known_infeasible part_hash inp v)
  unfolding known_infeasible
  known_infeasible-Returned v =
      elim (Bool-cases
        (is_empty (relevant_unknowns inp) && is_empty (targets_with_unknown_max inp))) [
          | inl e ↦ rw (e, known_infeasible) (_, refl)
          | inr e ↦ elim (Bool-cases (not (is_empty (targets_with_unknown_max inp)))) [
            | inl f ↦ rw (e, f, known_infeasible) (_, refl)
            | inr f ↦
                let (r, g) =
                  search_returns inp (raise_unknown inp (free_map inp) (relevant_unknowns inp))
                    part_hash inp.bounds.feasibility_state_limit false (never part_hash) (λ n. refl)
                    c in
                rw (e, f, g, known_infeasible) (after_optimistic part_hash inp v r, refl)
          ]
        ]

  after_known-Returned : (r : SearchResult) → Returned (after_known part_hash inp r)
  unfolding after_known
  after_known-Returned r =
      elim r.kind as (λ k. r.kind ≡ k → Returned (after_known part_hash inp r)) [
        | found ↦ λ e. rw (e, after_known) (_, refl)
        | bound_exhausted ↦ λ e. rw (e, after_known) (_, refl)
        | infeasible ↦ λ e. rw (e, after_known) (known_infeasible-Returned r.visited)
      ]
        refl

  by_structural :
      (o : Option (Option GateCode))
      → structural inp ≡ o
      → is_some o ≡ true
      → Returned (gate_b part_hash inp)
  unfolding gate_b
  by_structural none e t = cc
  by_structural (some (some code)) e t = rw (e, gate_b) (_, refl)
  by_structural (some none) e t =
      let (r, g) =
        search_returns inp (free_map inp) part_hash inp.bounds.feasibility_state_limit false
          (never part_hash) (λ n. refl) c in
      rw (e, g, gate_b) (after_known-Returned r)

  pub gate_b_returns : (g : GateResult) × (gate_b part_hash inp ≡ some (some g))
  gate_b_returns = by_structural _ refl (structural_total inp)
