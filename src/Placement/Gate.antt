-- ===== src/Placement/Gate.antt =====
-- modelark/placement.py: the ladder of gate_b, and improve. Diagnostics, messages and the
-- actions offered to the operator are not modelled.
pub mod Feasible
pub mod Returns
pub mod Improve
use modelark.Prelude.{
  ℕ, ◌+◌, String, Option, none, some, Bool, true, false, not, List, [], ◌∷◌, is_some, is_none,
  if◌then◌else◌, get_or, select, map, ◌++◌, ◌&&◌,
}
use modelark.Prelude.Dict.{Dict, get, put, keys}
use modelark.Prelude.Sort.{sort_texts}
use modelark.Candidates.{Candidate}
use modelark.Placement.{
  SolverInput, CanonicalAssignment, DriveEvidenceFact, as_map, cands_of, unsatisfied,
}
use modelark.Placement.Partial.{KeyPart, empty_partial}
use modelark.Placement.Structural.{
  GateCode, feasible, packing_inconclusive, infeasible_under_admission_budget,
  capacity_evidence_unknown, infeasible_with_unknown_at_usable_max, usable_max, is_empty,
  structural,
}
use modelark.Placement.Order.{Score}
use modelark.Placement.Scored.{score_assignment}
use modelark.Placement.Search.{distinct}
use modelark.Placement.Assignment.{
  SearchKind, SearchResult, found, bound_exhausted, infeasible, search,
}

pub record GateResult : Type 0 where
  pub code : GateCode
  pub assignment : Option CanonicalAssignment
  pub feasibility_states_visited : ℕ
  pub relevant_unknown_drives : List String

-- for lab, ev in evidence.items(): if not ev.executable: free_map[lab] = 0
unfoldable pub zero_unproven : Dict ℕ → Dict DriveEvidenceFact → Dict ℕ
zero_unproven free [] = free
zero_unproven free ((lab, ev) ∷ rest) =
    zero_unproven (if ev.executable then free else put lab 0 free) rest

unfoldable pub free_map : SolverInput → Dict ℕ
unfolding zero_unproven
free_map inp = zero_unproven (as_map inp.executable_budget) (as_map inp.drive_evidence)

targets : SolverInput → List String → List String
targets inp [] = []
targets inp (rid ∷ rids) = map (λ c. c.target_drive) (cands_of inp rid) ++ targets inp rids

-- _unsat_candidate_targets
unfoldable pub unsat_candidate_targets : SolverInput → List String
unfolding targets distinct
unsat_candidate_targets inp = sort_texts (distinct (targets inp (unsatisfied inp)))

abbrev is_unknown : Option DriveEvidenceFact → Bool
is_unknown none = false
is_unknown (some ev) = not ev.executable

-- _relevant_unknowns
unfoldable pub relevant_unknowns : SolverInput → List String
relevant_unknowns inp =
    select (λ lab. is_unknown (get lab (as_map inp.drive_evidence))) (unsat_candidate_targets inp)

-- _targets_with_unknown_max
unfoldable pub targets_with_unknown_max : SolverInput → List String
targets_with_unknown_max inp =
    select (λ lab. is_none (usable_max inp lab)) (unsat_candidate_targets inp)

-- for lab in relevant: if maxima has it, opt_free[lab] = it
pub raise_unknown : SolverInput → Dict ℕ → List String → Dict ℕ
raise_unknown inp free [] = free
raise_unknown inp free (lab ∷ labs) =
    raise_unknown inp (elim (usable_max inp lab) [ none ↦ free | some m ↦ put lab m free ]) labs

abbrev pub bind_result {ℓ κ} :
    {A : Type ℓ} {B : Type κ} → (A → Option (Option B)) → Option (Option A) → Option (Option B)
bind_result f none = none
bind_result f (some none) = some none
bind_result f (some (some a)) = f a

abbrev pub map_result {ℓ κ} :
    {A : Type ℓ} {B : Type κ} → (A → B) → Option (Option A) → Option (Option B)
map_result f none = none
map_result f (some none) = some none
map_result f (some (some a)) = some (some (f a))

module _ (part_hash : KeyPart → ℕ) where
  abbrev pub never : ℕ → Bool
  never _ = false

  abbrev pub search_b : SolverInput → Dict ℕ → Option (Option SearchResult)
  search_b inp free = search inp free part_hash inp.bounds.feasibility_state_limit false never

  pub refused : GateCode → ℕ → List String → GateResult
  refused c visited relevant = record {
    code = c;
    assignment = none;
    feasibility_states_visited = visited;
    relevant_unknown_drives = relevant;
  }

  -- after the optimistic search, which follows `visited` states of the known one
  pub after_optimistic : SolverInput → ℕ → SearchResult → GateResult
  unfolding refused
  after_optimistic inp visited r = elim r.kind [
    | found ↦ refused capacity_evidence_unknown (visited + r.visited) (relevant_unknowns inp)
    | bound_exhausted ↦ refused packing_inconclusive (visited + r.visited) (relevant_unknowns inp)
    | infeasible ↦
        refused infeasible_with_unknown_at_usable_max (visited + r.visited) (relevant_unknowns inp)
  ]

  -- after a known search that is infeasible
  pub known_infeasible : SolverInput → ℕ → Option (Option GateResult)
  unfolding refused after_optimistic
  known_infeasible inp visited =
      if is_empty (relevant_unknowns inp) && is_empty (targets_with_unknown_max inp)
      then some (some (refused infeasible_under_admission_budget visited []))
      else if not (is_empty (targets_with_unknown_max inp))
      then some (some (refused capacity_evidence_unknown visited (relevant_unknowns inp)))
      else map_result (after_optimistic inp visited)
          (search_b inp (raise_unknown inp (free_map inp) (relevant_unknowns inp)))

  pub after_known : SolverInput → SearchResult → Option (Option GateResult)
  unfolding known_infeasible refused
  after_known inp r = elim r.kind [
    | found ↦ some (
        some (record {
          code = feasible;
          assignment = r.first;
          feasibility_states_visited = r.visited;
          relevant_unknown_drives = [];
        }))
    | bound_exhausted ↦ some (some (refused packing_inconclusive r.visited (relevant_unknowns inp)))
    | infeasible ↦ known_infeasible inp r.visited
  ]

  -- gate_b; the results of `search` are wrapped as there
  unfoldable pub gate_b : SolverInput → Option (Option GateResult)
  unfolding after_known refused
  gate_b inp = elim (structural inp) [
    | none ↦ none
    | some (some c) ↦ some (some (refused c 0 []))
    | some none ↦ bind_result (after_known inp) (search_b inp (free_map inp))
  ]

-- `derivation_mode` of PlacementResult
pub data DerivationMode : Type 0 where
  optimized state_truncated canonical_fallback : DerivationMode

pub record PlacementResult : Type 0 where
  pub assignment : CanonicalAssignment
  pub derivation_mode : DerivationMode
  pub score : Score
  pub optimization_states_visited : ℕ

module _ (part_hash : KeyPart → ℕ) (emergency : ℕ → Bool) where
  abbrev mode_of : SearchKind → DerivationMode
  mode_of bound_exhausted = state_truncated
  mode_of _ = optimized

  -- frozenset(cand_targets) or frozenset(free_map), sorted
  abbrev scored_targets : SolverInput → List String
  scored_targets inp =
      if is_empty (unsat_candidate_targets inp)
      then sort_texts (keys (free_map inp))
      else unsat_candidate_targets inp

  abbrev first_score : SolverInput → CanonicalAssignment → Score
  first_score inp first = score_assignment inp.preference (free_map inp) (scored_targets inp) first

  -- improve; a result of none is that of `search`
  unfoldable pub improve : SolverInput → CanonicalAssignment → Option PlacementResult
  improve inp first_feasible =
      elim (search inp (free_map inp) part_hash inp.bounds.optimization_state_limit true
        emergency) [
          | none ↦ none
          | some none ↦ some (record {
            assignment = first_feasible;
            derivation_mode = canonical_fallback;
            score = first_score inp first_feasible;
            optimization_states_visited = 0;
          })
          | some (some r) ↦ some (record {
            assignment = get_or r.best first_feasible;
            derivation_mode = mode_of r.kind;
            score = get_or r.best_score (first_score inp first_feasible);
            optimization_states_visited = r.visited;
          })
        ]
