-- ===== src/Placement/Structural.antt =====
-- modelark/placement.py: _structural, the checks that gate_b makes before it searches, in their order.
-- A failure is its code; diagnostics and the actions offered to the operator are not modelled.
pub mod Total
pub mod Refuses
use modelark.Prelude.{
  ℕ, suc, zero, ◌+◌, String, Option, none, some, Bool, true, false, not, ◌&&◌, ◌||◌, List, [], ◌∷◌,
  ◌==◌, if◌then◌else◌, contains, map, get_or, all, any, leb, length, is_none, text_lt,
}
use modelark.Prelude.Dict.{get}
use modelark.Prelude.Sort.{sort}
use modelark.Candidates.{RequirementKind, CopyRequirement, Candidate, Satisfaction, DriveFact}
use modelark.Placement.{
  SolverInput, as_map, cands_of, req_of, drive_of, blocked_of, is_satisfied, is_blocked,
  same_failure_domain, cand_peak,
}
use modelark.Placement.Partial.{is_replica_kind}

-- `code` of GateBResult
pub data GateCode : Type 0 where
  feasible : GateCode
  packing_inconclusive : GateCode
  infeasible_under_admission_budget : GateCode
  capacity_evidence_unknown : GateCode
  infeasible_with_unknown_at_usable_max : GateCode
  target_tier_missing : GateCode
  unproven_provenance : GateCode
  graph_dependency_invariant : GateCode
  failure_domain_unsatisfiable : GateCode
  requirement_exceeds_usable_max : GateCode

-- maxima.get(lab)
abbrev pub usable_max : SolverInput → String → Option ℕ
usable_max inp lab = get_or (get lab (as_map inp.max_usable_for_epoch)) none

abbrev pub is_empty {ℓ} : {A : Type ℓ} → List A → Bool
is_empty [] = true
is_empty (_ ∷ _) = false

-- sorted(inp.graph.desired, key=lambda r: r.requirement_id)
unfoldable pub sorted_reqs : SolverInput → List CopyRequirement
sorted_reqs inp = sort (λ a b. text_lt a.requirement_id b.requirement_id) inp.desired

abbrev pub req_ids : SolverInput → List String
req_ids inp = map (λ r. r.requirement_id) inp.desired

-- 1 and 2: what is blocked
unfoldable pub blocked_check : SolverInput → List CopyRequirement → Option GateCode
blocked_check inp [] = none
blocked_check inp (r ∷ rs) =
    let rest = blocked_check inp rs in
    elim (blocked_of inp r.requirement_id) [
      | none ↦ rest
      | some b ↦
          if b.reason == "no_eligible_tier"
          then some target_tier_missing
          else if b.reason == "all_targets_unproven"
          then some unproven_provenance
          else rest
    ]

-- 3: req.independent_of is not None and req.independent_of not in req_ids
abbrev dangling : SolverInput → Option String → Bool
dangling inp none = false
dangling inp (some d) = not (contains (req_ids inp) d)

unfoldable pub reference_check : SolverInput → List CopyRequirement → Option GateCode
reference_check inp [] = none
reference_check inp (r ∷ rs) =
    if dangling inp r.independent_of
    then some graph_dependency_invariant
    else reference_check inp rs

-- dep and dep.independent_of: the id that a requirement waits for, if any
unfoldable pub waits_for : SolverInput → String → Option String
waits_for inp rid = elim (req_of inp.desired rid) [
  | none ↦ none
  | some r ↦ elim r.independent_of [ none ↦ none | some d ↦ if d == "" then none else some d ]
]

-- visiting.discard(rid); seen.add(rid), unless a cycle was found
abbrev pub after_visit : String → Option (Bool × List String) → Option (Bool × List String)
after_visit rid none = none
after_visit rid (some (true, seen)) = some (true, seen)
after_visit rid (some (false, seen)) = some (false, rid ∷ seen)

-- visit: is there a cycle, and what has been seen; `none` is fuel that ran out
unfoldable pub visit :
    SolverInput → ℕ → List String → List String → String → Option (Bool × List String)
visit inp zero visiting seen rid = none
visit inp (suc fuel) visiting seen rid =
    let deeper : String → Option (Bool × List String) = visit inp fuel (rid ∷ visiting) seen in
    if contains seen rid
    then some (false, seen)
    else if contains visiting rid
    then some (true, seen)
    else elim (waits_for inp rid) [
      | none ↦ some (false, rid ∷ seen)
      | some d ↦ after_visit rid (deeper d)
    ]

-- room for every id of the graph on `visiting`, and one that is not there
abbrev pub visit_fuel : SolverInput → ℕ
visit_fuel inp = length inp.desired + 2

-- for req in reqs: if visit(req.requirement_id): …
unfoldable pub cycle_check :
    SolverInput → List String → List CopyRequirement → Option (Option GateCode)
cycle_check inp seen [] = some none
cycle_check inp seen (r ∷ rs) = elim (visit inp (visit_fuel inp) [] seen r.requirement_id) [
  | none ↦ none
  | some (true, s) ↦ some (some graph_dependency_invariant)
  | some (false, s) ↦ cycle_check inp s rs
]

-- 4: the copies of the first satisfaction of the id
copies_of : String → List Satisfaction → List String
copies_of rid [] = []
copies_of rid (s ∷ ss) = if s.requirement_id == rid then s.copies else copies_of rid ss

-- home_targets: the satisfying drives, or else every eligible one
home_targets : SolverInput → String → CopyRequirement → List String
unfolding copies_of
home_targets inp home_id home =
    let copies = copies_of home_id inp.candidates.satisfied in
    if is_empty copies then home.eligible_drives else copies

abbrev apart : Option DriveFact → Option DriveFact → Bool
apart (some a) (some b) = not (same_failure_domain a b)
apart _ _ = false

-- a pair of known drives that share no failure domain
pub apart_pair : SolverInput → List String → List Candidate → Bool
apart_pair inp homes cands =
    any (λ ht. any (λ c. apart (drive_of inp.drives ht) (drive_of inp.drives c.target_drive)) cands)
      homes

abbrev pub pending : SolverInput → String → Bool
pending inp rid = not (is_satisfied inp rid) && not (is_blocked inp rid)

-- a replica whose candidates all share a failure domain with the drives of its home
collides : SolverInput → CopyRequirement → String → Bool
unfolding home_targets apart_pair
collides inp r home_id =
    let cands = cands_of inp r.requirement_id in
    contains (req_ids inp) home_id && not (is_empty cands) && elim (req_of inp.desired home_id) [
      | none ↦ false
      | some home ↦
          let homes = home_targets inp home_id home in
          let any_home = if is_empty homes then home.eligible_drives else homes in
          not (apart_pair inp homes cands)
          && (pending inp home_id || not (is_empty homes))
          && not (apart_pair inp any_home cands)
          && not (is_empty any_home)
    ]

unfoldable pub domain_check : SolverInput → List CopyRequirement → Option GateCode
unfolding collides
domain_check inp [] = none
domain_check inp (r ∷ rs) =
    if is_replica_kind r.kind
      && pending inp r.requirement_id
      && elim r.independent_of [ none ↦ false | some home_id ↦ collides inp r home_id ]
    then some failure_domain_unsatisfiable
    else domain_check inp rs

-- 5: the target has a known maximum, and the peak of the candidate is over it
abbrev pub over_max : SolverInput → Candidate → Bool
over_max inp c = elim (usable_max inp c.target_drive) [
  | none ↦ false
  | some mx ↦ not (leb (cand_peak inp.capacity_mode c) mx)
]

unfoldable pub size_check : SolverInput → List CopyRequirement → Option GateCode
size_check inp [] = none
size_check inp (r ∷ rs) =
    let cands = cands_of inp r.requirement_id in
    if pending inp r.requirement_id && not (is_empty cands) && all (over_max inp) cands
    then some requirement_exceeds_usable_max
    else size_check inp rs

abbrev pub or_else : Option GateCode → Option GateCode → Option GateCode
or_else none b = b
or_else (some a) b = some a

-- what follows the check for cycles
unfoldable pub after_cycles : SolverInput → Option (Option GateCode) → Option (Option GateCode)
unfolding domain_check size_check
after_cycles inp none = none
after_cycles inp (some (some c)) = some (some c)
after_cycles inp (some none) =
    some (or_else (domain_check inp (sorted_reqs inp)) (size_check inp (sorted_reqs inp)))

-- _structural; `none` outside is fuel that ran out
unfoldable pub structural : SolverInput → Option (Option GateCode)
unfolding blocked_check reference_check cycle_check
structural inp =
    elim (or_else (blocked_check inp (sorted_reqs inp)) (reference_check inp (sorted_reqs inp))) [
      | some c ↦ some (some c)
      | none ↦ after_cycles inp (cycle_check inp [] (sorted_reqs inp))
    ]
