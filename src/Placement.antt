-- ===== src/Placement.antt =====
-- modelark/placement.py: the inputs and results of the solver, its maps, and the tests of identity
-- domains and budgets. The search node is in Placement/Partial, the orders in Placement/Order, the
-- search in Placement/Search and the ladder of gate_b in Placement/Gate.
pub mod Lookup
pub mod Partial
pub mod Order
pub mod Scored
pub mod Search
pub mod Structural
pub mod Assignment
pub mod Gate
mod Examples
use modelark.Prelude.{
  ℕ, ◌+◌, String, Option, none, some, Bool, true, false, not, ◌&&◌, ◌||◌, List, [], ◌∷◌, ◌==◌,
  if◌then◌else◌, contains, map, get_or, select,
}
use modelark.Prelude.Int.{ℤ}
use modelark.Prelude.Dict.{Dict, get, put}
use modelark.Candidates.{
  TaskKind, DriveFact, CopyRequirement, SourceIdentity, BlockedRequirement, Candidate, CandidateSet,
}

-- DriveEvidenceFact: what the solver reads of it
pub record DriveEvidenceFact : Type 0 where
  pub drive_label : String
  pub executable : Bool

pub record SolverBounds : Type 0 where
  pub feasibility_state_limit : ℕ
  pub optimization_state_limit : ℕ

pub record SuccessorPreference : Type 0 where
  pub predecessor_drive : String
  pub successor_drive : String
  pub lane_bytes : ℕ
  pub baseline_targets : List (String × String)

pub record SolverInput : Type 0 where
  pub desired : List CopyRequirement
  pub candidates : CandidateSet
  pub drives : List DriveFact
  pub executable_budget : List (String × ℕ)
  pub max_usable_for_epoch : List (String × Option ℕ)
  pub drive_evidence : List (String × DriveEvidenceFact)
  pub capacity_mode : String
  pub bounds : SolverBounds
  pub preference : Option SuccessorPreference

pub record AssignmentTask : Type 0 where
  pub requirement_id : String
  pub task_kind : TaskKind
  pub target_drive : String
  pub source : Option SourceIdentity
  pub depends_on_requirement : Option String
  pub movement_cost : ℕ
  pub durable : ℕ
  pub workspace : ℕ
  pub missing_files : List String
  pub reused_files : List String
  pub guaranteed_durable : ℕ
  pub expected_durable : ℕ
  pub workspace_peak_guaranteed : ℕ
  pub workspace_peak_expected : ℕ
  pub budget_evidence : String

pub record CanonicalAssignment : Type 0 where
  pub tasks : List AssignmentTask
  pub remaining_free : List (String × ℤ)

put_all {ℓ} : {A : Type ℓ} → Dict A → List (String × A) → Dict A
put_all m [] = m
put_all m ((k, v) ∷ rest) = put_all (put k v m) rest

-- _as_map: a later pair of the same key replaces an earlier one
unfoldable pub as_map {ℓ} : {A : Type ℓ} → List (String × A) → Dict A
unfolding put_all
as_map pairs = put_all [] pairs

-- _guaranteed
abbrev pub guaranteed : String → Bool
guaranteed mode = (mode == "guaranteed") || (mode == "uncompressed")

-- _cand_durable
unfoldable pub cand_durable : String → Candidate → ℕ
cand_durable mode c =
    if guaranteed mode then c.budget.guaranteed_durable else c.budget.expected_durable

-- _cand_workspace
unfoldable pub cand_workspace : String → Candidate → ℕ
cand_workspace mode c =
    if guaranteed mode then c.budget.workspace_peak_guaranteed else c.budget.workspace_peak_expected

-- _cand_peak
unfoldable pub cand_peak : String → Candidate → ℕ
cand_peak mode c = cand_durable mode c + cand_workspace mode c

-- x and y and x == y
abbrev pub both_eq : Option String → Option String → Bool
both_eq (some x) (some y) = not (x == "") && not (y == "") && (x == y)
both_eq _ _ = false

-- _same_failure_domain
unfoldable pub same_failure_domain : DriveFact → DriveFact → Bool
same_failure_domain a b =
    both_eq a.fs_uuid b.fs_uuid || both_eq a.annex_uuid b.annex_uuid || both_eq a.serial b.serial

-- d[k] for a key that is known, as a dict comprehension over records keeps the last
last_by {ℓ} : {A : Type ℓ} → (A → String) → String → List A → Option A → Option A
last_by key k [] found = found
last_by key k (x ∷ xs) found = last_by key k xs (if key x == k then some x else found)

-- _drive_map(inp).get(label)
unfoldable pub drive_of : List DriveFact → String → Option DriveFact
unfolding last_by
drive_of drives label = last_by (λ d. d.drive_label) label drives none

-- _req_by_id(inp).get(rid)
unfoldable pub req_of : List CopyRequirement → String → Option CopyRequirement
unfolding last_by
req_of reqs rid = last_by (λ r. r.requirement_id) rid reqs none

-- _cands_by_req(inp).get(rid, ())
unfoldable pub cands_of : SolverInput → String → List Candidate
unfolding as_map
cands_of inp rid = get_or (get rid (as_map inp.candidates.by_requirement)) []

-- rid in _satisfied_ids(inp)
unfoldable pub is_satisfied : SolverInput → String → Bool
is_satisfied inp rid = contains (map (λ s. s.requirement_id) inp.candidates.satisfied) rid

-- _blocked_by_id(inp).get(rid)
unfoldable pub blocked_of : SolverInput → String → Option BlockedRequirement
unfolding last_by
blocked_of inp rid = last_by (λ b. b.requirement_id) rid inp.candidates.blocked none

-- rid in _blocked_by_id(inp)
unfoldable pub is_blocked : SolverInput → String → Bool
is_blocked inp rid = contains (map (λ b. b.requirement_id) inp.candidates.blocked) rid

-- The ids that are neither satisfied nor blocked, in the order of the graph.
unfoldable pub unsatisfied : SolverInput → List String
unfolding is_satisfied is_blocked
unsatisfied inp =
    select (λ rid. not (is_satisfied inp rid) && not (is_blocked inp rid))
      (map (λ r. r.requirement_id) inp.desired)
