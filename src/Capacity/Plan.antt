-- ===== src/Capacity/Plan.antt =====
-- modelark/capacity.py: _build_solver_input, and plan_capacity from the evidence of the drives to the
-- tasks of a plan. What the queries return is an argument: the rows of the plan's drives and the facts
-- that are read again from reconcile.py. The messages, the diagnostics and the actions of the plan are
-- left out; `diagnostics` is what gate_b attaches to a refusal. Arguments that are deprecated or
-- rejected have no counterpart.
pub mod Spaces
pub mod Sound
pub mod Stale
pub mod Priced
pub mod Safe
use modelark.Prelude.{
  ℕ, ◌-◌, min, String, Option, none, some, Bool, true, false, not, ◌&&◌, ◌||◌, List, [], ◌∷◌, ◌==◌,
  if◌then◌else◌, map, select, text_lt,
}
use modelark.Prelude.Dict.{Dict}
use modelark.Prelude.Sort.{sort, sort_texts}
use modelark.Evidence.{Evidence}
use modelark.Candidates.{CopyRequirement, CandidateSet, DriveFact, is_placeable}
use modelark.Planner.{ManifestFile}
use modelark.Placement.{
  SolverInput, SolverBounds, SuccessorPreference, DriveEvidenceFact, CanonicalAssignment,
}
use modelark.Placement.Search.{distinct}
use modelark.Placement.Partial.{KeyPart}
use modelark.Placement.Structural.{GateCode}
use modelark.Placement.Gate.{GateResult, PlacementResult, gate_b, improve, never}
use modelark.Capacity.{
  CapacityMode, value_of, CapacityDrive, AssignedTask, DriveLedger, ledgers, CapacityFailure,
  DriveRow, inspect_drives,
}
use modelark.Capacity.Tasks.{project_assigned_tasks, batch_order}
use modelark.Capacity.Failures.{
  Diagnostics, stale_target_failures, unknown_evidence_failures, capacity_short_failures,
  structural_failure_projection, is_nil,
}

pub data Severity : Type 0 where
  info warning blocking error : Severity

-- ReconcileResult: what plan_capacity reads of it
pub record ReconcileResult : Type 0 where
  pub requirements : List CopyRequirement
  pub manifests : Dict (List ManifestFile)
  pub diagnostics : List (String × Severity)
  pub candidates : CandidateSet

abbrev is_blocking : Severity → Bool
is_blocking blocking = true
is_blocking error = true
is_blocking _ = false

-- sorted({item.code for item in result.diagnostics if …})
unfoldable pub blocking_codes : ReconcileResult → List String
blocking_codes r =
    sort_texts (distinct (map (λ d. d.0) (select (λ d. is_blocking d.1) r.diagnostics)))

abbrev is_successor : Option SuccessorPreference → CapacityDrive → Bool
is_successor none d = false
is_successor (some p) d = d.drive_label == p.successor_drive

abbrev lane : Option SuccessorPreference → ℕ
lane none = 0
lane (some p) = p.lane_bytes

-- the executable bytes of a drive, at most the lane of a successor
unfoldable pub executable_of : Option SuccessorPreference → CapacityDrive → ℕ
executable_of pref d =
    let free = if d.evidence.executable then d.evidence.admissible_free else 0 in
    if is_successor pref d then min free (lane pref) else free

-- the maximum of a drive before the lane of a successor
abbrev fallback_max : CapacityDrive → Option ℕ
fallback_max d = elim d.evidence.optimistic_usable_max [
  | some m ↦ some m
  | none ↦ if d.evidence.executable then some (d.capacity_bytes - d.safety_floor) else none
]

abbrev within_lane : Bool → ℕ → Option ℕ → Option ℕ
within_lane true lane_bytes (some m) = some (min m lane_bytes)
within_lane _ lane_bytes m = m

unfoldable pub max_of : Option SuccessorPreference → CapacityDrive → Option ℕ
max_of pref d = within_lane (is_successor pref d) (lane pref) (fallback_max d)

abbrev pub by_label {ℓ} : {A : Type ℓ} → List (String × A) → List (String × A)
by_label xs = sort (λ a b. text_lt a.0 b.0) xs

-- _adapter_solver_bounds
unfoldable pub adapter_solver_bounds : SolverBounds
adapter_solver_bounds = record { feasibility_state_limit = 200000; optimization_state_limit = 1500 }

-- _build_solver_input, from the drives that were inspected and the facts that were read again
unfoldable pub build_solver_input :
    SolverBounds
    → Option SuccessorPreference
    → CapacityMode
    → ReconcileResult
    → List CapacityDrive
    → List DriveFact
    → SolverInput
unfolding executable_of max_of
build_solver_input bounds pref mode r drives facts = record {
  desired = r.requirements;
  candidates = r.candidates;
  drives = facts;
  executable_budget = by_label (map (λ d. (d.drive_label, executable_of pref d)) drives);
  max_usable_for_epoch = by_label (map (λ d. (d.drive_label, max_of pref d)) drives);
  drive_evidence = by_label (
      map
        (λ d. (
          d.drive_label,
          record { drive_label = d.drive_label; executable = d.evidence.executable },
        ))
        drives);
  capacity_mode = value_of mode;
  bounds = bounds;
  preference = pref;
}

-- the labels of the active and enabled drives
unfoldable pub placeable_labels : List DriveFact → List String
placeable_labels facts = map (λ d. d.drive_label) (select is_placeable facts)

pub record CapacityPlan : Type 0 where
  pub mode : CapacityMode
  pub tasks : List AssignedTask
  pub batch_order : List String
  pub blocking_diagnostics : List String
  pub ledgers : List DriveLedger
  pub failures : List CapacityFailure
  pub gate_b_code : GateCode

abbrev pub is_feasible_code : GateCode → Bool
is_feasible_code GateCode.feasible = true
is_feasible_code _ = false

-- the property `feasible`; no plan leaves an intent unassigned
unfoldable pub plan_feasible : CapacityPlan → Bool
plan_feasible p =
    is_feasible_code p.gate_b_code && is_nil p.blocking_diagnostics && is_nil p.failures

module _ (part_hash : KeyPart → ℕ) (diagnostics : SolverInput → Diagnostics) (mode : CapacityMode)
    (r : ReconcileResult) (drives : List CapacityDrive) (inp : SolverInput) where
  -- a plan without tasks
  unfoldable pub no_tasks : GateCode → List CapacityFailure → CapacityPlan
  no_tasks code failures = record {
    mode = mode;
    tasks = [];
    batch_order = [];
    blocking_diagnostics = blocking_codes r;
    ledgers = ledgers drives [];
    failures = failures;
    gate_b_code = code;
  }

  -- the failures of an answer that is not FEASIBLE
  unfoldable pub failures_for : GateCode → List CapacityFailure
  failures_for code = elim code [
    | GateCode.infeasible_under_admission_budget ↦ capacity_short_failures mode inp drives
    | GateCode.capacity_evidence_unknown ↦ unknown_evidence_failures mode drives inp
    | other ↦ structural_failure_projection mode other (diagnostics inp)
  ]

  -- a plan with these tasks and this batch order
  abbrev pub planned : List AssignedTask → List String → CapacityPlan
  planned tasks order = record {
    mode = mode;
    tasks = tasks;
    batch_order = order;
    blocking_diagnostics = blocking_codes r;
    ledgers = ledgers drives tasks;
    failures = [];
    gate_b_code = GateCode.feasible;
  }

  abbrev ordered : List AssignedTask → Option (List String) → Option CapacityPlan
  ordered tasks none = none
  ordered tasks (some order) = some (planned tasks order)

  abbrev projected : Option (List AssignedTask) → Option CapacityPlan
  projected none = none
  projected (some tasks) = ordered tasks (batch_order r.manifests tasks)

  unfoldable pub with_tasks : CanonicalAssignment → Option CapacityPlan
  with_tasks a = projected (project_assigned_tasks r.candidates.by_requirement a)

  -- the monitor of improve is None
  unfoldable pub improved : CanonicalAssignment → Option CapacityPlan
  unfolding with_tasks
  improved first = elim (improve part_hash (never part_hash) inp first) [
    | none ↦ none
    | some p ↦ with_tasks p.assignment
  ]

  -- A FEASIBLE answer has an assignment; Python raises AttributeError otherwise.
  abbrev placed : GateCode → Option CanonicalAssignment → Option CapacityPlan
  placed GateCode.feasible none = none
  placed GateCode.feasible (some a) = improved a
  placed code a = some (no_tasks code (failures_for code))

  abbrev answered : Option (Option GateResult) → Option CapacityPlan
  answered (some (some g)) = placed g.code g.assignment
  answered _ = none

  unfoldable pub with_stale : List CapacityFailure → Option CapacityPlan
  unfolding no_tasks failures_for improved
  with_stale (f ∷ stale) = some (no_tasks GateCode.infeasible_under_admission_budget (f ∷ stale))
  with_stale [] = answered (gate_b part_hash inp)

-- plan_capacity; `none` is an exception or fuel that ran out
unfoldable pub plan_capacity :
    (KeyPart → ℕ)
    → (SolverInput → Diagnostics)
    → (ℕ → Bool → ℕ)
    → SolverBounds
    → Option SuccessorPreference
    → CapacityMode
    → ReconcileResult
    → Dict Evidence
    → List DriveRow
    → List DriveFact
    → Option CapacityPlan
unfolding with_stale
plan_capacity part_hash diagnostics safety_floor bounds pref mode r evidence rows facts =
    let drives = inspect_drives safety_floor evidence rows in
    with_stale part_hash diagnostics mode r drives
      (build_solver_input bounds pref mode r drives facts)
      (stale_target_failures mode (placeable_labels facts) drives r.candidates.by_requirement)
