-- ===== src/Capacity.antt =====
-- modelark/capacity.py: the drives of a plan with their admission evidence, the budgets of tasks, the
-- check of one file before it is written, and the ledger of every drive. The failures that a plan
-- reports are in Capacity/Failures, the tasks in Capacity/Tasks and plan_capacity in Capacity/Plan.
-- Parameters: `safety_floor` is capacity.safety_floor, which computes in floats. The columns that
-- inspect_drives selects are an argument.
pub mod Preflight
mod Examples
pub mod Failures
pub mod Plan
pub mod Tasks
use modelark.Prelude.{
  ℕ, ◌+◌, ◌-◌, max, ltb, leb, String, Option, none, some, Bool, true, false, List, [], ◌∷◌, ◌==◌,
  if◌then◌else◌, map, select, sum_by, max_by, get_or, append, contains,
}
use modelark.Prelude.Dict.{Dict, get}
use modelark.Prelude.Int.{ℤ}
use modelark.Evidence.{Evidence, Kind, live, anchor, unknown, Code, drive_serial_repair_required}
use modelark.Candidates.{TaskKind, fetch, replicate}

pub data CapacityMode : Type 0 where
  guaranteed compression_aware : CapacityMode

-- mode.value
unfoldable pub value_of : CapacityMode → String
value_of guaranteed = "guaranteed"
value_of compression_aware = "compression_aware"

-- the aliases of mode_from_value; `none` is ValueError
unfoldable pub mode_from_value : String → Option CapacityMode
mode_from_value text =
    if (text == "uncompressed")
    then some guaranteed
    else if text == "compressed"
    then some compression_aware
    else if text == "guaranteed"
    then some guaranteed
    else if text == "compression_aware"
    then some compression_aware
    else none

pub data FreeEvidence : Type 0 where
  live_space snapshot : FreeEvidence

pub data FailureCode : Type 0 where
  capacity_durable_short : FailureCode
  capacity_workspace_short : FailureCode
  capacity_evidence_unknown : FailureCode
  target_drive_changed : FailureCode
  target_tier_missing : FailureCode
  unproven_provenance : FailureCode
  requirement_exceeds_usable_max : FailureCode
  failure_domain_unsatisfiable : FailureCode
  graph_dependency_invariant : FailureCode
  graph_invariant : FailureCode

pub record CapacityDrive : Type 0 where
  pub drive_label : String
  pub role : String
  pub raid_backed : Bool
  pub capacity_bytes : ℕ
  pub evidence : Evidence
  pub safety_floor : ℕ

abbrev pub usable_now : CapacityDrive → ℕ
usable_now d = d.evidence.admissible_free

-- the property `free_evidence`
abbrev pub free_evidence : CapacityDrive → Option FreeEvidence
free_evidence d = elim d.evidence.kind [
  | live ↦ some live_space
  | anchor ↦ some snapshot
  | unknown ↦ none
]

-- the columns of one drive of the plan that inspect_drives reads
pub record DriveRow : Type 0 where
  pub drive_label : String
  pub role : String
  pub raid_backed : Bool
  pub nominal_capacity : ℕ
  pub epoch_capacity : ℕ

-- the evidence of a drive for which none is supplied
unfoldable pub no_evidence : Evidence
no_evidence = record {
  kind = unknown;
  executable = false;
  admissible_free = 0;
  code = some Code.capacity_evidence_unknown;
  observed_free = none;
  optimistic_usable_max = none;
  observed_at = none;
  identity_epoch = none;
}

module _ (safety_floor : ℕ → Bool → ℕ) where
  unfoldable pub inspected : Dict Evidence → DriveRow → CapacityDrive
  unfolding no_evidence
  inspected evidence row = record {
    drive_label = row.drive_label;
    role = row.role;
    raid_backed = row.raid_backed;
    capacity_bytes = row.nominal_capacity;
    evidence = get_or (get row.drive_label evidence) no_evidence;
    safety_floor = safety_floor row.epoch_capacity row.raid_backed;
  }

  unfoldable pub inspect_drives : Dict Evidence → List DriveRow → List CapacityDrive
  unfolding inspected
  inspect_drives evidence rows = map (inspected evidence) rows

-- TaskBudget, without the budgets of single files
pub record TaskBudget : Type 0 where
  pub task_id : String
  pub requirement_id : String
  pub repo_id : String
  pub kind : TaskKind
  pub target_drive : String
  pub source_drive : Option String
  pub missing_files : List String
  pub guaranteed_durable : ℕ
  pub expected_durable : ℕ
  pub workspace_peak_guaranteed : ℕ
  pub workspace_peak_expected : ℕ
  pub evidence : String

abbrev pub durable_for : CapacityMode → TaskBudget → ℕ
durable_for guaranteed b = b.guaranteed_durable
durable_for compression_aware b = b.expected_durable

abbrev pub workspace_for : CapacityMode → TaskBudget → ℕ
workspace_for guaranteed b = b.workspace_peak_guaranteed
workspace_for compression_aware b = b.workspace_peak_expected

pub record AssignedTask : Type 0 where
  pub task_id : String
  pub requirement_id : String
  pub repo_id : String
  pub kind : TaskKind
  pub target_drive : String
  pub source_drive : Option String
  pub depends_on_requirement : Option String
  pub budget : TaskBudget

pub record DriveLedger : Type 0 where
  pub drive_label : String
  pub observed_free : Option ℤ
  pub free_evidence : Option FreeEvidence
  pub evidence_kind : Kind
  pub evidence_code : Option Code
  pub observed_at : Option String
  pub identity_epoch : Option ℕ
  pub safety_floor : ℕ
  pub usable_now : ℕ
  pub guaranteed_durable : ℕ
  pub expected_durable : ℕ
  pub workspace_peak_guaranteed : ℕ
  pub workspace_peak_expected : ℕ

abbrev pub required_peak : CapacityMode → DriveLedger → ℕ
required_peak guaranteed l = l.guaranteed_durable + l.workspace_peak_guaranteed
required_peak compression_aware l = l.expected_durable + l.workspace_peak_expected

-- [item.budget for item in tasks if item.target_drive == label]
abbrev pub budgets_on : String → List AssignedTask → List TaskBudget
budgets_on label tasks = map (λ t. t.budget) (select (λ t. t.target_drive == label) tasks)

unfoldable pub ledger_of : List AssignedTask → CapacityDrive → DriveLedger
ledger_of tasks d =
    let budgets = budgets_on d.drive_label tasks in
    record {
      drive_label = d.drive_label;
      observed_free = d.evidence.observed_free;
      free_evidence = free_evidence d;
      evidence_kind = d.evidence.kind;
      evidence_code = d.evidence.code;
      observed_at = d.evidence.observed_at;
      identity_epoch = d.evidence.identity_epoch;
      safety_floor = d.safety_floor;
      usable_now = usable_now d;
      guaranteed_durable = sum_by (λ b. b.guaranteed_durable) budgets;
      expected_durable = sum_by (λ b. b.expected_durable) budgets;
      workspace_peak_guaranteed = max_by (λ b. b.workspace_peak_guaranteed) budgets;
      workspace_peak_expected = max_by (λ b. b.workspace_peak_expected) budgets;
    }

-- _ledgers
unfoldable pub ledgers : List CapacityDrive → List AssignedTask → List DriveLedger
unfolding ledger_of
ledgers drives tasks = map (ledger_of tasks) drives

pub record CapacityFailure : Type 0 where
  pub code : FailureCode
  pub capacity_mode : CapacityMode
  pub requirement_id : Option String
  pub task_ids : List String
  pub target_tier : Option String
  pub eligible_drives : List String
  pub required_bytes : ℕ
  pub available_bytes : ℕ
  pub safety_floor_bytes : ℕ
  pub workspace_bytes : ℕ
  pub shortfall_bytes : ℕ
  pub evidence : Option FreeEvidence
  pub actions : List String
  pub blocked_by_requirement : Option String
  pub evidence_code : Option Code

-- _drive_tier
unfoldable pub drive_tier : CapacityDrive → String
drive_tier d =
    if d.role == "replica" then "replica" else if d.raid_backed then "raid_home" else "primary"

abbrev is_serial_repair : Option Code → Bool
is_serial_repair (some drive_serial_repair_required) = true
is_serial_repair _ = false

-- _actions_for
unfoldable pub actions_for : CapacityDrive → List String → List String
actions_for d base = elim d.evidence.kind [
  | unknown ↦
      if is_serial_repair d.evidence.code
      then "inspect_serial_identity" ∷ "repair_serial_identity" ∷ "retry_preview" ∷ []
      else "mount_or_reconcile_drive" ∷ base
  | _ ↦ base
]

-- FailureCode.CAPACITY_DURABLE_SHORT if durable > available else CAPACITY_WORKSPACE_SHORT
abbrev pub short_code : ℕ → ℕ → FailureCode
short_code durable available =
    if ltb available durable then capacity_durable_short else capacity_workspace_short

-- kind.value + ":" + requirement_id
unfoldable pub task_id_of : TaskKind → String → String
task_id_of fetch rid = append "fetch:" rid
task_id_of replicate rid = append "replicate:" rid

-- target_drive_changed_failure
unfoldable pub target_drive_changed_failure : AssignedTask → CapacityMode → CapacityFailure
target_drive_changed_failure task mode =
    let required = durable_for mode task.budget + workspace_for mode task.budget in
    record {
      code = target_drive_changed;
      capacity_mode = mode;
      requirement_id = some task.requirement_id;
      task_ids = task.task_id ∷ [];
      target_tier = some (elim task.kind [ replicate ↦ "replica" | fetch ↦ "primary" ]);
      eligible_drives = task.target_drive ∷ [];
      required_bytes = required;
      available_bytes = 0;
      safety_floor_bytes = 0;
      workspace_bytes = workspace_for mode task.budget;
      shortfall_bytes = required;
      evidence = none;
      actions = "reconcile_plan" ∷ "restore_target_drive_to_plan" ∷ [];
      blocked_by_requirement = none;
      evidence_code = none;
    }
