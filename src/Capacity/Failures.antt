-- ===== src/Capacity/Failures.antt =====
-- modelark/capacity.py: the failures that a plan reports when it has no tasks. The diagnostics of
-- gate_b, which the model of gate_b leaves out, are an argument of the projection that reads them.
use modelark.Prelude.{
  ℕ, ◌+◌, ◌-◌, ltb, leb, String, Option, none, some, Bool, true, false, not, ◌&&◌, List, [], ◌∷◌,
  ◌++◌, if◌then◌else◌, map, select, all, contains, get_or, text_lt, append,
}
use text.Mathlib.Text.{starts_with}
use modelark.Prelude.Dict.{Dict, get, count_at}
use modelark.Prelude.Sort.{sort_texts, sort}
use modelark.Candidates.{CopyRequirement, Candidate}
use modelark.Placement.{SolverInput, cand_durable, cand_workspace, as_map}
use modelark.Placement.Search.{distinct}
use modelark.Placement.Structural.{GateCode}
use modelark.Capacity.{
  CapacityMode, CapacityDrive, free_evidence, CapacityFailure, FailureCode, drive_tier, actions_for,
  short_code, target_drive_changed, capacity_evidence_unknown, task_id_of,
}

abbrev pub labels_of : List CapacityDrive → List String
labels_of drives = map (λ d. d.drive_label) drives

-- sorted({c.target_drive for c in cs})
abbrev pub target_labels : List Candidate → List String
target_labels cs = sort_texts (distinct (map (λ c. c.target_drive) cs))

abbrev pub is_nil {ℓ} : {A : Type ℓ} → List A → Bool
is_nil [] = true
is_nil (_ ∷ _) = false

-- the keys of `diagnostics` that the projection reads: the first id and the first list of drives
-- that it finds, and peak_bytes
pub record Diagnostics : Type 0 where
  pub id_keys : List (Option String)
  pub drive_keys : List (Option (List String))
  pub peak_bytes : Option ℕ
  pub actions : List String

module _ (mode : CapacityMode) where
  abbrev kind_word : Bool → String → String
  kind_word true rid = append "replicate:" rid
  kind_word false rid = append "fetch:" rid

  unfoldable pub stale_failure : String → List Candidate → CapacityFailure
  stale_failure rid cs =
      let is_replica = starts_with rid "protected_replica:" in
      record {
        code = target_drive_changed;
        capacity_mode = mode;
        requirement_id = some rid;
        task_ids = kind_word is_replica rid ∷ [];
        target_tier = some (if is_replica then "replica" else "primary");
        eligible_drives = target_labels cs;
        required_bytes = 0;
        available_bytes = 0;
        safety_floor_bytes = 0;
        workspace_bytes = 0;
        shortfall_bytes = 0;
        evidence = none;
        actions = "reconcile_plan" ∷ "restore_target_drive_to_plan" ∷ [];
        blocked_by_requirement = none;
        evidence_code = none;
      }

  -- Every target of the candidates is a member of the plan and placeable.
  abbrev pub all_usable : List String → List CapacityDrive → List Candidate → Bool
  all_usable placeable drives cs =
      all (λ c. contains placeable c.target_drive && contains (labels_of drives) c.target_drive) cs

  -- _stale_target_failures
  unfoldable pub stale_target_failures :
      List String → List CapacityDrive → List (String × List Candidate) → List CapacityFailure
  unfolding stale_failure
  stale_target_failures placeable drives [] = []
  stale_target_failures placeable drives ((rid, cs) ∷ rest) =
      let failures = stale_target_failures placeable drives rest in
      if all_usable placeable drives cs then failures else stale_failure rid cs ∷ failures

  unfoldable pub unknown_failure : Option String → CapacityDrive → CapacityFailure
  unknown_failure rid d = record {
    code = capacity_evidence_unknown;
    capacity_mode = mode;
    requirement_id = rid;
    task_ids = [];
    target_tier = some (drive_tier d);
    eligible_drives = d.drive_label ∷ [];
    required_bytes = 0;
    available_bytes = 0;
    safety_floor_bytes = d.safety_floor;
    workspace_bytes = 0;
    shortfall_bytes = 0;
    evidence = free_evidence d;
    actions = actions_for d ("mount_or_reconcile_drive" ∷ "retry_preview" ∷ []);
    blocked_by_requirement = none;
    evidence_code = d.evidence.code;
  }

  -- the first requirement with a candidate, or else the first of the graph
  unfoldable pub representative :
      List (String × List Candidate) → List CopyRequirement → Option String
  representative [] [] = none
  representative [] (r ∷ rs) = some r.requirement_id
  representative ((rid, cs) ∷ rest) desired =
      let later = representative rest desired in if is_nil cs then later else some rid

  unfoldable pub all_targets : List (String × List Candidate) → List String
  all_targets [] = []
  all_targets ((rid, cs) ∷ rest) = map (λ c. c.target_drive) cs ++ all_targets rest

  -- _unknown_evidence_failures
  unfoldable pub unknown_evidence_failures : List CapacityDrive → SolverInput → List CapacityFailure
  unfolding unknown_failure representative all_targets
  unknown_evidence_failures drives inp =
      let rows = inp.candidates.by_requirement in
      let targeted = select (λ d. contains (all_targets rows) d.drive_label) drives in
      let unproven = select (λ d. not d.evidence.executable) targeted in
      map (unknown_failure (representative rows inp.desired))
        (if is_nil unproven then targeted else unproven)

  -- (-free_map.get(c.target_drive, 0), c.target_drive)
  abbrev roomier : Dict ℕ → Candidate → Candidate → Bool
  roomier free a b =
      if ltb (count_at b.target_drive free) (count_at a.target_drive free)
      then true
      else leb (count_at a.target_drive free) (count_at b.target_drive free)
        && leb (count_at b.target_drive free) (count_at a.target_drive free)
        && text_lt a.target_drive b.target_drive

  abbrev drive_labelled : String → List CapacityDrive → Option CapacityDrive
  drive_labelled lab drives = get lab (as_map (map (λ d. (d.drive_label, d)) drives))

  unfoldable pub short_failure :
      SolverInput → ℕ → String → List Candidate → Candidate → CapacityDrive → CapacityFailure
  short_failure inp available rid cs c d =
      let durable = cand_durable inp.capacity_mode c in
      let workspace = cand_workspace inp.capacity_mode c in
      record {
        code = short_code durable available;
        capacity_mode = mode;
        requirement_id = some rid;
        task_ids = task_id_of c.task_kind rid ∷ [];
        target_tier = some (drive_tier d);
        eligible_drives = target_labels cs;
        required_bytes = durable + workspace;
        available_bytes = available;
        safety_floor_bytes = d.safety_floor;
        workspace_bytes = workspace;
        shortfall_bytes = durable + workspace - available;
        evidence = free_evidence d;
        actions =
            actions_for d ("expand_eligible_tier" ∷ "trim_selection" ∷ "change_capacity_mode" ∷ []);
        blocked_by_requirement = c.depends_on_requirement;
        evidence_code = d.evidence.code;
      }

  -- the failure of one requirement, for its candidate on the roomiest drive
  abbrev shortage :
      SolverInput
      → Dict ℕ
      → String
      → List Candidate
      → Candidate
      → Option CapacityDrive
      → Option CapacityFailure
  shortage inp free rid cs c none = none
  shortage inp free rid cs c (some d) =
      let available = count_at c.target_drive free in
      if leb (cand_durable inp.capacity_mode c + cand_workspace inp.capacity_mode c) available
      then none
      else some (short_failure inp available rid cs c d)

  unfoldable pub short_of :
      SolverInput → Dict ℕ → List CapacityDrive → String → List Candidate → Option CapacityFailure
  unfolding short_failure
  short_of inp free drives rid cs = elim (sort (roomier free) cs) [
    | [] ↦ none
    | c ∷ ranked ↦ shortage inp free rid cs c (drive_labelled c.target_drive drives)
  ]

  -- best is None or failure.shortfall_bytes > best.shortfall_bytes
  abbrev worse : Option CapacityFailure → Option CapacityFailure → Option CapacityFailure
  worse best none = best
  worse none (some f) = some f
  worse (some b) (some f) = if ltb b.shortfall_bytes f.shortfall_bytes then some f else some b

  unfoldable pub worst_short :
      SolverInput
      → Dict ℕ
      → List CapacityDrive
      → Option CapacityFailure
      → List (String × List Candidate)
      → Option CapacityFailure
  unfolding short_of
  worst_short inp free drives best [] = best
  worst_short inp free drives best ((rid, cs) ∷ rest) =
      worst_short inp free drives (worse best (short_of inp free drives rid cs)) rest

  abbrev pub list_of {ℓ} : {A : Type ℓ} → Option A → List A
  list_of none = []
  list_of (some a) = a ∷ []

  -- _capacity_short_failures
  unfoldable pub capacity_short_failures : SolverInput → List CapacityDrive → List CapacityFailure
  unfolding worst_short
  capacity_short_failures inp drives =
      list_of
        (worst_short inp (as_map inp.executable_budget) drives none inp.candidates.by_requirement)

  abbrev first_present {ℓ} : {A : Type ℓ} → List (Option A) → Option A
  first_present [] = none
  first_present (none ∷ rest) = first_present rest
  first_present (some a ∷ rest) = some a

  -- _STRUCTURAL_FAILURE_CODES; `none` is the ValueError of another code
  unfoldable pub structural_failure_code : GateCode → Option FailureCode
  structural_failure_code GateCode.target_tier_missing = some FailureCode.target_tier_missing
  structural_failure_code GateCode.unproven_provenance = some FailureCode.unproven_provenance
  structural_failure_code GateCode.requirement_exceeds_usable_max =
      some FailureCode.requirement_exceeds_usable_max
  structural_failure_code GateCode.failure_domain_unsatisfiable =
      some FailureCode.failure_domain_unsatisfiable
  structural_failure_code GateCode.graph_dependency_invariant =
      some FailureCode.graph_dependency_invariant
  structural_failure_code _ = none

  abbrev structural_failure : Diagnostics → FailureCode → CapacityFailure
  structural_failure diag code = record {
    code = code;
    capacity_mode = mode;
    requirement_id = first_present diag.id_keys;
    task_ids = [];
    target_tier = none;
    eligible_drives = get_or (first_present diag.drive_keys) [];
    required_bytes = get_or diag.peak_bytes 0;
    available_bytes = 0;
    safety_floor_bytes = 0;
    workspace_bytes = 0;
    shortfall_bytes = get_or diag.peak_bytes 0;
    evidence = none;
    actions = diag.actions;
    blocked_by_requirement = none;
    evidence_code = none;
  }

  -- _structural_failure_projection
  unfoldable pub structural_failure_projection : GateCode → Diagnostics → List CapacityFailure
  unfolding structural_failure_code
  structural_failure_projection code diag = elim (structural_failure_code code) [
    | none ↦ []
    | some fcode ↦ structural_failure diag fcode ∷ []
  ]
