-- ===== src/Capacity/Examples.antt =====
-- A plan of modelark/capacity.py with one copy and one drive, and what the theorems say of it.
use modelark.Prelude.{
  ℕ, ◌+◌, ◌≤◌, ◌≡◌, ◌↔◌, refl, String, List, none, some, Bool, true, false, [], ◌∷◌, contains,
}
use modelark.Prelude.Dict.{get}
use modelark.Prelude.Int.{pos}
use modelark.Prelude.Sort.{Distinct}
use modelark.Evidence.{Evidence, live}
use modelark.Candidates.{
  fetch, DriveFact, no_source, Candidate, CandidateSet, primary, is_placeable,
}
use modelark.Budgets.{FileBudget}
use modelark.Placement.{SolverInput, cand_durable, cand_workspace, cands_of, as_map}
use modelark.Placement.Order.{is_comparable}
use modelark.Placement.Partial.{KeyPart}
use modelark.Capacity.{
  guaranteed, CapacityDrive, DriveRow, AssignedTask, CapacityFailure, inspect_drives, value_of,
}
use modelark.Capacity.Preflight.{preflight_file, preflight_file_exact, Explains}
use modelark.Capacity.Failures.{Diagnostics}
use modelark.Capacity.Tasks.{batch_order, repo_of}
use modelark.Capacity.Tasks.Batches.{batch_order_exact}
use modelark.Capacity.Plan.{
  ReconcileResult, CapacityPlan, build_solver_input, plan_capacity, adapter_solver_bounds,
  placeable_labels,
}
use modelark.Capacity.Plan.Priced.{WellListed, Known, is_known}
use modelark.Capacity.Plan.Sound.{SomeSound, pending_of, plan_capacity_sound}
use modelark.Capacity.Plan.Stale.{Stale, plan_capacity-Stale}

abbrev proof : Evidence
proof = record {
  kind = live;
  executable = true;
  admissible_free = 60;
  code = none;
  observed_free = some (pos 65);
  optimistic_usable_max = some 95;
  observed_at = some "now";
  identity_epoch = some 1;
}

abbrev row : DriveRow
row = record {
  drive_label = "a";
  role = "primary";
  raid_backed = false;
  nominal_capacity = 100;
  epoch_capacity = 100;
}

abbrev fact : String → DriveFact
fact lifecycle = record {
  drive_label = "a";
  role = "primary";
  raid_backed = false;
  capacity_bytes = 100;
  filesystem_capacity_bytes = some 100;
  identity_epoch = 1;
  fs_uuid = some "uuid";
  annex_uuid = none;
  serial = none;
  lifecycle = lifecycle;
  eligibility = "enabled";
}

abbrev copy : Candidate
copy = record {
  requirement_id = "primary:org/model";
  task_kind = fetch;
  target_drive = "a";
  source = no_source;
  depends_on_requirement = none;
  reused_files = [];
  missing_files = "model.safetensors" ∷ [];
  budget = record {
    guaranteed_durable = 40;
    expected_durable = 30;
    workspace_peak_guaranteed = 10;
    workspace_peak_expected = 10;
    evidence = "estimate";
  };
  transfer_bytes = 40;
}

abbrev listed : CandidateSet
listed = record {
  satisfied = [];
  by_requirement = ("primary:org/model", copy ∷ []) ∷ [];
  drift = [];
  blocked = [];
}

abbrev reconciled : ReconcileResult
reconciled = record {
  requirements =
      record {
        requirement_id = "primary:org/model";
        repo_id = "org/model";
        kind = primary;
        eligible_drives = "a" ∷ [];
        independent_of = none;
      }
      ∷ [];
  manifests =
      ("org/model", record { rfilename = "model.safetensors"; size_bytes = 40; sha256 = none } ∷ [])
      ∷ [];
  diagnostics = [];
  candidates = listed;
}

listed-WellListed : WellListed guaranteed listed
unfolding cand_durable cand_workspace value_of
listed-WellListed = record {
  once = (refl, tt);
  ids = ((refl, tt), tt);
  separate = (((refl, tt), tt), tt);
}

abbrev hash : KeyPart → ℕ
hash k = 1

abbrev floor : ℕ → Bool → ℕ
floor capacity raid = 5

abbrev no_diagnostics : SolverInput → Diagnostics
no_diagnostics inp = record { id_keys = []; drive_keys = []; peak_bytes = none; actions = [] }

listed-Known : Known reconciled.manifests listed
unfolding is_known repo_of get
listed-Known = (refl, tt)

comparable :
    is_comparable (
      build_solver_input adapter_solver_bounds none guaranteed reconciled
        (inspect_drives floor (("a", proof) ∷ []) (row ∷ []))
        (fact "active" ∷ []))
    ≡ true
unfolding is_comparable build_solver_input cands_of as_map get modelark.Placement.unsatisfied
    modelark.Prelude.Dict.put
comparable = refl

plan_capacity_sound_example :
    SomeSound
      (pending_of (
        build_solver_input adapter_solver_bounds none guaranteed reconciled
          (inspect_drives floor (("a", proof) ∷ []) (row ∷ []))
          (fact "active" ∷ [])))
      (plan_capacity hash no_diagnostics floor adapter_solver_bounds none guaranteed reconciled
        (("a", proof) ∷ [])
        (row ∷ [])
        (fact "active" ∷ []))
plan_capacity_sound_example =
    plan_capacity_sound hash no_diagnostics floor adapter_solver_bounds none guaranteed reconciled
      (("a", proof) ∷ []) (row ∷ []) (fact "active" ∷ []) (refl, tt) listed-WellListed listed-Known
      comparable

-- the drive has been lost since the candidates were captured
plan_capacity-Stale_example :
    (p : CapacityPlan) × (plan_capacity hash no_diagnostics floor adapter_solver_bounds none
        guaranteed reconciled
        (("a", proof) ∷ [])
        (row ∷ [])
        (fact "lost" ∷ [])
      ≡ some p)
    × Stale p
unfolding placeable_labels is_placeable
plan_capacity-Stale_example =
    plan_capacity-Stale hash no_diagnostics floor adapter_solver_bounds none guaranteed reconciled
      (("a", proof) ∷ []) (row ∷ []) (fact "lost" ∷ []) refl

abbrev mounted : CapacityDrive
mounted = record {
  drive_label = "a";
  role = "primary";
  raid_backed = false;
  capacity_bytes = 100;
  evidence = proof;
  safety_floor = 5;
}

abbrev shard : FileBudget
shard = record {
  rfilename = "model.safetensors";
  guaranteed_durable = 55;
  expected_durable = 40;
  workspace_peak_guaranteed = 20;
  workspace_peak_expected = 20;
  evidence = "estimate";
}

preflight_file_exact_example :
    ((preflight_file mounted shard guaranteed none "file-preflight" ≡ none) ↔ (55 + 20 ≤ 60))
    × ((f : CapacityFailure)
        → preflight_file mounted shard guaranteed none "file-preflight" ≡ some f
        → Explains mounted shard guaranteed f)
preflight_file_exact_example = preflight_file_exact mounted shard guaranteed none "file-preflight"

abbrev task : String → AssignedTask
task lab = record {
  task_id = "fetch:primary:org/model";
  requirement_id = "primary:org/model";
  repo_id = "org/model";
  kind = fetch;
  target_drive = lab;
  source_drive = none;
  depends_on_requirement = none;
  budget = record {
    task_id = "fetch:primary:org/model";
    requirement_id = "primary:org/model";
    repo_id = "org/model";
    kind = fetch;
    target_drive = lab;
    source_drive = none;
    missing_files = [];
    guaranteed_durable = 40;
    expected_durable = 30;
    workspace_peak_guaranteed = 10;
    workspace_peak_expected = 10;
    evidence = "estimate";
  };
}

batch_order_exact_example :
    (order : List String) × (batch_order reconciled.manifests (task "b" ∷ task "a" ∷ task "b" ∷ [])
      ≡ some order)
    × Distinct order
    × ((lab : String) → contains order lab ≡ contains ("b" ∷ "a" ∷ "b" ∷ []) lab)
unfolding get
batch_order_exact_example =
    batch_order_exact reconciled.manifests (task "b" ∷ task "a" ∷ task "b" ∷ []) refl
