-- ===== src/Planner/Examples.antt =====
-- A repository of one file and two primary drives of modelark/candidates.py, one of which holds a file
-- that is not proven, and what the theorems say of them.
use modelark.Prelude.{
  refl, String, Option, none, some, Bool, true, false, List, [], ◌∷◌, opt_eq, All, ◌≡◌, ◌==◌,
}
use mathlib.Core.List.Memᴰ.{head}
use modelark.Prelude.Distinct.{distinct}
use modelark.Prelude.Dict.{get, put}
use modelark.Digest.{
  content_satisfies, expected_sha256, resolve, hex64, annex_source, values, sources, by_values,
  satisfied_by,
}
use modelark.Digest.Agreement.{Resolvable}
use modelark.Candidates.{DriveFact, CopyRequirement, CandidateBudget, Source}
use modelark.Placement.{SolverInput, as_map}
use modelark.Placement.Search.Invariant.{IdsMatch}
use modelark.Planner.{ManifestFile, ArchivedFileFact, PlannerInput, requirements}
use modelark.Planner.Generate.{candidates, candidate_set, row_of}
use modelark.Planner.Copies.{holds_all-approved}
use modelark.Planner.Targets.{Lawful, candidates-Lawful, candidates-IdsMatch}

abbrev drive : String → DriveFact
drive label = record {
  drive_label = label;
  role = "primary";
  raid_backed = false;
  capacity_bytes = 100;
  filesystem_capacity_bytes = some 100;
  identity_epoch = 1;
  fs_uuid = some label;
  annex_uuid = none;
  serial = none;
  lifecycle = "active";
  eligibility = "enabled";
}

abbrev planner_input : PlannerInput
planner_input = record {
  manifests = ("m", record { rfilename = "f"; size_bytes = 40; sha256 = some "aa" } ∷ []) ∷ [];
  numcopies = ("m", 1) ∷ [];
  drives = drive "a" ∷ drive "b" ∷ [];
  archived =
      record {
        repo_id = "m";
        drive_label = "b";
        rfilename = "f";
        orig_sha256 = some "bb";
        orig_bytes = some 40;
        stored_bytes = some 40;
        annex_key = none;
        compressed = false;
      }
      ∷ [];
}

abbrev satisfies : ManifestFile → ArchivedFileFact → Bool
satisfies mf row = opt_eq mf.sha256 row.orig_sha256

abbrev budget : CandidateBudget
budget = record {
  guaranteed_durable = 40;
  expected_durable = 30;
  workspace_peak_guaranteed = 10;
  workspace_peak_expected = 10;
  evidence = "hub";
}

abbrev by_files : List ManifestFile → CandidateBudget
by_files files = budget

abbrev by_source : String → Source → List ManifestFile → CandidateBudget
by_source repo src files = budget

abbrev desired : List CopyRequirement
desired = requirements planner_input

abbrev solver_input : SolverInput
solver_input = record {
  desired = desired;
  candidates = candidate_set satisfies by_files by_source planner_input desired;
  drives = planner_input.drives;
  executable_budget = ("a", 60) ∷ [];
  max_usable_for_epoch = [];
  drive_evidence = [];
  capacity_mode = "guaranteed";
  bounds = record { feasibility_state_limit = 10; optimization_state_limit = 10 };
  preference = none;
}

lists :
    candidates satisfies by_files by_source planner_input desired
    ≡ some (candidate_set satisfies by_files by_source planner_input desired)
unfolding candidates as_map get put modelark.Planner.requirements modelark.Prelude.Sort.sort
    modelark.Planner.required
lists = refl

candidates-Lawful_example :
    All
      (λ e. All (Lawful satisfies by_files by_source planner_input desired e.0) e.1)
      (candidate_set satisfies by_files by_source planner_input desired).by_requirement
candidates-Lawful_example =
    candidates-Lawful satisfies by_files by_source planner_input desired
      (candidate_set satisfies by_files by_source planner_input desired) lists

candidates-IdsMatch_example : IdsMatch solver_input
candidates-IdsMatch_example =
    candidates-IdsMatch satisfies by_files by_source planner_input desired solver_input lists

-- the planner's input with a row that is proven
abbrev with_copy : PlannerInput
with_copy = record planner_input {
  archived =
      record {
        repo_id = "m";
        drive_label = "a";
        rfilename = "f";
        orig_sha256 = some "aa";
        orig_bytes = some 40;
        stored_bytes = some 30;
        annex_key = none;
        compressed = true;
      }
      ∷ [];
}

abbrev same : String → String
same text = text

abbrev hex : String → Bool
hex text = text == "aa"

abbrev no_key : String → Option String
no_key key = none

holds_all-approved_example :
    (row : ArchivedFileFact) × (row_of with_copy "m" "a" "f" ≡ some row)
    × (row.orig_bytes ≡ some 40)
    × ((s : String)
        → Resolvable same same hex no_key "aa" row.orig_sha256 row.compressed row.annex_key s
        → (same s == same "aa") ≡ true)
unfolding row_of content_satisfies expected_sha256 resolve hex64 annex_source values sources
    by_values distinct satisfied_by get as_map put
holds_all-approved_example =
    holds_all-approved same same hex no_key by_files by_source with_copy "m" "a"
      (record { rfilename = "f"; size_bytes = 40; sha256 = some "aa" }) "aa" refl (head refl) refl
      refl
