-- ===== src/Capacity/Tasks.antt =====
-- modelark/capacity.py: the tasks of an assignment with the budgets of their candidates, and the order
-- of the drives in which they run. `none` is an exception: the IndexError of an id without a colon, and
-- the KeyError of a repository without a manifest.
pub mod Matched
pub mod Batches
use Prim.Native.Nat.{compare, Ordering}
use Prim.Native.String.{compare as compare_text, len, slice}
use text.Mathlib.Text.{find?, starts_with}
use modelark.Prelude.{
  ℕ, ◌+◌, ltb, String, Option, none, some, Bool, true, false, not, ◌&&◌, List, [], ◌∷◌, ◌++◌, ◌==◌,
  if◌then◌else◌, map, select, sum_by, get_or, length, opt_eq, is_none, is_some, all,
}
use modelark.Prelude.Dict.{Dict, get, put}
use modelark.Prelude.Sort.{sort}
use modelark.Candidates.{
  TaskKind, fetch, replicate, SourceIdentity, Source, source, pending_home, no_source, Candidate,
}
use modelark.Planner.{ManifestFile}
use modelark.Placement.{AssignmentTask, CanonicalAssignment}
use modelark.Placement.Order.{then_by, is_less, compare_kind}
use modelark.Capacity.{TaskBudget, AssignedTask, task_id_of}

abbrev part_after : String → Option ℕ → Option String
part_after rid none = none
part_after rid (some i) = some (slice rid (i + 1) (len rid))

-- requirement_id.split(":", 1)[1]; `none` is its IndexError
unfoldable pub repo_of : String → Option String
repo_of rid = part_after rid (find? rid ":")

abbrev pub source_drive_of : Source → Option String
source_drive_of (source s) = some s.drive_label
source_drive_of _ = none

-- _task_budget; project_assigned_tasks raises where the repository is missing
unfoldable pub task_budget : Candidate → TaskBudget
task_budget c = record {
  task_id = task_id_of c.task_kind c.requirement_id;
  requirement_id = c.requirement_id;
  repo_id = get_or (repo_of c.requirement_id) "";
  kind = c.task_kind;
  target_drive = c.target_drive;
  source_drive = source_drive_of c.source;
  missing_files = c.missing_files;
  guaranteed_durable = c.budget.guaranteed_durable;
  expected_durable = c.budget.expected_durable;
  workspace_peak_guaranteed = c.budget.workspace_peak_guaranteed;
  workspace_peak_expected = c.budget.workspace_peak_expected;
  evidence = c.budget.evidence;
}

-- the three fields that _match_candidate compares
abbrev pub same_source : SourceIdentity → SourceIdentity → Bool
same_source a b =
    (a.drive_label == b.drive_label)
    && opt_eq a.annex_key b.annex_key
    && opt_eq a.orig_sha256 b.orig_sha256

-- whether one turn of the loop of _match_candidate returns the candidate
abbrev pub source_matches : Source → Option SourceIdentity → Bool
source_matches (source s) (some t) = same_source s t
source_matches (source s) none = false
source_matches (pending_home rid) (some t) = is_none t.annex_key && is_none t.orig_sha256
source_matches (pending_home rid) none = false
source_matches no_source (some t) = false
source_matches no_source none = true

-- for c in matches: …; return matches[0]
unfoldable pub first_matching : Option SourceIdentity → Candidate → List Candidate → Candidate
first_matching t default [] = default
first_matching t default (c ∷ cs) =
    let rest = first_matching t default cs in if source_matches c.source t then c else rest

abbrev pub pick : Option SourceIdentity → List Candidate → Option Candidate
pick t [] = none
pick t (c ∷ []) = some c
pick t (c ∷ d ∷ cs) = some (first_matching t c (c ∷ d ∷ cs))

-- the candidates of one requirement that write to the target of the task
unfoldable pub match_in : List Candidate → AssignmentTask → Option Candidate
unfolding first_matching
match_in cs task = pick task.source (select (λ c. c.target_drive == task.target_drive) cs)

-- _match_candidate
unfoldable pub match_candidate : Dict (List Candidate) → AssignmentTask → Option Candidate
unfolding match_in
match_candidate by_requirement task = elim (get task.requirement_id by_requirement) [
  | none ↦ none
  | some cs ↦ match_in cs task
]

-- the budget of a task for which no candidate is found
unfoldable pub bare_budget : AssignmentTask → TaskBudget
bare_budget t = record {
  task_id = task_id_of t.task_kind t.requirement_id;
  requirement_id = t.requirement_id;
  repo_id = get_or (repo_of t.requirement_id) "";
  kind = t.task_kind;
  target_drive = t.target_drive;
  source_drive = elim t.source [ none ↦ none | some s ↦ some s.drive_label ];
  missing_files = t.missing_files;
  guaranteed_durable = t.guaranteed_durable;
  expected_durable = t.expected_durable;
  workspace_peak_guaranteed = t.workspace_peak_guaranteed;
  workspace_peak_expected = t.workspace_peak_expected;
  evidence = t.budget_evidence;
}

-- source_drive after the replace: that of the task, or None for a home that is pending
abbrev resourced : Option SourceIdentity → Source → Option String
resourced (some s) _ = some s.drive_label
resourced none (pending_home rid) = none
resourced none from = source_drive_of from

unfoldable pub projected_budget : AssignmentTask → Option Candidate → TaskBudget
unfolding bare_budget task_budget
projected_budget t none = bare_budget t
projected_budget t (some c) = record (task_budget c) { source_drive = resourced t.source c.source }

unfoldable pub project_task : Dict (List Candidate) → AssignmentTask → AssignedTask
unfolding projected_budget match_candidate
project_task by_requirement t =
    let budget = projected_budget t (match_candidate by_requirement t) in
    record {
      task_id = budget.task_id;
      requirement_id = t.requirement_id;
      repo_id = budget.repo_id;
      kind = t.task_kind;
      target_drive = t.target_drive;
      source_drive = budget.source_drive;
      depends_on_requirement = t.depends_on_requirement;
      budget = budget;
    }

-- (target_drive, kind.value, requirement_id)
unfoldable pub task_before : AssignedTask → AssignedTask → Bool
task_before a b = is_less (
    then_by (compare_text a.target_drive b.target_drive)
      (then_by (compare_kind a.kind b.kind) (compare_text a.requirement_id b.requirement_id)))

-- the tasks of the assignment in their order
unfoldable pub projected_tasks : Dict (List Candidate) → CanonicalAssignment → List AssignedTask
unfolding project_task
projected_tasks by_requirement a = sort task_before (map (project_task by_requirement) a.tasks)

-- the budget of the task was made from an id that names a repository
unfoldable pub names_repo : AssignedTask → Bool
names_repo t = is_some (repo_of t.budget.requirement_id)

-- _project_assigned_tasks; the IndexError of one task is that of the call
unfoldable pub project_assigned_tasks :
    Dict (List Candidate) → CanonicalAssignment → Option (List AssignedTask)
unfolding projected_tasks names_repo
project_assigned_tasks by_requirement a =
    let tasks = projected_tasks by_requirement a in
    if all names_repo tasks then some tasks else none

-- the tuple of execution_rank
pub record Rank : Type 0 where
  pub tier : ℕ
  pub raw_size : ℕ
  pub repo_id : String
  pub requirement_id : String

unfoldable pub rank_tier : TaskKind → Bool → ℕ → String → ℕ
rank_tier replicate resumes_partial size rid = 4
rank_tier fetch resumes_partial size rid =
    if resumes_partial
    then 0
    else if ltb 250000000000 size
    then 1
    else if starts_with rid "protected_home:"
    then 2
    else 3

-- the rank of a task whose repository has this manifest
abbrev pub rank_in : List ManifestFile → AssignedTask → Rank
rank_in manifest t =
    let size = sum_by (λ f. f.size_bytes) manifest in
    record {
      tier =
          rank_tier t.kind (ltb (length t.budget.missing_files) (length manifest)) size
            t.requirement_id;
      raw_size = size;
      repo_id = t.repo_id;
      requirement_id = t.requirement_id;
    }

-- execution_rank; `none` is the KeyError of a repository without a manifest
unfoldable pub execution_rank : Dict (List ManifestFile) → AssignedTask → Option Rank
unfolding rank_tier
execution_rank manifests t = elim (get t.repo_id manifests) [
  | none ↦ none
  | some manifest ↦ some (rank_in manifest t)
]

-- (tier, -raw_size, repo_id, requirement_id), compared
unfoldable pub compare_rank : Rank → Rank → Ordering
compare_rank a b = then_by (compare a.tier b.tier) (
    then_by (compare b.raw_size a.raw_size)
      (then_by (compare_text a.repo_id b.repo_id) (compare_text a.requirement_id b.requirement_id)))

-- min of the ranks of a drive: of equal ones the first
abbrev pub least : Rank → Option Rank → Rank
least r none = r
least r (some old) = if is_less (compare_rank r old) then r else old

-- by_drive, with the least rank of each drive so far
unfoldable pub by_drive :
    Dict (List ManifestFile) → List AssignedTask → Dict Rank → Option (Dict Rank)
by_drive manifests [] found = some found
by_drive manifests (t ∷ ts) found = elim (execution_rank manifests t) [
  | none ↦ none
  | some rank ↦
      by_drive manifests ts (put t.target_drive (least rank (get t.target_drive found)) found)
]

-- (*rank, label), compared
unfoldable pub batch_before : String × Rank → String × Rank → Bool
unfolding compare_rank
batch_before (l, r) (m, s) = is_less (then_by (compare_rank r s) (compare_text l m))

-- _batch_order
unfoldable pub batch_order : Dict (List ManifestFile) → List AssignedTask → Option (List String)
unfolding by_drive batch_before
batch_order manifests tasks = elim (by_drive manifests tasks []) [
  | none ↦ none
  | some ranks ↦ some (map (λ e. e.0) (sort batch_before ranks))
]
