-- ===== src/Placement/Scored.antt =====
-- modelark/placement.py, _score: the score of an assignment, which improve attaches to its result.
use Prim.Native.String.{compare as compare_text}
use modelark.Prelude.{
  ℕ, ◌+◌, ◌-◌, String, Option, none, some, Bool, false, not, ◌&&◌, List, ◌==◌, length, sum_by,
  max_by, contains, select, map, is_some,
}
use modelark.Prelude.Dict.{Dict, count_at}
use modelark.Prelude.Int.{pos, sub_ℕ}
use modelark.Prelude.Sort.{sort}
use modelark.Candidates.{source}
use modelark.Placement.{AssignmentTask, CanonicalAssignment, SuccessorPreference}
use modelark.Placement.Partial.{none_key, key_of_source}
use modelark.Placement.Order.{Score, CanonPart, baseline_of, is_at, is_less, compare_ℤ}

-- the loads of one drive
abbrev task_load : List AssignmentTask → String → ℕ
task_load ts lab = sum_by (λ t. t.durable) (select (λ t. t.target_drive == lab) ts)

abbrev task_peak : List AssignmentTask → String → ℕ
task_peak ts lab = max_by (λ t. t.workspace) (select (λ t. t.target_drive == lab) ts)

-- baseline.get(t.requirement_id) not in (None, t.target_drive)
abbrev has_moved : Option SuccessorPreference → AssignmentTask → Bool
has_moved none t = false
has_moved (some q) t =
    is_some (baseline_of q t.requirement_id)
    && not (is_at (baseline_of q t.requirement_id) t.target_drive)

abbrev task_gap : Option SuccessorPreference → List AssignmentTask → ℕ
task_gap none ts = 0
task_gap (some q) ts = q.lane_bytes - task_load ts q.successor_drive

task_part : AssignmentTask → CanonPart
task_part t = record {
  requirement_id = t.requirement_id;
  task_kind = t.task_kind;
  target_drive = t.target_drive;
  src = elim t.source [ none ↦ none_key | some s ↦ key_of_source (source s) ];
  missing_files = t.missing_files;
}

-- _score, over the sorted candidate targets
unfoldable pub score_assignment :
    Option SuccessorPreference → Dict ℕ → List String → CanonicalAssignment → Score
unfolding task_part
score_assignment pref free0 targets a = record {
  movement = sum_by (λ t. t.movement_cost) a.tasks;
  preference_gap = task_gap pref a.tasks;
  changed = length (select (has_moved pref) a.tasks);
  changed_bytes = sum_by (λ t. t.durable) (select (has_moved pref) a.tasks);
  free_vec =
      sort (λ a b. is_less (compare_ℤ b a))
        (map (λ lab. sub_ℕ (count_at lab free0) (task_load a.tasks lab + task_peak a.tasks lab))
          targets);
  idle =
      pos (length (select (λ lab. not (contains (map (λ t. t.target_drive) a.tasks) lab)) targets));
  canon =
      map task_part
        (sort (λ t u. is_less (compare_text t.requirement_id u.requirement_id)) a.tasks);
}
