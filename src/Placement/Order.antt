-- ===== src/Placement/Order.antt =====
-- modelark/placement.py: the sort keys and scores of the search, as three-way comparisons of the
-- tuples, field by field, and `is_comparable`, which a search tests first: where it fails Python may
-- compare None with a text, which raises TypeError. Integers that may be negative are ℤ.
use Prim.Native.Nat.{compare, Ordering}
use Prim.Native.String.{compare as compare_text}
use modelark.Prelude.{
  ℕ, ◌+◌, ◌-◌, String, Option, none, some, Bool, true, false, not, ◌&&◌, List, [], ◌∷◌, ◌==◌,
  if◌then◌else◌, length, sum_by, select, map, is_some, all, ◌||◌, opt_eq,
}
use modelark.Prelude.Dict.{count_at, get}
use modelark.Prelude.Int.{ℤ, sub_ℕ, pos_part, neg_part, neg}
use modelark.Prelude.Sort.{sort}
use modelark.Candidates.{
  TaskKind, fetch, replicate, Candidate, SourceIdentity, Source, source, pending_home,
}
use modelark.Placement.{
  SolverInput, SuccessorPreference, cand_durable, as_map, cands_of, unsatisfied,
}
use modelark.Placement.Partial.{
  Partial, SourceKey, source_key, pending_key, none_key, key_of_source, resolve_source,
}

-- the second comparison where the first is a tie
abbrev pub then_by : Ordering → Ordering → Ordering
then_by Ordering.eq o = o
then_by o _ = o

abbrev pub compare_ℤ : ℤ → ℤ → Ordering
compare_ℤ a b = compare (pos_part a + neg_part b) (pos_part b + neg_part a)

abbrev pub is_less : Ordering → Bool
is_less Ordering.lt = true
is_less _ = false

pub compare_list {ℓ} : {A : Type ℓ} → (A → A → Ordering) → List A → List A → Ordering
compare_list cmp [] [] = Ordering.eq
compare_list cmp [] (y ∷ ys) = Ordering.lt
compare_list cmp (x ∷ xs) [] = Ordering.gt
compare_list cmp (x ∷ xs) (y ∷ ys) = then_by (cmp x y) (compare_list cmp xs ys)

pub compare_opt : Option String → Option String → Ordering
compare_opt none none = Ordering.eq
compare_opt none (some y) = Ordering.lt
compare_opt (some x) none = Ordering.gt
compare_opt (some x) (some y) = compare_text x y

-- ("none",) < ("pending", …) < ("source", …)
pub compare_source : SourceKey → SourceKey → Ordering
unfolding compare_opt
compare_source none_key none_key = Ordering.eq
compare_source none_key _ = Ordering.lt
compare_source (pending_key r) none_key = Ordering.gt
compare_source (pending_key r) (pending_key s) = compare_text r s
compare_source (pending_key r) (source_key _ _ _) = Ordering.lt
compare_source (source_key d k o) (source_key e l q) =
    then_by (compare_text d e) (then_by (compare_opt k l) (compare_opt o q))
compare_source (source_key d k o) _ = Ordering.gt

-- None against a text, which Python does not order
abbrev mixed : Option String → Option String → Bool
mixed none (some y) = true
mixed (some x) none = true
mixed _ _ = false

-- The keys of two sources of one requirement, as they are or once a home that is pending has a drive,
-- may meet None and a text in the same place.
unfoldable pub may_raise : Source → Source → Bool
may_raise (source s) (source t) =
    (s.drive_label == t.drive_label)
    && (mixed s.annex_key t.annex_key
        || (opt_eq s.annex_key t.annex_key && mixed s.orig_sha256 t.orig_sha256))
may_raise (source s) (pending_home rid) = is_some s.annex_key || is_some s.orig_sha256
may_raise (pending_home rid) (source t) = is_some t.annex_key || is_some t.orig_sha256
may_raise _ _ = false

-- No two candidates of a requirement that is to be placed have such sources. Candidates of different
-- requirements are never compared by their sources, as their ids come before.
unfoldable pub is_comparable : SolverInput → Bool
unfolding may_raise
is_comparable inp =
    all
      (λ rid.
        let cs = cands_of inp rid in all (λ c. all (λ d. not (may_raise c.source d.source)) cs) cs)
      (unsatisfied inp)

-- task_kind.value: "fetch" < "replicate"
pub compare_kind : TaskKind → TaskKind → Ordering
compare_kind fetch fetch = Ordering.eq
compare_kind fetch replicate = Ordering.lt
compare_kind replicate fetch = Ordering.gt
compare_kind replicate replicate = Ordering.eq

abbrev pub compare_texts : List String → List String → Ordering
compare_texts = compare_list compare_text

-- baseline.get(rid)
abbrev pub baseline_of : SuccessorPreference → String → Option String
baseline_of p rid = get rid (as_map p.baseline_targets)

abbrev pub is_at : Option String → String → Bool
is_at none d = false
is_at (some b) d = b == d

-- target_preference of _candidate_sort_key
pub target_preference : Option SuccessorPreference → Candidate → ℕ
target_preference none c = 2
target_preference (some p) c =
    if c.target_drive == p.successor_drive
    then 0
    else if is_at (baseline_of p c.requirement_id) c.target_drive
    then 1
    else 2

-- _candidate_sort_key, compared
unfoldable pub compare_candidates : Option SuccessorPreference → Candidate → Candidate → Ordering
unfolding target_preference compare_source compare_kind key_of_source compare_list
compare_candidates pref a b =
    then_by (compare (target_preference pref a) (target_preference pref b)) (
      then_by (compare_text a.target_drive b.target_drive) (
        then_by (compare a.transfer_bytes b.transfer_bytes) (
          then_by (compare_source (key_of_source a.source) (key_of_source b.source)) (
            then_by (compare_kind a.task_kind b.task_kind)
              (compare_texts a.missing_files b.missing_files)))))

-- one part of `canon`
pub record CanonPart : Type 0 where
  pub requirement_id : String
  pub task_kind : TaskKind
  pub target_drive : String
  pub src : SourceKey
  pub missing_files : List String

pub compare_canon_part : CanonPart → CanonPart → Ordering
unfolding compare_kind compare_source compare_list
compare_canon_part a b = then_by (compare_text a.requirement_id b.requirement_id) (
    then_by (compare_kind a.task_kind b.task_kind) (
      then_by (compare_text a.target_drive b.target_drive)
        (then_by (compare_source a.src b.src) (compare_texts a.missing_files b.missing_files))))

-- The score tuple. Without a preference its three preference fields are 0 on both sides of every
-- comparison, so the longer tuple is compared like the shorter one.
pub record Score : Type 0 where
  pub movement : ℕ
  pub preference_gap : ℕ
  pub changed : ℕ
  pub changed_bytes : ℕ
  pub free_vec : List ℤ
  pub idle : ℤ
  pub canon : List CanonPart

-- _score_key, compared: less movement, then preference, then more free space, then fewer idle drives
unfoldable pub compare_score : Score → Score → Ordering
unfolding compare_list compare_canon_part
compare_score a b = then_by (compare a.movement b.movement) (
    then_by (compare a.preference_gap b.preference_gap) (
      then_by (compare a.changed b.changed) (
        then_by (compare a.changed_bytes b.changed_bytes) (
          then_by (compare_list compare_ℤ (map neg a.free_vec) (map neg b.free_vec)) (
            then_by (compare_ℤ a.idle b.idle) (compare_list compare_canon_part a.canon b.canon))))))

-- has a baseline target and is assigned to another drive
abbrev differs : Option SuccessorPreference → String → Candidate → Bool
differs none rid c = false
differs (some q) rid c =
    is_some (baseline_of q rid) && not (is_at (baseline_of q rid) c.target_drive)

module _ (mode : String) (pref : Option SuccessorPreference) (p : Partial) where
  -- assignments that differ from the baseline target of their requirement
  abbrev changed_from_baseline : List (String × Candidate) → List (String × Candidate)
  changed_from_baseline = select (λ a. differs pref a.0 a.1)

  abbrev gap : Option SuccessorPreference → ℕ
  gap none = 0
  gap (some q) = q.lane_bytes - count_at q.successor_drive p.durable_load

  abbrev source_of : Option SourceIdentity → SourceKey
  source_of none = none_key
  source_of (some s) = key_of_source (source s)

  canon_part : String × Candidate → CanonPart
  canon_part (rid, c) = record {
    requirement_id = rid;
    task_kind = c.task_kind;
    target_drive = c.target_drive;
    src = source_of (resolve_source p c);
    missing_files = c.missing_files;
  }

  -- _score_partial, over the sorted candidate targets
  unfoldable pub score_partial : List String → Score
  unfolding canon_part
  score_partial targets = record {
    movement = p.movement;
    preference_gap = gap pref;
    changed = length (changed_from_baseline p.assigned);
    changed_bytes = sum_by (λ a. cand_durable mode a.1) (changed_from_baseline p.assigned);
    free_vec =
        sort (λ a b. is_less (compare_ℤ b a))
          (map
            (λ lab.
              sub_ℕ (count_at lab p.free0)
                (count_at lab p.durable_load + count_at lab p.workspace_peak))
            targets);
    idle = sub_ℕ (length targets) (length p.used_drives);
    canon = map canon_part (sort (λ a b. is_less (compare_text a.0 b.0)) p.assigned);
  }

-- _static_order_keys: how many candidates fit alone, and the largest peak
pub record OrderKey : Type 0 where
  pub alone : ℕ
  pub peak : ℕ
  pub requirement_id : String

-- (alone, -peak, requirement_id), compared
unfoldable pub compare_order : OrderKey → OrderKey → Ordering
compare_order a b =
    then_by (compare a.alone b.alone)
      (then_by (compare b.peak a.peak) (compare_text a.requirement_id b.requirement_id))
