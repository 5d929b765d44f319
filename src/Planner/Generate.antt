-- ===== src/Planner/Generate.antt =====
-- modelark/candidates.py: candidates, and what it calls. The budgets of modelark/budgets.py, which
-- round floats, are the arguments `fetch_budget` and `replica_budget`; `content_satisfies` is
-- archive_hash.content_satisfies on a file and its row, which compares hexadecimal digests.
use modelark.Prelude.{
  any, String, Option, none, some, Bool, true, false, not, ◌&&◌, List, [], ◌∷◌, ◌++◌, ◌==◌,
  if◌then◌else◌, contains, map, get_or, select, all, text_lt, opt_eq_ℕ,
}
use modelark.Prelude.Dict.{get, has}
use modelark.Prelude.Sort.{sort, sort_texts}
use modelark.Candidates.{
  RequirementKind, protected_replica, TaskKind, fetch, replicate, CopyRequirement, SourceIdentity,
  Source, source, pending_home, no_source, Candidate, CandidateBudget, Satisfaction, DriftRow,
  BlockedRequirement, CandidateSet,
}
use modelark.Placement.{req_of, as_map}
use modelark.Planner.{ManifestFile, ArchivedFileFact, PlannerInput, accepted_complete_pool, labels}

-- verdicts of _proof
pub data Proof : Type 0 where
  missing proven unproven : Proof

abbrev is_missing : Proof → Bool
is_missing missing = true
is_missing _ = false

abbrev pub is_proven : Proof → Bool
is_proven proven = true
is_proven _ = false

abbrev is_unproven : Proof → Bool
is_unproven unproven = true
is_unproven _ = false

abbrev same_row : String → String → String → ArchivedFileFact → Bool
same_row repo lab file row =
    (row.repo_id == repo) && (row.drive_label == lab) && (row.rfilename == file)

-- archived.get((repo, label), {}).get(rfilename): the last such row
last_row :
    (ArchivedFileFact → Bool)
    → List ArchivedFileFact
    → Option ArchivedFileFact
    → Option ArchivedFileFact
last_row p [] found = found
last_row p (r ∷ rs) found = last_row p rs (if p r then some r else found)

unfoldable pub row_of : PlannerInput → String → String → String → Option ArchivedFileFact
unfolding last_row
row_of inp repo lab file = last_row (same_row repo lab file) inp.archived none

-- manifests[req.repo_id]; `candidates` tests that it is there
abbrev pub manifest_of : PlannerInput → String → List ManifestFile
manifest_of inp repo = get_or (get repo (as_map inp.manifests)) []

abbrev by_name : List ManifestFile → List String
by_name files = sort_texts (map (λ f. f.rfilename) files)

abbrev pub is_replica_kind : RequirementKind → Bool
is_replica_kind protected_replica = true
is_replica_kind _ = false

module _ (content_satisfies : ManifestFile → ArchivedFileFact → Bool)
    (fetch_budget : List ManifestFile → CandidateBudget)
    (replica_budget : String → Source → List ManifestFile → CandidateBudget)
    (inp : PlannerInput) where
  -- _proof
  abbrev pub proof : ManifestFile → Option ArchivedFileFact → Proof
  proof mf none = missing
  proof mf (some row) =
      if not (opt_eq_ℕ row.orig_bytes (some mf.size_bytes))
      then unproven
      else if content_satisfies mf row
      then proven
      else unproven

  abbrev pub proof_at : String → String → ManifestFile → Proof
  proof_at repo lab mf = proof mf (row_of inp repo lab mf.rfilename)

  -- the files of the manifest of a repository with a verdict on a drive
  abbrev pub files_with : (Proof → Bool) → String → String → List ManifestFile
  files_with p repo lab = select (λ mf. p (proof_at repo lab mf)) (manifest_of inp repo)

  -- target_blocked
  unfoldable pub target_blocked : String → String → Bool
  target_blocked repo lab = any (λ mf. is_unproven (proof_at repo lab mf)) (manifest_of inp repo)

  abbrev nonempty {ℓ} : {A : Type ℓ} → List A → Bool
  nonempty [] = false
  nonempty (_ ∷ _) = true

  -- `valid` holds the label
  unfoldable pub is_valid : CopyRequirement → String → Bool
  unfolding target_blocked
  is_valid req lab =
      not (target_blocked req.repo_id lab)
      && nonempty (files_with is_missing req.repo_id lab)
      && contains req.eligible_drives lab

  -- `complete` holds the label
  unfoldable pub is_complete_copy : CopyRequirement → String → Bool
  is_complete_copy req lab =
      not (target_blocked req.repo_id lab) && not (nonempty (files_with is_missing req.repo_id lab))

  -- rows and all(_proof(…) == "proven"): any row of the repository on the drive
  abbrev pub holds_all : String → String → Bool
  holds_all repo lab =
      any (λ row. (row.repo_id == repo) && (row.drive_label == lab)) inp.archived
      && all (λ mf. is_proven (proof_at repo lab mf)) (manifest_of inp repo)

  -- key, orig of the row of a manifest of one file
  abbrev identity_of : String → List ManifestFile → String → SourceIdentity
  identity_of repo (mf ∷ []) lab = elim (row_of inp repo lab mf.rfilename) [
    | none ↦ record { drive_label = lab; annex_key = none; orig_sha256 = none }
    | some row ↦ record {
      drive_label = lab;
      annex_key = row.annex_key;
      orig_sha256 = row.orig_sha256;
    }
  ]
  identity_of repo _ lab = record { drive_label = lab; annex_key = none; orig_sha256 = none }

  abbrev pool_of : Option CopyRequirement → List String
  pool_of none = []
  pool_of (some home) = accepted_complete_pool home inp.drives

  abbrev home_of : List CopyRequirement → Option String → Option CopyRequirement
  home_of desired none = none
  home_of desired (some rid) = req_of desired rid

  -- _home_sources
  unfoldable pub home_sources : List CopyRequirement → CopyRequirement → List SourceIdentity
  home_sources desired req =
      map (identity_of req.repo_id (manifest_of inp req.repo_id))
        (select (holds_all req.repo_id) (pool_of (home_of desired req.independent_of)))

  abbrev pub reused_names : CopyRequirement → String → List String
  reused_names req lab = by_name (files_with is_proven req.repo_id lab)

  -- _fetch_candidate
  abbrev pub fetch_candidate : CopyRequirement → String → Candidate
  fetch_candidate req lab =
      let files = files_with is_missing req.repo_id lab in
      record {
        requirement_id = req.requirement_id;
        task_kind = fetch;
        target_drive = lab;
        source = no_source;
        depends_on_requirement = none;
        reused_files = reused_names req lab;
        missing_files = by_name files;
        budget = fetch_budget files;
        transfer_bytes = (fetch_budget files).guaranteed_durable;
      }

  abbrev waits_on : Source → Option String
  waits_on (pending_home rid) = some rid
  waits_on _ = none

  -- _replica_candidate
  abbrev pub replica_candidate : CopyRequirement → String → Source → Candidate
  replica_candidate req lab src =
      let files = files_with is_missing req.repo_id lab in
      record {
        requirement_id = req.requirement_id;
        task_kind = replicate;
        target_drive = lab;
        source = src;
        depends_on_requirement = waits_on src;
        reused_files = reused_names req lab;
        missing_files = by_name files;
        budget = replica_budget req.repo_id src files;
        transfer_bytes = (replica_budget req.repo_id src files).guaranteed_durable;
      }

  -- the source of a replica whose home is not archived yet
  -- PendingHome(req.independent_of); requirements gives every replica the id of its home, and
  -- PendingHome holds a text, so None has no counterpart
  abbrev pending_source : CopyRequirement → Source
  pending_source req = elim req.independent_of [ none ↦ no_source | some rid ↦ pending_home rid ]

  -- one candidate for each complete home, or one that waits for the home
  unfoldable pub sourced : CopyRequirement → String → List SourceIdentity → List Candidate
  sourced req lab [] = replica_candidate req lab (pending_source req) ∷ []
  sourced req lab (s ∷ ss) = map (λ i. replica_candidate req lab (source i)) (s ∷ ss)

  -- the candidates of one label of `valid`
  unfoldable pub offers : List CopyRequirement → CopyRequirement → String → List Candidate
  offers desired req lab =
      if is_replica_kind req.kind
      then sourced req lab (home_sources desired req)
      else fetch_candidate req lab ∷ []

  unfoldable pub offers_all : List CopyRequirement → CopyRequirement → List String → List Candidate
  offers_all desired req [] = []
  offers_all desired req (lab ∷ labs) = offers desired req lab ++ offers_all desired req labs

  -- `valid`, in the order of the labels
  abbrev pub valid_labels : CopyRequirement → List String
  valid_labels req = select (is_valid req) (accepted_complete_pool req inp.drives)

  abbrev pub complete_labels : CopyRequirement → List String
  complete_labels req = select (is_complete_copy req) (accepted_complete_pool req inp.drives)

  abbrev tag_of : Source → String
  tag_of (source i) = "source"
  tag_of (pending_home rid) = "pending"
  tag_of no_source = ""

  abbrev key_of : Source → String
  key_of (source i) = i.drive_label
  key_of (pending_home rid) = rid
  key_of no_source = ""

  abbrev kind_of : TaskKind → String
  kind_of fetch = "fetch"
  kind_of replicate = "replicate"

  -- key=lambda c: (c.target_drive, _source_key(c.source), c.task_kind.value)
  abbrev pub earlier : Candidate → Candidate → Bool
  earlier a b =
      if not (a.target_drive == b.target_drive)
      then text_lt a.target_drive b.target_drive
      else if not (tag_of a.source == tag_of b.source)
      then text_lt (tag_of a.source) (tag_of b.source)
      else if not (key_of a.source == key_of b.source)
      then text_lt (key_of a.source) (key_of b.source)
      else text_lt (kind_of a.task_kind) (kind_of b.task_kind)

  -- What a requirement adds to one of the three lists.
  pub data Outcome : Type 0 where
    held_by : List String → Outcome
    offered : List Candidate → Outcome
    blocked_by : String → Outcome

  unfoldable pub outcome_of : CopyRequirement → List Candidate → Outcome
  outcome_of req [] =
      blocked_by
        (if nonempty req.eligible_drives then "all_targets_unproven" else "no_eligible_tier")
  outcome_of req (c ∷ cs) = offered (sort earlier (c ∷ cs))

  unfoldable pub outcome : List CopyRequirement → CopyRequirement → Outcome
  unfolding outcome_of
  outcome desired req = elim (complete_labels req) [
    | [] ↦ outcome_of req (offers_all desired req (valid_labels req))
    | lab ∷ labs ↦ held_by (lab ∷ labs)
  ]

  abbrev drift_row : CopyRequirement → String → String → ManifestFile → DriftRow
  drift_row req reason lab mf = record {
    requirement_id = req.requirement_id;
    drive_label = lab;
    rfilename = mf.rfilename;
    reason = reason;
  }

  rows_for : (String → List DriftRow) → List String → List DriftRow
  rows_for f [] = []
  rows_for f (lab ∷ labs) = f lab ++ rows_for f labs

  -- the drift of one requirement: unproven files on its targets, and complete copies off its tiers
  drift_of : CopyRequirement → List DriftRow
  unfolding rows_for
  drift_of req =
      let pool = accepted_complete_pool req inp.drives in
      rows_for
        (λ lab.
          map (drift_row req "unproven_provenance" lab) (files_with is_unproven req.repo_id lab))
        (select (contains req.eligible_drives) pool)
      ++ rows_for (λ lab. map (drift_row req "wrong_tier" lab) (manifest_of inp req.repo_id))
          (select (λ lab. not (contains pool lab) && holds_all req.repo_id lab) (labels inp.drives))

  abbrev drift_before : DriftRow → DriftRow → Bool
  drift_before a b =
      if not (a.requirement_id == b.requirement_id)
      then text_lt a.requirement_id b.requirement_id
      else if not (a.drive_label == b.drive_label)
      then text_lt a.drive_label b.drive_label
      else if not (a.rfilename == b.rfilename)
      then text_lt a.rfilename b.rfilename
      else text_lt a.reason b.reason

  abbrev same_drift : DriftRow → DriftRow → Bool
  same_drift a b = not (drift_before a b) && not (drift_before b a)

  -- set(drift)
  once : List DriftRow → List DriftRow
  once [] = []
  once (r ∷ rs) = if any (same_drift r) rs then once rs else r ∷ once rs

  all_drift : List CopyRequirement → List DriftRow
  unfolding drift_of
  all_drift [] = []
  all_drift (req ∷ reqs) = drift_of req ++ all_drift reqs

  satisfied_in : List CopyRequirement → List CopyRequirement → List Satisfaction
  satisfied_in desired [] = []
  satisfied_in desired (req ∷ reqs) =
      let rest = satisfied_in desired reqs in
      elim (outcome desired req) [
        | held_by labs ↦ record { requirement_id = req.requirement_id; copies = labs } ∷ rest
        | offered cs ↦ rest
        | blocked_by reason ↦ rest
      ]

  unfoldable pub offered_in :
      List CopyRequirement → List CopyRequirement → List (String × List Candidate)
  offered_in desired [] = []
  offered_in desired (req ∷ reqs) =
      let rest = offered_in desired reqs in
      elim (outcome desired req) [
        | held_by labs ↦ rest
        | offered cs ↦ (req.requirement_id, cs) ∷ rest
        | blocked_by reason ↦ rest
      ]

  blocked_in : List CopyRequirement → List CopyRequirement → List BlockedRequirement
  blocked_in desired [] = []
  blocked_in desired (req ∷ reqs) =
      let rest = blocked_in desired reqs in
      elim (outcome desired req) [
        | held_by labs ↦ rest
        | offered cs ↦ rest
        | blocked_by reason ↦ record { requirement_id = req.requirement_id; reason = reason } ∷ rest
      ]

  -- the result of candidates; `satisfied`, `by_requirement` and `blocked` in the order of their ids
  unfoldable pub candidate_set : List CopyRequirement → CandidateSet
  unfolding satisfied_in offered_in blocked_in all_drift once
  candidate_set desired = record {
    satisfied =
        sort (λ a b. text_lt a.requirement_id b.requirement_id) (satisfied_in desired desired);
    by_requirement = sort (λ a b. text_lt a.0 b.0) (offered_in desired desired);
    drift = sort drift_before (once (all_drift desired));
    blocked = sort (λ a b. text_lt a.requirement_id b.requirement_id) (blocked_in desired desired);
  }

  -- candidates; `none` is the KeyError of manifests[req.repo_id], which the loop meets at the latest
  -- when it comes to that requirement
  unfoldable pub candidates : List CopyRequirement → Option CandidateSet
  unfolding candidate_set
  candidates desired =
      if all (λ req. has req.repo_id (as_map inp.manifests)) desired
      then some (candidate_set desired)
      else none
