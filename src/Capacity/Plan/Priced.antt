-- ===== src/Capacity/Plan/Priced.antt =====
-- The tasks of a plan of modelark/capacity.py carry the budgets that the solver packed.
use modelark.Prelude.{
  refl, sym, ◌∙◌, ap, subst, String, Option, none, some, List, [], All, Memᴰ, arith, inl, inr,
  Option-cases, get_or, Bool, true, false, ◌≡◌, All-weaken,
}
use modelark.Prelude.Dict.{Dict, get, has, keys}
use modelark.Prelude.Sort.{Distinct}
use modelark.Candidates.{Candidate, CandidateSet}
use modelark.Placement.{SolverInput, AssignmentTask, cands_of, as_map, cand_durable, cand_workspace}
use modelark.Placement.Lookup.{as_map-Entries, get-as_map}
use modelark.Placement.Search.Invariant.{IdsMatch}
use modelark.Placement.Assignment.{task_of}
use modelark.Placement.Assignment.Listed.{IsListed}
use modelark.Capacity.{
  CapacityMode, guaranteed, compression_aware, value_of, durable_for, workspace_for,
}
use modelark.Capacity.Tasks.{
  project_task, projected_budget, match_candidate, match_in, task_budget, repo_of, names_repo,
}
use modelark.Planner.{ManifestFile}
use modelark.Capacity.Tasks.Batches.{has_manifest}
use modelark.Capacity.Tasks.Matched.{Separate, match_in-amounts, match_in-All}

-- What candidates.candidates gives: every requirement is listed once, its candidates carry its id, and
-- two of them that write to one drive have the same budget or copy from different drives.
pub record WellListed (mode : CapacityMode) (s : CandidateSet) : Type 0 where
  pub once : Distinct (keys s.by_requirement)
  pub ids : All (λ e. All (λ c. c.requirement_id ≡ e.0) e.1) s.by_requirement
  pub separate : All (λ e. Separate (value_of mode) e.1) s.by_requirement

module _ (inp : SolverInput) where
  abbrev rows : List (String × List Candidate)
  rows = inp.candidates.by_requirement

  at-cands :
      (P : String → List Candidate → Type 0) (o : Option (List Candidate)) (rid : String)
      → P rid []
      → ((cs : List Candidate) → o ≡ some cs → P rid cs)
      → P rid (get_or o [])
  at-cands P none rid n f = n
  at-cands P (some cs) rid n f = f cs refl

  cands_of-All :
      (P : String → List Candidate → Type 0)
      → ((rid : String) → P rid [])
      → All (λ e. P e.0 e.1) rows
      → (rid : String) → P rid (cands_of inp rid)
  unfolding cands_of
  cands_of-All P n ps rid =
      at-cands P (get rid (as_map rows)) rid (n rid) (as_map-Entries P rows ps rid)

  pub WellListed-IdsMatch : (mode : CapacityMode) → WellListed mode inp.candidates → IdsMatch inp
  WellListed-IdsMatch mode w =
      cands_of-All (λ rid cs. All (λ c. c.requirement_id ≡ rid) cs) (λ rid. tt) w.ids

  -- the row of a requirement is what its candidates are looked up in
  cands_of-row :
      Distinct (keys rows)
      → (rid : String) (c : Candidate) → Memᴰ c (cands_of inp rid)
      → get rid rows ≡ some (cands_of inp rid)
  unfolding cands_of
  cands_of-row d rid c h = elim (Option-cases (get rid rows)) [
    | inl e ↦ let g : Memᴰ c [] = rw (get-as_map rid rows d, e) at h in elim g [ ]
    | inr (cs, e) ↦ rw (get-as_map rid rows d, e) refl
  ]

-- The id names a repository that has a manifest.
unfoldable pub is_known : Dict (List ManifestFile) → String → Bool
is_known manifests rid = elim (repo_of rid) [ none ↦ false | some repo ↦ has repo manifests ]

known-repo :
    (manifests : Dict (List ManifestFile)) (rid : String)
    → is_known manifests rid ≡ true
    → (repo : String) × (repo_of rid ≡ some repo) × (has repo manifests ≡ true)
unfolding is_known
known-repo manifests rid k = elim (Option-cases (repo_of rid)) [
  | inl e ↦ let g = rw (e, is_known) at k in cc
  | inr (repo, e) ↦ (repo, e, rw (e, is_known) at k)
]

-- So it is with every id under which candidates are listed.
abbrev pub Known : Dict (List ManifestFile) → CandidateSet → Type 0
Known manifests s = All (λ e. is_known manifests e.0 ≡ true) s.by_requirement

-- of a task for a candidate that is listed
pub cands_of-is_known :
    (manifests : Dict (List ManifestFile)) (inp : SolverInput)
    → Known manifests inp.candidates
    → (rid : String) (c : Candidate) → Memᴰ c (cands_of inp rid)
    → is_known manifests rid ≡ true
cands_of-is_known manifests inp k =
    cands_of-All inp (λ rid cs. (c : Candidate) → Memᴰ c cs → is_known manifests rid ≡ true)
      (λ rid c h. elim h [ ]) (All-weaken _ _ (rows inp) (λ e h c m. h) k)

module _ (mode : CapacityMode) (inp : SolverInput) where
  -- The task of the plan has the bytes that the solver counted.
  pub record Priced (t : AssignmentTask) : Type 0 where
    pub durable : durable_for mode (project_task inp.candidates.by_requirement t).budget ≡ t.durable
    pub workspace :
        workspace_for mode (project_task inp.candidates.by_requirement t).budget ≡ t.workspace
    pub matched : Candidate
    pub found : match_candidate inp.candidates.by_requirement t ≡ some matched
    pub own : matched.requirement_id ≡ t.requirement_id

  projected-durable :
      (t : AssignmentTask) (m : Candidate)
      → durable_for mode (projected_budget t (some m)) ≡ cand_durable (value_of mode) m
  unfolding projected_budget task_budget value_of cand_durable
  projected-durable t m =
      elim mode
        as (λ k. durable_for k (projected_budget t (some m)) ≡ cand_durable (value_of k) m) [
          | guaranteed ↦ refl
          | compression_aware ↦ refl
        ]

  projected-workspace :
      (t : AssignmentTask) (m : Candidate)
      → workspace_for mode (projected_budget t (some m)) ≡ cand_workspace (value_of mode) m
  unfolding projected_budget task_budget value_of cand_workspace
  projected-workspace t m =
      elim mode
        as (λ k. workspace_for k (projected_budget t (some m)) ≡ cand_workspace (value_of k) m) [
          | guaranteed ↦ refl
          | compression_aware ↦ refl
        ]

  matched-row :
      (t : AssignmentTask) (cs : List Candidate) (m : Candidate)
      → get t.requirement_id inp.candidates.by_requirement ≡ some cs
      → match_in cs t ≡ some m
      → match_candidate inp.candidates.by_requirement t ≡ some m
  unfolding match_candidate
  matched-row t cs m row h = rw (row, match_candidate) h

  pub listed-Priced :
      (t : AssignmentTask)
      → inp.capacity_mode ≡ value_of mode
      → WellListed mode inp.candidates
      → IsListed inp t
      → Priced t
  unfolding project_task match_candidate task_of
  listed-Priced t same w (p, c, e, id, mem) =
      let row = cands_of-row inp w.once t.requirement_id c mem in
      let sep =
        cands_of-All inp (λ rid cs. Separate (value_of mode) cs) (λ rid. tt) w.separate
          t.requirement_id in
      let (m, found, amounts) =
        match_in-amounts (value_of mode) p c (cands_of inp t.requirement_id) t.requirement_id sep
          mem in
      let made = subst (λ k. t ≡ task_of k p t.requirement_id c) same e in
      let matched =
        matched-row t (cands_of inp t.requirement_id) m row
          (subst (λ u. match_in (cands_of inp t.requirement_id) u ≡ some m) (sym made) found) in
      record {
        durable =
            ap (λ o. durable_for mode (projected_budget t o)) matched
            ∙ projected-durable t m
            ∙ ground (arith, amounts)
            ∙ sym (ap (λ u. u.durable) made);
        workspace =
            ap (λ o. workspace_for mode (projected_budget t o)) matched
            ∙ projected-workspace t m
            ∙ ground (arith, amounts)
            ∙ sym (ap (λ u. u.workspace) made);
        matched = m;
        found = matched;
        own =
            match_in-All (λ x. x.requirement_id ≡ t.requirement_id) (cands_of inp t.requirement_id)
              t m (WellListed-IdsMatch inp mode w t.requirement_id)
              (subst (λ u. match_in (cands_of inp t.requirement_id) u ≡ some m) (sym made) found);
      }

  -- A task of a known requirement is projected without an exception, and its repository has a manifest.
  pub project_task-names_repo :
      (manifests : Dict (List ManifestFile)) (t : AssignmentTask)
      → Priced t
      → is_known manifests t.requirement_id ≡ true
      → let u = project_task inp.candidates.by_requirement t in
        (names_repo u ≡ true) × (has_manifest manifests u ≡ true)
  unfolding project_task projected_budget task_budget names_repo is_known
  project_task-names_repo manifests t p k =
      let (repo, e, h) = known-repo manifests t.requirement_id k in
      let named : repo_of p.matched.requirement_id ≡ some repo =
        subst (λ i. repo_of i ≡ some repo) (sym p.own) e in
      rw (p.found, named) (refl, h)
