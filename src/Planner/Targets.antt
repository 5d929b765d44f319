-- ===== src/Planner/Targets.antt =====
-- The target drives and the ids of the candidates that modelark/candidates.py lists.
use modelark.Prelude.{
  String, Option, none, some, Bool, true, false, List, [], ◌∷◌, ◌++◌, contains, map, select, All,
  arith, ◌≡◌, refl, subst, Bool-cases, inl, inr, get_or, Memᴰ, All-from, all,
}
use modelark.Prelude.Dict.{get, has}
use modelark.Prelude.Sort.{All-sort}
use modelark.Candidates.{
  CopyRequirement, SourceIdentity, Source, source, Candidate, CandidateBudget, CandidateSet,
}
use modelark.Placement.{SolverInput, as_map, cands_of}
use modelark.Placement.Lookup.{as_map-Entries}
use modelark.Placement.Search.Invariant.{IdsMatch}
use modelark.Planner.{ManifestFile, ArchivedFileFact, PlannerInput, accepted_complete_pool}
use modelark.Planner.Generate.{
  target_blocked, is_valid, home_sources, complete_labels, sourced, is_replica_kind, offers,
  offers_all, valid_labels, replica_candidate, earlier, Outcome, held_by, offered, blocked_by,
  outcome, outcome_of, offered_in, candidates, candidate_set,
}

given : (a b : CandidateSet) → some a ≡ some b → a ≡ b
given a b h = cc

All-append {ℓ κ} :
    {A : Type ℓ} (P : A → Type κ) (xs ys : List A) → All P xs → All P ys → All P (xs ++ ys)
All-append P [] ys p q = q
All-append P (x ∷ xs) ys (h, p) q = (h, All-append P xs ys p q)

All-passing : (p : String → Bool) (xs : List String) → All (λ x. p x ≡ true) (select p xs)
All-passing p [] = tt
All-passing p (x ∷ xs) = elim (Bool-cases (p x)) [
  | inl e ↦ rw e (e, All-passing p xs)
  | inr e ↦ rw e (All-passing p xs)
]

module _ (content_satisfies : ManifestFile → ArchivedFileFact → Bool)
    (fetch_budget : List ManifestFile → CandidateBudget)
    (replica_budget : String → Source → List ManifestFile → CandidateBudget)
    (inp : PlannerInput) where
  -- The candidate is listed under its own id, for a requirement of the graph with that id whose
  -- eligible drives the target is among, and no file of the repository on the target is unproven.
  abbrev pub Lawful : List CopyRequirement → String → Candidate → Type 0
  Lawful desired rid c =
      (req : CopyRequirement) × Memᴰ req desired
      × (req.requirement_id ≡ rid)
      × (c.requirement_id ≡ rid)
      × (contains req.eligible_drives c.target_drive ≡ true)
      × (target_blocked content_satisfies fetch_budget replica_budget inp req.repo_id c.target_drive
          ≡ false)

  valid-allowed :
      (req : CopyRequirement) (lab : String)
      → is_valid content_satisfies fetch_budget replica_budget inp req lab ≡ true
      → (contains req.eligible_drives lab ≡ true)
        × (target_blocked content_satisfies fetch_budget replica_budget inp req.repo_id lab ≡ false)
  unfolding is_valid
  valid-allowed req lab h = ground arith

  module _ (desired : List CopyRequirement) (req : CopyRequirement) (m : Memᴰ req desired) where
    abbrev Ours : List Candidate → Type 0
    Ours = All (Lawful desired req.requirement_id)

    abbrev Valid : String → Type 0
    Valid lab = is_valid content_satisfies fetch_budget replica_budget inp req lab ≡ true

    replicas-Lawful :
        (lab : String) (ss : List SourceIdentity)
        → Valid lab
        → Ours (
            map
              (λ i.
                replica_candidate content_satisfies fetch_budget replica_budget inp req lab
                  (source i))
              ss)
    replicas-Lawful lab [] v = tt
    replicas-Lawful lab (s ∷ ss) v =
        let (a, b) = valid-allowed req lab v in
        ((req, m, refl, refl, a, b), replicas-Lawful lab ss v)

    sourced-Lawful :
        (lab : String) (ss : List SourceIdentity)
        → Valid lab
        → Ours (sourced content_satisfies fetch_budget replica_budget inp req lab ss)
    unfolding sourced
    sourced-Lawful lab [] v =
        let (a, b) = valid-allowed req lab v in ((req, m, refl, refl, a, b), tt)
    sourced-Lawful lab (s ∷ ss) v = replicas-Lawful lab (s ∷ ss) v

    offers-Lawful :
        (lab : String)
        → Valid lab
        → Ours (offers content_satisfies fetch_budget replica_budget inp desired req lab)
    unfolding offers
    offers-Lawful lab v = elim (Bool-cases (is_replica_kind req.kind)) [
      | inl e ↦ rw e (
          sourced-Lawful lab
            (home_sources content_satisfies fetch_budget replica_budget inp desired req) v)
      | inr e ↦ rw e (let (a, b) = valid-allowed req lab v in ((req, m, refl, refl, a, b), tt))
    ]

    offers_all-Lawful :
        (labs : List String)
        → All Valid labs
        → Ours (offers_all content_satisfies fetch_budget replica_budget inp desired req labs)
    unfolding offers_all
    offers_all-Lawful [] v = tt
    offers_all-Lawful (lab ∷ labs) (h, v) =
        All-append (Lawful desired req.requirement_id)
          (offers content_satisfies fetch_budget replica_budget inp desired req lab) _
          (offers-Lawful lab h) (offers_all-Lawful labs v)

    abbrev Offer : Outcome content_satisfies fetch_budget replica_budget inp → Type 0
    Offer (held_by labs) = Unit
    Offer (offered cs) = Ours cs
    Offer (blocked_by reason) = Unit

    outcome_of-Offer :
        (cs : List Candidate)
        → Ours cs
        → Offer (outcome_of content_satisfies fetch_budget replica_budget inp req cs)
    unfolding outcome_of
    outcome_of-Offer [] o = tt
    outcome_of-Offer (c ∷ cs) o =
        All-sort (earlier content_satisfies fetch_budget replica_budget inp)
          (Lawful desired req.requirement_id) (c ∷ cs) o

    by_complete :
        (labs : List String)
        → Offer (elim labs [
          | [] ↦ outcome_of content_satisfies fetch_budget replica_budget inp req (
              offers_all content_satisfies fetch_budget replica_budget inp desired req
                (valid_labels content_satisfies fetch_budget replica_budget inp req))
          | lab ∷ rest ↦ held_by (lab ∷ rest)
        ])
    by_complete [] = outcome_of-Offer _ (
        offers_all-Lawful _ (
          All-passing (is_valid content_satisfies fetch_budget replica_budget inp req)
            (accepted_complete_pool req inp.drives)))
    by_complete (lab ∷ rest) = tt

    outcome-Offer : Offer (outcome content_satisfies fetch_budget replica_budget inp desired req)
    unfolding outcome
    outcome-Offer =
        by_complete (complete_labels content_satisfies fetch_budget replica_budget inp req)

  abbrev Listed : List CopyRequirement → List (String × List Candidate) → Type 0
  Listed desired = All (λ e. All (Lawful desired e.0) e.1)

  one_more :
      (desired : List CopyRequirement) (req : CopyRequirement) (m : Memᴰ req desired)
      (rest : List (String × List Candidate))
      (o : Outcome content_satisfies fetch_budget replica_budget inp)
      → Offer desired req m o
      → Listed desired rest
      → Listed desired (elim o [
        | held_by labs ↦ rest
        | offered cs ↦ (req.requirement_id, cs) ∷ rest
        | blocked_by reason ↦ rest
      ])
  one_more desired req m rest (held_by labs) k l = l
  one_more desired req m rest (offered cs) k l = (k, l)
  one_more desired req m rest (blocked_by reason) k l = l

  offered_in-Listed :
      (desired reqs : List CopyRequirement)
      → All (λ req. Memᴰ req desired) reqs
      → Listed desired (offered_in content_satisfies fetch_budget replica_budget inp desired reqs)
  unfolding offered_in
  offered_in-Listed desired [] ms = tt
  offered_in-Listed desired (req ∷ reqs) (m, ms) =
      one_more desired req m _
        (outcome content_satisfies fetch_budget replica_budget inp desired req)
        (outcome-Offer desired req m) (offered_in-Listed desired reqs ms)

  -- Every candidate is listed under the id that it carries, which is that of a requirement of the graph;
  -- its target is among the eligible drives of that requirement, and no file of the repository is
  -- unproven there.
  pub candidates-Lawful :
      (desired : List CopyRequirement) (s : CandidateSet)
      → candidates content_satisfies fetch_budget replica_budget inp desired ≡ some s
      → All (λ e. All (Lawful desired e.0) e.1) s.by_requirement
  unfolding candidates candidate_set
  candidates-Lawful desired s h =
      elim (Bool-cases (all (λ req. has req.repo_id (as_map inp.manifests)) desired)) [
        | inl e ↦
            let same : candidate_set content_satisfies fetch_budget replica_budget inp desired ≡ s =
              given _ s (rw e at h) in
            subst (λ k. All (λ e. All (Lawful desired e.0) e.1) k.by_requirement) same
              (All-sort _ _ _ (offered_in-Listed desired desired (All-from _ desired (λ q m. m))))
        | inr e ↦ let g = rw e at h in cc
      ]

  ids_of :
      (desired : List CopyRequirement) (rid : String) (cs : List Candidate)
      → All (Lawful desired rid) cs
      → All (λ c. c.requirement_id ≡ rid) cs
  ids_of desired rid [] l = tt
  ids_of desired rid (c ∷ cs) ((_, _, _, e, _, _), l) = (e, ids_of desired rid cs l)

  -- The solver's input that is made of these candidates meets what the theorems on gate_b ask for:
  -- each candidate carries the id it is listed under.
  pub candidates-IdsMatch :
      (desired : List CopyRequirement) (s : SolverInput)
      → candidates content_satisfies fetch_budget replica_budget inp desired ≡ some s.candidates
      → IdsMatch s
  unfolding cands_of
  candidates-IdsMatch desired s e rid = by_get _ refl
    where
      listed : All (λ x. All (Lawful desired x.0) x.1) s.candidates.by_requirement
      listed = candidates-Lawful desired s.candidates e

      by_get :
          (o : Option (List Candidate))
          → get rid (as_map s.candidates.by_requirement) ≡ o
          → All (λ c. c.requirement_id ≡ rid) (get_or o [])
      by_get none h = tt
      by_get (some cs) h = ids_of desired rid cs (
          as_map-Entries (λ k v. All (Lawful desired k) v) s.candidates.by_requirement listed rid cs
            h)
