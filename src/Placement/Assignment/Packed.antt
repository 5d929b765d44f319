-- ===== src/Placement/Assignment/Packed.antt =====
-- The bytes on each drive of the tasks that _materialize of modelark/placement.py makes of a snapshot.
use modelark.Prelude.{
  ℕ, ◌+◌, ◌≤◌, ◌≡◌, refl, sym, ◌∙◌, ap, ap₂, subst, String, Option, none, some, true, List, [], ◌∷◌,
  all, arith, contains, eq_iff, ◌==◌, if◌then◌else◌, Option-cases, inl, inr, select, sum_by, max_by,
}
use modelark.Prelude.Dict.{Dict, get, keys, count_at, get-put}
use modelark.Prelude.Sort.{Distinct, Distinct-sort, sort_texts}
use modelark.Prelude.Fold.{
  fold_by, fold_by-sort_texts, IsFold, sum-IsFold, max-IsFold, sum_by-select, max_by-select,
}
use modelark.Candidates.{Candidate}
use modelark.Placement.{
  SolverInput, AssignmentTask, CanonicalAssignment, cand_durable, cand_workspace,
}
use modelark.Placement.Partial.{Partial, KeyPart, empty_partial, push}
use modelark.Placement.Partial.Ledger.{
  Describes, keyed, push-Describes, empty_partial-Describes, durable_on, workspace_on,
}
use modelark.Placement.Search.Invariant.{Placed}
use modelark.Placement.Search.Sound.{SnapOk, Placed-Fits}
use modelark.Placement.Assignment.{
  push_some, push_all, tasks_of, task_of, to_assignment, materialize,
}
use modelark.Placement.Assignment.Keyed.{Fresh, id-keyed, keys-keyed-Distinct, fold_by-keyed}

-- The tasks that write to a drive.
abbrev pub tasks_on : String → List AssignmentTask → List AssignmentTask
tasks_on lab ts = select (λ t. t.target_drive == lab) ts

-- On every drive the durable bytes of the tasks and their largest workspace fit in the budget.
abbrev pub TasksFit : Dict ℕ → CanonicalAssignment → Type 0
TasksFit free0 a =
    (lab : String)
    → sum_by (λ t. t.durable) (tasks_on lab a.tasks)
        + max_by (λ t. t.workspace) (tasks_on lab a.tasks)
      ≤ count_at lab free0

-- The candidates of the ids, on top of those of a list.
unfoldable pub picked : Dict Candidate → List String → List Candidate → List Candidate
picked m [] cs = cs
picked m (rid ∷ rids) cs = elim (get rid m) [
  | none ↦ picked m rids cs
  | some c ↦ picked m rids (c ∷ cs)
]

module _ (inp : SolverInput) (free0 : Dict ℕ) (part_hash : KeyPart → ℕ) where
  abbrev mode : String
  mode = inp.capacity_mode

  pub record Pushed (p : Partial) (cs : List Candidate) : Type 0 where
    pub ledger : Describes mode p cs
    pub fresh : Fresh cs

  -- Every id of the list is in the dict under its own name, and none is assigned in the node.
  record Pushable (m : Dict Candidate) (p : Partial) (rids : List String) : Type 0 where
    pub ids : (rid : String) (c : Candidate) → get rid m ≡ some c → c.requirement_id ≡ rid
    pub free : (rid : String) → contains rids rid ≡ true → get rid p.assigned ≡ none
    pub apart : Distinct rids

  get-push :
      (p : Partial) (c : Candidate) (j : String)
      → get j (push part_hash mode p c).assigned
        ≡ (if c.requirement_id == j then some c else get j p.assigned)
  unfolding push
  get-push p c j = get-put c.requirement_id j c p.assigned

  push_all-Pushed :
      (m : Dict Candidate) (rids : List String) (p : Partial) (cs : List Candidate)
      → Pushable m p rids
      → Pushed p cs
      → Pushed (push_all inp free0 part_hash p m rids) (picked m rids cs)
  unfolding push_all picked push_some
  push_all-Pushed m [] p cs able l = l
  push_all-Pushed m (rid ∷ rids) p cs able l = elim (Option-cases (get rid m)) [
    | inl e ↦
        rw (e, push_some, picked)
          (push_all-Pushed m rids p cs
            (record {
              ids = able.ids;
              free = λ r h. able.free r (ground arith);
              apart = able.apart.1;
            })
            l)
    | inr (c, e) ↦
        let here : get c.requirement_id p.assigned ≡ none =
          subst (λ r. get r p.assigned ≡ none) (sym (able.ids rid c e))
            (able.free rid (ground (arith, eq_iff rid rid))) in
        rw (e, push_some, picked)
          (push_all-Pushed m rids (push part_hash mode p c) (c ∷ cs)
            (record {
              ids = able.ids;
              free = λ r h. ground (
                arith,
                get-push p c r,
                eq_iff c.requirement_id r,
                able.ids rid c e,
                able.free r,
                able.apart.0,
              );
              apart = able.apart.1;
            })
            (record {
              ledger = push-Describes part_hash mode p c cs here l.ledger;
              fresh = (subst (λ q. get c.requirement_id q ≡ none) l.ledger.assigned here, l.fresh);
            }))
  ]

module _ (inp : SolverInput) (free0 : Dict ℕ) (part_hash : KeyPart → ℕ) (cs : List Candidate) where
  abbrev pub installed : Partial
  installed =
      push_all inp free0 part_hash (empty_partial free0) (keyed cs) (sort_texts (keys (keyed cs)))

  pub installed-Pushed :
      Fresh cs
      → Pushed inp free0 part_hash installed (picked (keyed cs) (sort_texts (keys (keyed cs))) [])
  unfolding empty_partial get
  installed-Pushed fresh =
      push_all-Pushed inp free0 part_hash (keyed cs) (sort_texts (keys (keyed cs)))
        (empty_partial free0) []
        (record {
          ids = id-keyed cs;
          free = λ r t. refl;
          apart = Distinct-sort (keys (keyed cs)) (keys-keyed-Distinct cs fresh);
        })
        (record { ledger = empty_partial-Describes inp.capacity_mode free0; fresh = tt })

module _ {op : ℕ → ℕ → ℕ} (laws : IsFold op) (h : Option Candidate → ℕ) (zero_h : h none ≡ 0) where
  -- picking candidates by their ids adds what the ids weigh
  fold_by-picked :
      (m : Dict Candidate) (rids : List String) (cs : List Candidate)
      → fold_by op (λ c. h (some c)) (picked m rids cs)
        ≡ op (fold_by op (λ k. h (get k m)) rids) (fold_by op (λ c. h (some c)) cs)
  unfolding picked fold_by
  fold_by-picked m [] cs = sym (laws.unit _)
  fold_by-picked m (rid ∷ rids) cs = elim (Option-cases (get rid m)) [
    | inl e ↦
        rw (e, picked)
          (fold_by-picked m rids cs
            ∙ ap (λ x. op x (fold_by op (λ c. h (some c)) cs))
                (sym (ap (λ x. op x (fold_by op (λ k. h (get k m)) rids)) zero_h ∙ laws.unit _)))
    | inr (c, e) ↦
        rw (e, picked)
          (fold_by-picked m rids (c ∷ cs)
            ∙ laws.exchange _ (h (some c)) _
            ∙ sym (laws.assoc (h (some c)) _ _))
  ]

  -- the tasks of the ids weigh what the ids do
  fold_by-tasks_of :
      (mode : String) (p : Partial) (w : AssignmentTask → ℕ)
      → ((rid : String) (c : Candidate) → w (task_of mode p rid c) ≡ h (some c))
      → (rids : List String)
      → fold_by op w (tasks_of mode p rids) ≡ fold_by op (λ k. h (get k p.assigned)) rids
  unfolding tasks_of fold_by
  fold_by-tasks_of mode p w same [] = refl
  fold_by-tasks_of mode p w same (rid ∷ rids) = elim (Option-cases (get rid p.assigned)) [
    | inl e ↦
        rw (e, tasks_of)
          (fold_by-tasks_of mode p w same rids
            ∙ sym
                (ap (λ x. op x (fold_by op (λ k. h (get k p.assigned)) rids)) zero_h ∙ laws.unit _))
    | inr (c, e) ↦ rw (e, tasks_of) (ap₂ op (same rid c) (fold_by-tasks_of mode p w same rids))
  ]

  module _ (inp : SolverInput) (free0 : Dict ℕ) (part_hash : KeyPart → ℕ) (cs : List Candidate)
      (fresh : Fresh cs) where
    -- the tasks of a snapshot weigh what its candidates do
    pub fold_by-tasks :
        (w : AssignmentTask → ℕ)
        → ((p : Partial) (rid : String) (c : Candidate)
            → w (task_of inp.capacity_mode p rid c) ≡ h (some c))
        → fold_by op w (to_assignment inp.capacity_mode (installed inp free0 part_hash cs)).tasks
          ≡ fold_by op (λ c. h (some c)) cs
    unfolding to_assignment fold_by
    fold_by-tasks w same =
        fold_by-tasks_of inp.capacity_mode (installed inp free0 part_hash cs) w
          (same (installed inp free0 part_hash cs))
          (sort_texts (keys (installed inp free0 part_hash cs).assigned))
        ∙ fold_by-sort_texts laws _ (keys (installed inp free0 part_hash cs).assigned)
        ∙ ap (λ m. fold_by op (λ k. h (get k m)) (keys m))
            (installed-Pushed inp free0 part_hash cs fresh).ledger.assigned
        ∙ fold_by-keyed laws h (picked (keyed cs) (sort_texts (keys (keyed cs))) [])
            (installed-Pushed inp free0 part_hash cs fresh).fresh
        ∙ fold_by-picked (keyed cs) (sort_texts (keys (keyed cs))) []
        ∙ laws.unit_right _
        ∙ fold_by-sort_texts laws _ (keys (keyed cs))
        ∙ fold_by-keyed laws h cs fresh

module _ (inp : SolverInput) (free0 : Dict ℕ) (part_hash : KeyPart → ℕ) where
  abbrev mode_of : String
  mode_of = inp.capacity_mode

  pub Placed-Fresh : (cs : List Candidate) → Placed inp free0 cs → Fresh cs
  Placed-Fresh [] h = tt
  Placed-Fresh (c ∷ cs) h = (h.0.0, Placed-Fresh cs h.1)

  abbrev durable_weight : String → Option Candidate → ℕ
  durable_weight lab none = 0
  durable_weight lab (some c) = if c.target_drive == lab then cand_durable mode_of c else 0

  abbrev workspace_weight : String → Option Candidate → ℕ
  workspace_weight lab none = 0
  workspace_weight lab (some c) = if c.target_drive == lab then cand_workspace mode_of c else 0

  module _ (cs : List Candidate) (fresh : Fresh cs) (lab : String) where
    abbrev ts : List AssignmentTask
    ts = (to_assignment mode_of (installed inp free0 part_hash cs)).tasks

    durable-tasks : sum_by (λ t. t.durable) (tasks_on lab ts) ≡ durable_on mode_of lab cs
    unfolding task_of
    durable-tasks =
        sum_by-select (λ t. t.durable) (λ t. t.target_drive == lab) ts
        ∙ fold_by-tasks sum-IsFold (durable_weight lab) refl inp free0 part_hash cs fresh _
            (λ p rid c. refl)
        ∙ sym (sum_by-select (cand_durable mode_of) (λ c. c.target_drive == lab) cs)

    workspace-tasks : max_by (λ t. t.workspace) (tasks_on lab ts) ≡ workspace_on mode_of lab cs
    unfolding task_of
    workspace-tasks =
        max_by-select (λ t. t.workspace) (λ t. t.target_drive == lab) ts
        ∙ fold_by-tasks max-IsFold (workspace_weight lab) refl inp free0 part_hash cs fresh _
            (λ p rid c. refl)
        ∙ sym (max_by-select (cand_workspace mode_of) (λ c. c.target_drive == lab) cs)

  -- the assignment that a snapshot becomes
  pub materialized :
      (m : Dict Candidate) (cs : List Candidate) (a : CanonicalAssignment)
      → m ≡ keyed cs
      → materialize inp free0 part_hash (some m) ≡ some a
      → to_assignment mode_of (installed inp free0 part_hash cs) ≡ a
  unfolding materialize
  materialized m cs a e h =
      let k : some (to_assignment mode_of (installed inp free0 part_hash cs)) ≡ some a =
        subst (λ k. materialize inp free0 part_hash (some k) ≡ some a) e h in
      cc

  -- A snapshot that is complete becomes an assignment within the budget of every drive.
  pub materialize-TasksFit :
      (o : Option (Dict Candidate)) (a : CanonicalAssignment)
      → SnapOk inp free0 o
      → materialize inp free0 part_hash o ≡ some a
      → TasksFit free0 a
  unfolding materialize
  materialize-TasksFit none a s h = cc
  materialize-TasksFit (some m) a (cs, e, placed, all) h =
      subst (TasksFit free0) (materialized m cs a e h) (λ lab. ground (
        arith,
        durable-tasks cs fresh lab,
        workspace-tasks cs fresh lab,
        Placed-Fits inp free0 part_hash cs placed lab,
      ))
    where
      fresh : Fresh cs
      fresh = Placed-Fresh cs placed
