-- ===== src/Placement/Assignment/Covers.antt =====
-- The requirements of a snapshot and the tasks that _materialize of modelark/placement.py makes of it.
use modelark.Prelude.{
  ◌≡◌, sym, ◌∙◌, subst, String, Option, none, some, true, List, [], ◌∷◌, All, all, arith, contains,
  eq_iff, ◌==◌, ◌||◌, Option-cases, Bool-cases, inl, inr, map, ℕ,
}
use modelark.Prelude.Dict.{Dict, get, has, keys, contains-keys, get-append}
use modelark.Prelude.Sort.{sort_texts, contains-sort}
use modelark.Candidates.{Candidate}
use modelark.Placement.{SolverInput, CanonicalAssignment}
use modelark.Placement.Partial.{Partial, KeyPart}
use modelark.Placement.Partial.Ledger.{keyed}
use modelark.Placement.Search.{unsat}
use modelark.Placement.Search.Sound.{SnapOk}
use modelark.Placement.Assignment.{tasks_of, task_of, to_assignment, materialize}
use modelark.Placement.Assignment.Keyed.{Fresh, id-keyed}
use modelark.Placement.Assignment.Packed.{
  picked, installed, installed-Pushed, Placed-Fresh, materialized,
}

-- Every one of the requirements has a task.
abbrev pub Covers : List String → CanonicalAssignment → Type 0
Covers rids a = All (λ rid. contains (map (λ t. t.requirement_id) a.tasks) rid ≡ true) rids

has-keyed :
    (c : Candidate) (cs : List Candidate) (rid : String)
    → has rid (keyed (c ∷ cs)) ≡ (has rid (keyed cs) || (c.requirement_id == rid))
has-keyed c cs rid = ground (arith, get-append c.requirement_id rid c (keyed cs))

picked_keeps :
    (m : Dict Candidate) (rids : List String) (cs : List Candidate) (rid : String)
    → has rid (keyed cs) ≡ true
    → has rid (keyed (picked m rids cs)) ≡ true
unfolding picked
picked_keeps m [] cs rid h = h
picked_keeps m (r ∷ rids) cs rid h = elim (Option-cases (get r m)) [
  | inl e ↦ rw (e, picked) (picked_keeps m rids cs rid h)
  | inr (c, e) ↦
      rw (e, picked) (picked_keeps m rids (c ∷ cs) rid (ground (arith, has-keyed c cs rid)))
]

picked-has :
    (ds : List Candidate) (rids : List String) (cs : List Candidate) (rid : String)
    → contains rids rid ≡ true
    → has rid (keyed ds) ≡ true
    → has rid (keyed (picked (keyed ds) rids cs)) ≡ true
unfolding picked
picked-has ds [] cs rid h k = cc
picked-has ds (r ∷ rids) cs rid h k = elim (Option-cases (get r (keyed ds))) [
  | inl e ↦ rw (e, picked) (picked-has ds rids cs rid (ground (arith, eq_iff r rid)) k)
  | inr (c, e) ↦
      rw (e, picked)
        (elim (Bool-cases (r == rid)) [
          | inl g ↦
              picked_keeps (keyed ds) rids (c ∷ cs) rid
                (ground (arith, has-keyed c cs rid, id-keyed ds r c e))
          | inr g ↦ picked-has ds rids (c ∷ cs) rid (ground arith) k
        ])
]

tasks_of-has :
    (mode : String) (p : Partial) (rids : List String) (rid : String)
    → contains rids rid ≡ true
    → has rid p.assigned ≡ true
    → contains (map (λ t. t.requirement_id) (tasks_of mode p rids)) rid ≡ true
unfolding tasks_of task_of
tasks_of-has mode p [] rid h k = cc
tasks_of-has mode p (r ∷ rids) rid h k = elim (Option-cases (get r p.assigned)) [
  | inl e ↦
      rw (e, tasks_of, contains) (tasks_of-has mode p rids rid (ground (arith, eq_iff r rid)) k)
  | inr (c, e) ↦ rw (e, tasks_of, contains) (ground (arith, tasks_of-has mode p rids rid))
]

module _ (inp : SolverInput) (free0 : Dict ℕ) (part_hash : KeyPart → ℕ) where
  installed-has :
      (cs : List Candidate) (rid : String)
      → Fresh cs
      → has rid (keyed cs) ≡ true
      → has rid (installed inp free0 part_hash cs).assigned ≡ true
  installed-has cs rid f h =
      subst (λ m. has rid m ≡ true)
        (sym (installed-Pushed inp free0 part_hash cs f).ledger.assigned)
        (picked-has cs (sort_texts (keys (keyed cs))) [] rid
          (contains-sort rid (keys (keyed cs)) ∙ contains-keys rid (keyed cs) ∙ h) h)

  installed-Covers :
      (cs : List Candidate) (rids : List String)
      → Fresh cs
      → all (λ rid. has rid (keyed cs)) rids ≡ true
      → Covers rids (to_assignment inp.capacity_mode (installed inp free0 part_hash cs))
  unfolding to_assignment
  installed-Covers cs [] f h = tt
  installed-Covers cs (rid ∷ rids) f h = (
    let k = installed-has cs rid f (ground arith) in
        tasks_of-has inp.capacity_mode _ _ rid (contains-sort rid _ ∙ contains-keys rid _ ∙ k) k,
    installed-Covers cs rids f (ground arith),
  )

  -- A snapshot that is complete becomes an assignment with a task for every requirement.
  pub materialize-Covers :
      (o : Option (Dict Candidate)) (a : CanonicalAssignment)
      → SnapOk inp free0 o
      → materialize inp free0 part_hash o ≡ some a
      → Covers (unsat inp free0) a
  unfolding materialize
  materialize-Covers none a s h = cc
  materialize-Covers (some m) a (cs, e, placed, whole) h =
      subst (Covers (unsat inp free0)) (materialized inp free0 part_hash m cs a e h) (
        installed-Covers cs (unsat inp free0) (Placed-Fresh inp free0 part_hash cs placed)
          (subst (λ k. all (λ rid. has rid k) (unsat inp free0) ≡ true) e whole))
