-- ===== src/Placement/Assignment/Listed.antt =====
-- The candidates behind the tasks that _materialize of modelark/placement.py makes of a snapshot.
use modelark.Prelude.{
  ◌≡◌, refl, subst, String, Option, none, some, List, [], ◌∷◌, All, arith, Memᴰ, Option-cases, inl,
  inr, ℕ,
}
use modelark.Prelude.Dict.{Dict, get, keys, get-append}
use modelark.Prelude.Sort.{sort_texts}
use modelark.Candidates.{Candidate}
use modelark.Placement.{SolverInput, AssignmentTask, CanonicalAssignment, cands_of}
use modelark.Placement.Partial.{Partial, KeyPart}
use modelark.Placement.Partial.Ledger.{keyed}
use modelark.Placement.Search.Invariant.{Placed}
use modelark.Placement.Search.Sound.{SnapOk}
use modelark.Placement.Assignment.{tasks_of, task_of, to_assignment, materialize}
use modelark.Placement.Assignment.Keyed.{id-keyed, Fresh}
use modelark.Placement.Assignment.Packed.{
  picked, installed, installed-Pushed, Placed-Fresh, materialized,
}

-- The task is made from a candidate that is listed under its requirement.
abbrev pub IsListed : SolverInput → AssignmentTask → Type 0
IsListed inp t =
    (p : Partial) × (c : Candidate) × (t ≡ task_of inp.capacity_mode p t.requirement_id c)
    × (c.requirement_id ≡ t.requirement_id)
    × Memᴰ c (cands_of inp t.requirement_id)

abbrev pub Listed : SolverInput → CanonicalAssignment → Type 0
Listed inp a = All (IsListed inp) a.tasks

module _ (Q : Candidate → Type 0) where
  abbrev Entries : Dict Candidate → Type 0
  Entries m = (rid : String) (c : Candidate) → get rid m ≡ some c → Q c

  keyed-Entries : (cs : List Candidate) → All Q cs → Entries (keyed cs)
  unfolding get
  keyed-Entries [] qs rid c h = cc
  keyed-Entries (d ∷ cs) (q, qs) rid c h = elim (Option-cases (get rid (keyed cs))) [
    | inl e ↦
        let g : d ≡ c = ground (arith, get-append d.requirement_id rid d (keyed cs)) in subst Q g q
    | inr (b, e) ↦
        let g : b ≡ c = ground (arith, get-append d.requirement_id rid d (keyed cs)) in
        subst Q g (keyed-Entries cs qs rid b e)
  ]

  picked-All :
      (m : Dict Candidate) (rids : List String) (cs : List Candidate)
      → Entries m
      → All Q cs
      → All Q (picked m rids cs)
  unfolding picked
  picked-All m [] cs e qs = qs
  picked-All m (rid ∷ rids) cs e qs = elim (Option-cases (get rid m)) [
    | inl h ↦ rw (h, picked) (picked-All m rids cs e qs)
    | inr (c, h) ↦ rw (h, picked) (picked-All m rids (c ∷ cs) e (e rid c h, qs))
  ]

module _ (inp : SolverInput) where
  -- The candidate is listed under the id that it carries.
  abbrev Own : Candidate → Type 0
  Own c = Memᴰ c (cands_of inp c.requirement_id)

  tasks_of-Listed :
      (p : Partial) (rids : List String)
      → ((rid : String) (c : Candidate)
          → get rid p.assigned ≡ some c
          → (c.requirement_id ≡ rid) × Own c)
      → All (IsListed inp) (tasks_of inp.capacity_mode p rids)
  unfolding tasks_of task_of
  tasks_of-Listed p [] f = tt
  tasks_of-Listed p (rid ∷ rids) f = elim (Option-cases (get rid p.assigned)) [
    | inl e ↦ rw (e, tasks_of) (tasks_of-Listed p rids f)
    | inr (c, e) ↦
        let (same, own) = f rid c e in
        rw (e, tasks_of)
          (
            (p, c, refl, same, subst (λ r. Memᴰ c (cands_of inp r)) same own),
            tasks_of-Listed p rids f,
          )
  ]

  module _ (free0 : Dict ℕ) where
    Placed-Own : (cs : List Candidate) → Placed inp free0 cs → All Own cs
    Placed-Own [] h = tt
    Placed-Own (c ∷ cs) h = (h.0.3, Placed-Own cs h.1)

    module _ (part_hash : KeyPart → ℕ) where
      installed-Listed :
          (cs : List Candidate)
          → Fresh cs
          → All Own cs
          → Listed inp (to_assignment inp.capacity_mode (installed inp free0 part_hash cs))
      unfolding to_assignment
      installed-Listed cs fresh own =
          tasks_of-Listed (installed inp free0 part_hash cs) _ (λ rid c h.
            let ds = picked (keyed cs) (sort_texts (keys (keyed cs))) [] in
            let g : get rid (keyed ds) ≡ some c =
              subst (λ m. get rid m ≡ some c)
                (installed-Pushed inp free0 part_hash cs fresh).ledger.assigned h in
            (
              id-keyed ds rid c g,
              keyed-Entries Own ds
                  (picked-All Own (keyed cs) (sort_texts (keys (keyed cs))) []
                    (keyed-Entries Own cs own) tt)
                  rid c g,
            ))

      pub materialize-Listed :
          (o : Option (Dict Candidate)) (a : CanonicalAssignment)
          → SnapOk inp free0 o
          → materialize inp free0 part_hash o ≡ some a
          → Listed inp a
      unfolding materialize
      materialize-Listed none a s h = cc
      materialize-Listed (some m) a (cs, e, placed, all) h =
          subst (Listed inp) (materialized inp free0 part_hash m cs a e h) (
            installed-Listed cs (Placed-Fresh inp free0 part_hash cs placed) (Placed-Own cs placed))
