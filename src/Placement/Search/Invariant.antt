-- ===== src/Placement/Search/Invariant.antt =====
-- Properties of a node of the search of modelark/placement.py: the ledger of the live assignments,
-- their limits on every drive, and the candidates that are still to be tried.
use modelark.Prelude.{
  ℕ, ◌+◌, ◌≤◌, ◌≡◌, refl, sym, subst, String, Option, none, some, Bool, true, not, ◌&&◌, List, [],
  ◌∷◌, eq_iff, Memᴰ, All-listed, All-weaken, All-select, select, All, arith, is_some, Bool-cases,
  inl, inr, eqb, length,
}
use modelark.Prelude.Dict.{Dict, get, count_at}
use modelark.Prelude.Sort.{All-sort}
use modelark.Candidates.{Candidate}
use modelark.Placement.{SolverInput, cands_of, drive_of, req_of}
use modelark.Placement.Partial.{Partial, fits, domain_ok}
use modelark.Placement.Partial.Ledger.{Describes, durable_on, workspace_on, keyed, fits-ledger}
use modelark.Placement.Search.{
  unsat, ready, admissible, sorted_cands, expand, expand_first, distinct,
}

-- The candidates of a requirement carry its id, as modelark/candidates.py builds them.
abbrev pub IdsMatch : SolverInput → Type 0
IdsMatch inp = (rid : String) → All (λ c. c.requirement_id ≡ rid) (cands_of inp rid)

All-true : {A : Type 0} (xs : List A) → All (λ _. Unit {0}) xs
All-true [] = tt
All-true (x ∷ xs) = (tt, All-true xs)

free_of : (o : Option Candidate) (b : Bool) → (not (is_some o) && b) ≡ true → o ≡ none
free_of none b h = refl
free_of (some c) b h = cc

module _ (inp : SolverInput) (free0 : Dict ℕ) where
  -- On every drive the durable bytes and the largest workspace fit together.
  abbrev pub Fits : List Candidate → Type 0
  Fits cs =
      (lab : String)
      → durable_on inp.capacity_mode lab cs + workspace_on inp.capacity_mode lab cs
        ≤ count_at lab free0

  -- What an assignment meets when it is made on top of earlier ones.
  abbrev pub Ok : List Candidate → Candidate → Type 0
  Ok cs c =
      (get c.requirement_id (keyed cs) ≡ none)
      × Fits (c ∷ cs)
      × (domain_ok (drive_of inp.drives) (req_of inp.desired) (keyed cs) c ≡ true)
      × Memᴰ c (cands_of inp c.requirement_id)

  -- Every assignment of the list met that on top of the ones after it.
  abbrev pub Placed : List Candidate → Type 0
  Placed [] = Unit
  Placed (c ∷ cs) = Ok cs c × Placed cs

  module _ (p : Partial) (cs : List Candidate) (d : Describes inp.capacity_mode p cs)
      (start : p.free0 ≡ free0) where
    fits-Fits : (c : Candidate) → Fits cs → fits inp.capacity_mode p c ≡ true → Fits (c ∷ cs)
    fits-Fits c h e lab =
        ground
          (arith, fits-ledger inp.capacity_mode p c cs d, h lab, eq_iff c.target_drive lab, start)

    admissible-Ok :
        (c : Candidate)
        → get c.requirement_id p.assigned ≡ none
        → Fits cs
        → admissible inp free0 p c ≡ true
        → Memᴰ c (cands_of inp c.requirement_id)
        → Ok cs c
    unfolding admissible
    admissible-Ok c fresh h e listed = (
      subst (λ m. get c.requirement_id m ≡ none) d.assigned fresh,
      fits-Fits c h (ground arith),
      subst (λ m. domain_ok (drive_of inp.drives) (req_of inp.desired) m c ≡ true) d.assigned
          (ground arith),
      listed,
    )

    abbrev Candidates : List Candidate → Type 0
    Candidates = All (Ok cs)

    select-Ok :
        (rid : String) (xs : List Candidate)
        → get rid p.assigned ≡ none
        → Fits cs
        → All (λ c. (c.requirement_id ≡ rid) × Memᴰ c (cands_of inp rid)) xs
        → Candidates (select (admissible inp free0 p) xs)
    select-Ok rid xs fresh h ids =
        All-weaken _ (Ok cs) _
          (λ c t.
            admissible-Ok c (subst (λ r. get r p.assigned ≡ none) (sym t.0.0) fresh) h t.1
              (subst (λ r. Memᴰ c (cands_of inp r)) (sym t.0.0) t.0.1))
          (All-select (admissible inp free0 p)
            (λ c. (c.requirement_id ≡ rid) × Memᴰ c (cands_of inp rid)) xs ids)

    ready_free : All (λ rid. get rid p.assigned ≡ none) (ready inp free0 p)
    unfolding ready
    ready_free =
        All-weaken _ _ (ready inp free0 p) (λ rid t. free_of (get rid p.assigned) _ t.1)
          (All-select _ (λ _. Unit {0}) (unsat inp free0) (All-true (unsat inp free0)))

    expand_first-Ok :
        IdsMatch inp
        → Fits cs
        → (rids : List String) → All (λ rid. get rid p.assigned ≡ none) rids
        → Candidates (expand_first inp free0 p rids)
    unfolding expand_first sorted_cands
    expand_first-Ok ids h [] free = tt
    expand_first-Ok ids h (rid ∷ rids) (f, free) =
        select-Ok rid _ f h
          (All-sort _ _ (cands_of inp rid) (All-listed _ (cands_of inp rid) (ids rid)))

    -- Every candidate that `expand` offers may be assigned.
    pub expand-Ok : IdsMatch inp → Fits cs → Candidates (expand inp free0 p)
    unfolding expand
    expand-Ok ids h =
        elim (Bool-cases (eqb (length p.assigned) (length (distinct (unsat inp free0))))) [
          | inl e ↦ rw e tt
          | inr e ↦ rw e (expand_first-Ok ids h _ (All-sort _ _ (ready inp free0 p) ready_free))
        ]
