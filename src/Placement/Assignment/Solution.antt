-- ===== src/Placement/Assignment/Solution.antt =====
-- The assignments that _search of modelark/placement.py returns, and what a solution is.
use modelark.Prelude.{
  ℕ, ◌≡◌, refl, sym, subst, String, Option, none, some, Bool, true, false, List, [], ◌∷◌, All,
  arith, is_some, is_none, ◌&&◌, inl, inr, Bool-cases,
}
use modelark.Prelude.Dict.{Dict}
use modelark.Prelude.Sort.{sort_texts, sort}
use modelark.Candidates.{Candidate}
use modelark.Placement.{SolverInput, CanonicalAssignment}
use modelark.Placement.Order.{is_comparable}
use modelark.Placement.Partial.{KeyPart, empty_partial}
use modelark.Placement.Partial.Ledger.{empty_partial-Describes}
use modelark.Placement.Search.{
  unsat, Node, Status, entered, skip, exhaust, raise, enter, expand, loop,
}
use modelark.Placement.Search.Invariant.{IdsMatch, Ok, expand-Ok}
use modelark.Placement.Search.Sound.{SnapOk, Live, Sound, loop-Complete}
use modelark.Placement.Assignment.{
  SearchKind, SearchResult, found, bound_exhausted, infeasible, search, root, after_root, conclude,
  conclude_loop, nothing_to_place, to_assignment, tasks_of, materialize, search_fuel,
}
use modelark.Placement.Assignment.Packed.{TasksFit, materialize-TasksFit}
use modelark.Placement.Assignment.Covers.{Covers, materialize-Covers}
use modelark.Placement.Assignment.Listed.{Listed, materialize-Listed}

abbrev pub is_found : SearchKind → Bool
is_found found = true
is_found _ = false

found_some :
    (k : SearchKind) (o : Option CanonicalAssignment)
    → (k ≡ found → is_some o ≡ true)
    → (is_found k && is_none o) ≡ false
found_some found o f = ground (arith, f refl)
found_some bound_exhausted o f = refl
found_some infeasible o f = refl

module _ (inp : SolverInput) (free0 : Dict ℕ) where
  -- On every drive the tasks fit in the budget, every requirement has a task, and every task is made
  -- from a candidate that is listed under its requirement.
  abbrev pub Solves : CanonicalAssignment → Type 0
  Solves a = TasksFit free0 a × Covers (unsat inp free0) a × Listed inp a

  -- What is there solves the input.
  abbrev pub SomeSolves : Option CanonicalAssignment → Type 0
  SomeSolves none = Unit
  SomeSolves (some a) = Solves a

  pub record Solution (r : SearchResult) : Type 0 where
    pub first : (a : CanonicalAssignment) → r.first ≡ some a → Solves a
    pub best : (a : CanonicalAssignment) → r.best ≡ some a → Solves a
    pub found_first : r.kind ≡ found → is_some r.first ≡ true

  pub some-Solves :
      (o : Option CanonicalAssignment)
      → ((a : CanonicalAssignment) → o ≡ some a → Solves a)
      → SomeSolves o
  some-Solves none k = tt
  some-Solves (some a) k = k a refl

  module _ (part_hash : KeyPart → ℕ) where
    materialize-Solves :
        (o : Option (Dict Candidate)) (a : CanonicalAssignment)
        → SnapOk inp free0 o
        → materialize inp free0 part_hash o ≡ some a
        → Solves a
    materialize-Solves o a s h = (
      materialize-TasksFit inp free0 part_hash o a s h,
      materialize-Covers inp free0 part_hash o a s h,
      materialize-Listed inp free0 part_hash o a s h,
    )

    conclude-Solution :
        (n : Node)
        → SnapOk inp free0 n.first_snap
        → SnapOk inp free0 n.best_snap
        → Solution (conclude inp free0 part_hash n)
    unfolding conclude
    conclude-Solution n f b = elim (Bool-cases n.exhausted) [
      | inl e ↦ rw e (record {
        first = λ a h. materialize-Solves n.first_snap a f h;
        best = λ a h. materialize-Solves n.best_snap a b h;
        found_first = λ h. cc;
      })
      | inr e ↦ elim (Bool-cases (is_some (materialize inp free0 part_hash n.first_snap))) [
        | inl g ↦
            rw (e, g)
              (record {
                first = λ a h. materialize-Solves n.first_snap a f h;
                best = λ a h. materialize-Solves n.best_snap a b h;
                found_first = λ h. g;
              })
        | inr g ↦ rw (e, g) (record { first = λ a h. cc; best = λ a h. cc; found_first = λ h. cc })
      ]
    ]

    empty-Solves :
        unsat inp free0 ≡ [] → Solves (to_assignment inp.capacity_mode (empty_partial free0))
    unfolding to_assignment empty_partial tasks_of sort_texts sort
    empty-Solves e = (λ lab. omega arith, rw e tt, tt)

    empty-Live : Live inp free0 (empty_partial free0) []
    unfolding empty_partial
    empty-Live = record {
      ledger = empty_partial-Describes inp.capacity_mode free0;
      free = refl;
      placed = tt;
      fits = λ lab. omega arith;
    }

    -- a search that stops at its root has found nothing
    stopped :
        (v : ℕ)
        → Solution (record {
          kind = bound_exhausted;
          first = none;
          visited = v;
          best = none;
          best_score = none;
        })
    stopped v = record { first = λ a h. cc; best = λ a h. cc; found_first = λ h. cc }

    module _ (ids : IdsMatch inp) (state_limit : ℕ) (collect_all : Bool)
        (emergency : ℕ → Bool) where
      nothing-Solution :
          unsat inp free0 ≡ []
          → Solution (nothing_to_place inp free0 part_hash state_limit collect_all emergency)
      unfolding nothing_to_place
      nothing-Solution e = record {
        first = λ a h.
            let g : to_assignment inp.capacity_mode (empty_partial free0) ≡ a = cc in
            subst Solves g (empty-Solves e);
        best = λ a h.
            let g : to_assignment inp.capacity_mode (empty_partial free0) ≡ a = cc in
            subst Solves g (empty-Solves e);
        found_first = λ h. refl;
      }

      -- the first node, with the frame that `expand` opens on it
      opened-Sound :
          (n : Node)
          → n.pushed ≡ []
          → n.first_snap ≡ none
          → n.best_snap ≡ none
          → n.partial ≡ empty_partial free0
          → Sound inp free0 (record n { stack = expand inp free0 n.partial ∷ [] })
      opened-Sound n p f b e = record {
        live = subst (Live inp free0 n.partial) (sym p) live;
        frames = (
          subst (λ cs. All (Ok inp free0 cs) (expand inp free0 n.partial)) (sym p)
              (expand-Ok inp free0 n.partial [] live.ledger live.free ids live.fits),
          tt,
        );
        first = subst (SnapOk inp free0) (sym f) tt;
        best = subst (SnapOk inp free0) (sym b) tt;
      }
        where
          live : Live inp free0 n.partial []
          live = subst (λ q. Live inp free0 q []) (sym e) empty-Live

      root_keeps :
          let m =
            (enter inp free0 part_hash state_limit collect_all emergency
              (root inp free0 part_hash)).1 in
          (m.pushed ≡ [])
          × (m.first_snap ≡ none)
          × (m.best_snap ≡ none)
          × (m.partial ≡ empty_partial free0)
      unfolding enter root
      root_keeps = ground arith

      loop-Solution :
          (n : Node) (o : Option (Option Node)) (r : SearchResult)
          → Sound inp free0 n
          → loop inp free0 part_hash state_limit collect_all emergency
              (search_fuel inp free0 part_hash state_limit collect_all emergency)
              n
            ≡ o
          → conclude_loop inp free0 part_hash state_limit collect_all emergency o ≡ some (some r)
          → Solution r
      loop-Solution n none r s e h = cc
      loop-Solution n (some none) r s e h = cc
      loop-Solution n (some (some m)) r s e h =
          let c =
            loop-Complete inp free0 part_hash ids state_limit collect_all emergency _ n m s e in
          let g : conclude inp free0 part_hash m ≡ r = cc in
          subst Solution g (conclude-Solution m c.0 c.1)

      after_root-Solution :
          (s : Status) (n : Node) (r : SearchResult)
          → Sound inp free0 (record n { stack = expand inp free0 n.partial ∷ [] })
          → after_root inp free0 part_hash state_limit collect_all emergency (s, n) ≡ some (some r)
          → Solution r
      unfolding after_root
      after_root-Solution entered n r s h = loop-Solution _ _ r s refl h
      after_root-Solution raise n r s h = cc
      after_root-Solution skip n r s h =
          let g : record {
            kind = bound_exhausted;
            first = none;
            visited = n.visited;
            best = none;
            best_score = none;
          }
              ≡ r =
            cc in
          subst Solution g (stopped n.visited)
      after_root-Solution exhaust n r s h =
          let g : record {
            kind = bound_exhausted;
            first = none;
            visited = n.visited;
            best = none;
            best_score = none;
          }
              ≡ r =
            cc in
          subst Solution g (stopped n.visited)

      by_unsat-Solution :
          (u : List String) (r : SearchResult)
          → unsat inp free0 ≡ u
          → elim u [
            | [] ↦
                some (some (nothing_to_place inp free0 part_hash state_limit collect_all emergency))
            | rid ∷ rids ↦ after_root inp free0 part_hash state_limit collect_all emergency (
                enter inp free0 part_hash state_limit collect_all emergency
                  (root inp free0 part_hash))
          ]
            ≡ some (some r)
          → Solution r
      by_unsat-Solution [] r e h =
          let g : nothing_to_place inp free0 part_hash state_limit collect_all emergency ≡ r = cc in
          subst Solution g (nothing-Solution e)
      by_unsat-Solution (rid ∷ rids) r e h =
          let (p, f, b, q) = root_keeps in
          after_root-Solution _ _ r
            (opened-Sound
              (enter inp free0 part_hash state_limit collect_all emergency
                (root inp free0 part_hash)).1
              p f b q)
            h

      pub search-Solution :
          (r : SearchResult)
          → search inp free0 part_hash state_limit collect_all emergency ≡ some (some r)
          → Solution r
      unfolding search
      search-Solution r h = elim (Bool-cases (is_comparable inp)) [
        | inl e ↦ by_unsat-Solution (unsat inp free0) r refl (rw (e, search) at h)
        | inr e ↦ let k = rw (e, search) at h in cc
      ]

      -- Where each candidate carries the id it is listed under, the first and the best assignment
      -- that `_search` returns have a task for every requirement that is to be placed, and the tasks
      -- on each drive, their durable bytes and their largest workspace together, fit in its budget;
      -- every task is made from a candidate that is listed under its requirement; and a result of kind `found` has a first assignment.
      pub search_solves :
          (r : SearchResult)
          → search inp free0 part_hash state_limit collect_all emergency ≡ some (some r)
          → SomeSolves r.first × SomeSolves r.best × ((is_found r.kind && is_none r.first) ≡ false)
      search_solves r h =
          let s = search-Solution r h in
          (
            some-Solves r.first s.first,
            some-Solves r.best s.best,
            found_some r.kind r.first s.found_first,
          )
