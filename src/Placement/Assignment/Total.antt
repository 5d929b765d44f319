-- ===== src/Placement/Assignment/Total.antt =====
-- The fuel of _search of modelark/placement.py, and the exception of its monitor.
use modelark.Prelude.{
  Bool-cases, inl, inr, ℕ, suc, ◌+◌, ◌-◌, ◌*◌, ◌<◌, ◌≤◌, ◌≡◌, refl, ap, String, Option, none, some,
  Bool, true, false, List, [], ◌∷◌, arith, is_some, length,
}
use modelark.Prelude.Dict.{Dict}
use modelark.Placement.{SolverInput}
use modelark.Placement.Order.{is_comparable}
use modelark.Placement.Partial.{KeyPart}
use modelark.Placement.Search.{
  Node, Status, entered, skip, exhaust, raise, enter, expand, unsat, width,
}
use modelark.Placement.Search.Termination.{expand-le, loop_total}
use modelark.Placement.Search.Unraised.{enter-quiet, loop-quiet}
use modelark.Placement.Assignment.{
  SearchResult, search, search_fuel, after_root, root, conclude_loop, nothing_to_place,
}

module _ (inp : SolverInput) (free0 : Dict ℕ) (part_hash : KeyPart → ℕ) (state_limit : ℕ)
    (collect_all : Bool) (emergency : ℕ → Bool) where
  conclude_loop_total :
      (r : Option (Option Node))
      → is_some r ≡ true
      → is_some (conclude_loop inp free0 part_hash state_limit collect_all emergency r) ≡ true
  conclude_loop_total none h = cc
  conclude_loop_total (some none) h = refl
  conclude_loop_total (some (some n)) h = refl

  room :
      (v k : ℕ)
      → v ≡ 1
      → 1 ≤ state_limit
      → k ≤ width inp free0
      → (state_limit - v) * (width inp free0 + 2) + (suc k + 0)
        < search_fuel inp free0 part_hash state_limit collect_all emergency
  room v k e l w =
      let f : state_limit ≡ suc (state_limit - v) = omega arith in
      omega (arith, ap (λ t. t * (width inp free0 + 2)) f)

  after_root_total :
      (s : Status) (n : Node)
      → (s ≡ entered → (n.visited ≡ 1) × (1 ≤ state_limit))
      → is_some (after_root inp free0 part_hash state_limit collect_all emergency (s, n)) ≡ true
  unfolding after_root
  after_root_total entered n h = conclude_loop_total _ (
      loop_total inp free0 part_hash state_limit collect_all emergency _ _ (
        room n.visited (length (expand inp free0 n.partial)) (h refl).0 (h refl).1
          (expand-le inp free0 n.partial)))
  after_root_total skip n h = refl
  after_root_total exhaust n h = refl
  after_root_total raise n h = refl

  enter-root :
      let (s, n) =
        enter inp free0 part_hash state_limit collect_all emergency (root inp free0 part_hash) in
      s ≡ entered → (n.visited ≡ 1) × (1 ≤ state_limit)
  unfolding enter root
  enter-root = ground arith

  pub search_total :
      is_comparable inp ≡ true
      → is_some (search inp free0 part_hash state_limit collect_all emergency) ≡ true
  unfolding search
  search_total c = rw (c, search) (by_unsat (unsat inp free0))
    where
      by_unsat :
          (ids : List String)
          → is_some (elim ids [
            | [] ↦
                some (some (nothing_to_place inp free0 part_hash state_limit collect_all emergency))
            | rid ∷ rids ↦ after_root inp free0 part_hash state_limit collect_all emergency (
                enter inp free0 part_hash state_limit collect_all emergency
                  (root inp free0 part_hash))
          ])
            ≡ true
      by_unsat [] = refl
      by_unsat (rid ∷ rids) = after_root_total _ _ enter-root

  module _ (quiet : (n : ℕ) → emergency n ≡ false) where
    conclude_loop-quiet :
        (r : Option (Option Node))
        → (r ≡ some none → ⊥)
        → conclude_loop inp free0 part_hash state_limit collect_all emergency r ≡ some none
        → ⊥
    conclude_loop-quiet none k h = cc
    conclude_loop-quiet (some none) k h = k refl
    conclude_loop-quiet (some (some n)) k h = cc

    after_root-quiet :
        (s : Status) (n : Node)
        → (s ≡ raise → ⊥)
        → after_root inp free0 part_hash state_limit collect_all emergency (s, n) ≡ some none
        → ⊥
    unfolding after_root
    after_root-quiet entered n k h =
        conclude_loop-quiet _
          (loop-quiet inp free0 part_hash state_limit collect_all emergency quiet _ _) h
    after_root-quiet raise n k h = k refl
    after_root-quiet skip n k h = cc
    after_root-quiet exhaust n k h = cc

    search-quiet : search inp free0 part_hash state_limit collect_all emergency ≡ some none → ⊥
    unfolding search
    search-quiet h = elim (Bool-cases (is_comparable inp)) [
      | inl e ↦ by_unsat (unsat inp free0) (rw (e, search) at h)
      | inr e ↦ let k = rw (e, search) at h in cc
    ]
      where
        by_unsat :
            (ids : List String)
            → elim ids [
              | [] ↦
                  some
                    (some (nothing_to_place inp free0 part_hash state_limit collect_all emergency))
              | rid ∷ rids ↦ after_root inp free0 part_hash state_limit collect_all emergency (
                  enter inp free0 part_hash state_limit collect_all emergency
                    (root inp free0 part_hash))
            ]
              ≡ some none
            → ⊥
        by_unsat [] k = cc
        by_unsat (rid ∷ rids) k =
            after_root-quiet _ _
              (enter-quiet inp free0 part_hash state_limit collect_all emergency quiet _) k

    pub search_returns :
        is_comparable inp ≡ true
        → (r : SearchResult) × (search inp free0 part_hash state_limit collect_all emergency
            ≡ some (some r))
    search_returns c = by_result _ refl (search_total c)
      where
        by_result :
            (o : Option (Option SearchResult))
            → search inp free0 part_hash state_limit collect_all emergency ≡ o
            → is_some (search inp free0 part_hash state_limit collect_all emergency) ≡ true
            → (r : SearchResult) × (search inp free0 part_hash state_limit collect_all emergency
                ≡ some (some r))
        by_result none e t = cc
        by_result (some none) e t = elim (search-quiet e) [ ]
        by_result (some (some r)) e t = (r, e)
