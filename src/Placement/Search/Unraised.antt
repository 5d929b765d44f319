-- ===== src/Placement/Search/Unraised.antt =====
-- The search of modelark/placement.py with a monitor that never fires.
use modelark.Prelude.{
  ℕ, zero, suc, ◌+◌, ◌≡◌, refl, Option, none, some, Bool, false, List, [], ◌∷◌, arith,
}
use modelark.Prelude.Dict.{Dict}
use modelark.Candidates.{Candidate}
use modelark.Placement.{SolverInput}
use modelark.Placement.Partial.{KeyPart}
use modelark.Placement.Search.{
  Node, Turn, next, halt, raised, Status, entered, skip, exhaust, raise, enter, descend,
  after_enter, try_candidate, turn, follow, go_on, loop,
}

module _ (inp : SolverInput) (free0 : Dict ℕ) (part_hash : KeyPart → ℕ) (state_limit : ℕ)
    (collect_all : Bool) (emergency : ℕ → Bool) (quiet : (n : ℕ) → emergency n ≡ false) where
  pub enter-quiet :
      (n : Node) → (enter inp free0 part_hash state_limit collect_all emergency n).0 ≡ raise → ⊥
  unfolding enter
  enter-quiet n h = ground (arith, quiet (n.visited + 1))

  descend-quiet :
      (n : Node) (c : Candidate)
      → descend inp free0 part_hash state_limit collect_all emergency n c ≡ raised
      → ⊥
  unfolding descend
  descend-quiet n c h = ground arith

  after_enter-quiet :
      (s : Status) (m : Node) (c : Candidate)
      → (s ≡ raise → ⊥)
      → after_enter inp free0 part_hash state_limit collect_all emergency (s, m) c ≡ raised
      → ⊥
  unfolding after_enter
  after_enter-quiet entered m c k h = descend-quiet m c h
  after_enter-quiet skip m c k h = cc
  after_enter-quiet exhaust m c k h = cc
  after_enter-quiet raise m c k h = k refl

  turn-quiet :
      (n : Node) (top : List Candidate) (rest : List (List Candidate))
      → turn inp free0 part_hash state_limit collect_all emergency n top rest ≡ raised
      → ⊥
  unfolding turn try_candidate
  turn-quiet n [] rest h = cc
  turn-quiet n (c ∷ cs) rest h = after_enter-quiet _ _ c (enter-quiet _) h

  follow-quiet :
      (go : Node → Option (Option Node)) (t : Turn)
      → ((n : Node) → go n ≡ some none → ⊥)
      → (t ≡ raised → ⊥)
      → follow inp free0 part_hash state_limit collect_all emergency go t ≡ some none
      → ⊥
  unfolding follow
  follow-quiet go (next n) rest k h = rest n h
  follow-quiet go (halt n) rest k h = cc
  follow-quiet go raised rest k h = k refl

  go_on-quiet :
      (go : Node → Option (Option Node)) (n : Node) (st : List (List Candidate))
      → ((n : Node) → go n ≡ some none → ⊥)
      → go_on inp free0 part_hash state_limit collect_all emergency go n st ≡ some none
      → ⊥
  unfolding go_on
  go_on-quiet go n [] rest h = cc
  go_on-quiet go n (top ∷ st) rest h = follow-quiet go _ rest (turn-quiet n top st) h

  -- The loop does not raise when its monitor never fires.
  pub loop-quiet :
      (fuel : ℕ) (n : Node)
      → loop inp free0 part_hash state_limit collect_all emergency fuel n ≡ some none
      → ⊥
  unfolding loop
  loop-quiet zero n h = cc
  loop-quiet (suc fuel) n h = go_on-quiet _ n n.stack (loop-quiet fuel) h
