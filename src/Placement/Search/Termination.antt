-- ===== src/Placement/Search/Termination.antt =====
-- The measure of the `while` loop of _search in modelark/placement.py: candidates, frames and the
-- states that the limit allows.
use modelark.Prelude.{
  ℕ, zero, suc, ◌+◌, ◌-◌, ◌*◌, ◌≤◌, ◌<◌, ◌≡◌, refl, ap, subst, Option, Bool, true, false, List, [],
  ◌∷◌, All, arith, is_some, Bool-cases, inl, inr, if◌then◌else◌, leb, length, sum_by, select,
  max_by, String, eqb,
}
use modelark.Prelude.Dict.{Dict}
use modelark.Prelude.Sort.{length-sort, All-sort}
use modelark.Candidates.{Candidate}
use modelark.Placement.{SolverInput, cands_of}
use modelark.Placement.Partial.{Partial, KeyPart, push, pop}
use modelark.Placement.Search.{
  Node, Turn, next, halt, raised, unsat, ready, expand, expand_first, is_complete, sorted_cands,
  width, admissible, enter, record_complete, unwind, descend, after_enter, turn, follow, go_on,
  loop, has_number, distinct,
}

length-select-le : {A : Type 0} (p : A → Bool) (xs : List A) → length (select p xs) ≤ length xs
length-select-le p [] = omega arith
length-select-le p (x ∷ xs) = ground (arith, length-select-le p xs)

All-select :
    {A : Type 0} (P : A → Type 0) (p : A → Bool) (xs : List A) → All P xs → All P (select p xs)
All-select P p [] h = tt
All-select P p (x ∷ xs) (h, hs) = elim (Bool-cases (p x)) [
  | inl e ↦ rw e (h, All-select P p xs hs)
  | inr e ↦ rw e (All-select P p xs hs)
]

All-max_by :
    {A : Type 0} (f : A → ℕ) (xs : List A) (m : ℕ) → max_by f xs ≤ m → All (λ x. f x ≤ m) xs
All-max_by f [] m h = tt
All-max_by f (x ∷ xs) m h = (omega arith, All-max_by f xs m (omega arith))

module _ (inp : SolverInput) (free0 : Dict ℕ) where
  abbrev Narrow : String → Type 0
  Narrow rid = length (cands_of inp rid) ≤ width inp free0

  expand_first-le :
      (p : Partial) (rids : List String)
      → All Narrow rids
      → length (expand_first inp free0 p rids) ≤ width inp free0
  unfolding expand_first sorted_cands
  expand_first-le p [] h = omega arith
  expand_first-le p (rid ∷ rids) (h, hs) = omega (
    arith,
    length-select-le (admissible inp free0 p) (sorted_cands inp free0 rid),
    length-sort _ (cands_of inp rid),
  )

  pub expand-le : (p : Partial) → length (expand inp free0 p) ≤ width inp free0
  unfolding expand ready width
  expand-le p = elim (Bool-cases (eqb (length p.assigned) (length (distinct (unsat inp free0))))) [
    | inl e ↦ rw e (omega arith)
    | inr e ↦ rw e (
        expand_first-le p _ (
          All-sort _ Narrow (ready inp free0 p) (
            All-select Narrow _ (unsat inp free0)
              (All-max_by (λ rid. length (cands_of inp rid)) (unsat inp free0) _ (omega arith)))))
  ]

  abbrev frame_cost : List (List Candidate) → ℕ
  frame_cost = sum_by (λ f. suc (length f))

  module _ (part_hash : KeyPart → ℕ) (state_limit : ℕ) (collect_all : Bool)
      (emergency : ℕ → Bool) where
    -- What is left to do at a node.
    abbrev pub measure : Node → ℕ
    measure n = (state_limit - n.visited) * (width inp free0 + 2) + frame_cost n.stack

    abbrev Below : ℕ → Turn → Type 0
    Below k (next m) = measure m < k
    Below k (halt m) = Unit
    Below k raised = Unit

    record_complete_fields :
        (n : Node)
        → ((record_complete inp free0 part_hash state_limit collect_all emergency n).stack
            ≡ n.stack)
          × ((record_complete inp free0 part_hash state_limit collect_all emergency n).visited
              ≡ n.visited)
    unfolding record_complete
    record_complete_fields n = ground arith

    -- the state that is counted pays for a new frame
    room :
        (v k : ℕ)
        → leb state_limit v ≡ false
        → k ≤ width inp free0
        → (state_limit - (v + 1)) * (width inp free0 + 2) + suc k
          < (state_limit - v) * (width inp free0 + 2)
    room v k h b =
        let e : state_limit - v ≡ suc (state_limit - (v + 1)) = ground arith in
        omega (arith, ap (λ t. t * (width inp free0 + 2)) e)

    module _ (n : Node) (c : Candidate) (k : ℕ) where
      abbrev counted : ℕ
      counted = (state_limit - n.visited) * (width inp free0 + 2)

      open_frame :
          (ds : List Candidate)
          → length ds ≤ width inp free0
          → counted + suc (width inp free0) + frame_cost n.stack < k
          → Below k (elim ds [
            | [] ↦ next (unwind inp free0 part_hash state_limit collect_all emergency n)
            | d ∷ rest ↦ next (record n { pushed = c ∷ n.pushed; stack = (d ∷ rest) ∷ n.stack })
          ])
      open_frame [] w h = omega arith
      open_frame (d ∷ ds) w h = omega arith

      descend-Below :
          counted + suc (width inp free0) + frame_cost n.stack < k
          → Below k (descend inp free0 part_hash state_limit collect_all emergency n c)
      unfolding descend
      descend-Below h = elim (Bool-cases (is_complete inp free0 n.partial)) [
        | inl e ↦ rw e (recorded collect_all)
        | inr e ↦ rw e (open_frame (expand inp free0 n.partial) (expand-le n.partial) h)
      ]
        where
          done : Node
          done = record_complete inp free0 part_hash state_limit collect_all emergency n

          recorded :
              (all : Bool)
              → Below k (
                  if all
                  then next (unwind inp free0 part_hash state_limit collect_all emergency done)
                  else halt (record done { stack = []; partial = pop done.partial }))
          recorded true = omega (
            arith,
            ap (λ v. (state_limit - v) * (width inp free0 + 2)) (record_complete_fields n).1,
            ap frame_cost (record_complete_fields n).0,
          )
          recorded false = tt

    try-Below :
        (n : Node) (c : Candidate)
        → Below (suc (measure n)) (
            after_enter inp free0 part_hash state_limit collect_all emergency
              (enter inp free0 part_hash state_limit collect_all emergency n)
              c)
    unfolding enter after_enter
    try-Below n c = elim (Bool-cases (has_number n.seen n.partial.state_hash)) [
      | inl e ↦ rw e (omega arith)
      | inr e ↦ elim (Bool-cases (leb state_limit n.visited)) [
        | inl f ↦ rw (e, f) tt
        | inr f ↦ elim (Bool-cases (emergency (n.visited + 1))) [
          | inl g ↦ rw (e, f, g) tt
          | inr g ↦
              rw (e, f, g)
                (descend-Below _ c _
                  (omega (arith, room n.visited (width inp free0) f (omega arith))))
        ]
      ]
    ]

    turn-Below :
        (n : Node) (top : List Candidate) (rest : List (List Candidate))
        → n.stack ≡ top ∷ rest
        → Below (measure n) (turn inp free0 part_hash state_limit collect_all emergency n top rest)
    unfolding turn
    turn-Below n [] rest e = ground (arith, ap frame_cost e)
    turn-Below n (c ∷ cs) rest e =
        subst
          (λ k.
            Below k (turn inp free0 part_hash state_limit collect_all emergency n (c ∷ cs) rest))
          (omega (arith, ap frame_cost e))
          (try-Below
            (record n { stack = cs ∷ rest; partial = push part_hash inp.capacity_mode n.partial c })
            c)

    follow_total :
        (go : Node → Option (Option Node)) (k : ℕ)
        → ((m : Node) → measure m < k → is_some (go m) ≡ true)
        → (t : Turn) → Below k t
        → is_some (follow inp free0 part_hash state_limit collect_all emergency go t) ≡ true
    unfolding follow
    follow_total go k total (next m) b = total m b
    follow_total go k total (halt m) b = refl
    follow_total go k total raised b = refl

    go_on_total :
        (go : Node → Option (Option Node)) (n : Node)
        → ((m : Node) → measure m < measure n → is_some (go m) ≡ true)
        → (st : List (List Candidate)) → n.stack ≡ st
        → is_some (go_on inp free0 part_hash state_limit collect_all emergency go n st) ≡ true
    unfolding go_on
    go_on_total go n total [] e = refl
    go_on_total go n total (top ∷ rest) e =
        follow_total go (measure n) total _ (turn-Below n top rest e)

    -- With more fuel than the measure of its node the loop ends.
    pub loop_total :
        (fuel : ℕ) (n : Node)
        → measure n < fuel
        → is_some (loop inp free0 part_hash state_limit collect_all emergency fuel n) ≡ true
    unfolding loop
    loop_total zero n h = absurd (omega arith)
    loop_total (suc fuel) n h =
        go_on_total (loop inp free0 part_hash state_limit collect_all emergency fuel) n
          (λ m b. loop_total fuel m (omega arith)) n.stack refl
