-- ===== src/Placement/Search.antt =====
-- modelark/placement.py, _search: the depth-first search on an explicit stack. The `while` loop takes
-- fuel. A frame keeps the candidates that are still to be tried in the order in which they are
-- tried: the source reverses the list and takes from its end.
-- `emergency` says at which count of visited states the injected monitor raises.
pub mod Invariant
pub mod Sound
pub mod Termination
pub mod Unraised
unfoldable pub use modelark.Prelude.Distinct.{distinct}
use modelark.Prelude.{
  ℕ, suc, zero, ◌+◌, ◌*◌, ltb, leb, eqb, String, Option, none, some, Bool, true, false, not, ◌&&◌,
  ◌||◌, List, [], ◌∷◌, ◌++◌, if◌then◌else◌, is_some, is_none, get_or, contains, select, all, length,
  map, max_by, sum_by, ◌==◌,
}
use modelark.Prelude.Dict.{Dict, count_at, get, has}
use modelark.Prelude.Int.{ℤ, sub_ℕ}
use modelark.Prelude.Sort.{sort, sort_texts}
use modelark.Candidates.{CopyRequirement, Candidate, Source, source, pending_home, no_source}
use modelark.Placement.{
  SolverInput, SuccessorPreference, AssignmentTask, CanonicalAssignment, cand_durable,
  cand_workspace, cand_peak, cands_of, is_satisfied, unsatisfied, req_of, drive_of,
}
use modelark.Placement.Partial.{
  Partial, KeyPart, empty_partial, push, pop, fits, domain_ok, resolve_source,
}
use modelark.Placement.Order.{
  Score, OrderKey, compare_order, compare_candidates, compare_score, score_partial, is_less,
}

-- The mutable variables of `_search`.
pub record Node : Type 0 where
  pub partial : Partial
  pub stack : List (List Candidate)
  pub pushed : List Candidate
  pub visited : ℕ
  pub seen : List ℕ
  pub exhausted : Bool
  pub first_snap : Option (Dict Candidate)
  pub best_snap : Option (Dict Candidate)
  pub best_score : Option Score

-- the status of `enter`; `raise` is EmergencyResourceLimit
pub data Status : Type 0 where
  entered skip exhaust raise : Status

-- key in seen
abbrev pub has_number : List ℕ → ℕ → Bool
has_number [] k = false
has_number (x ∷ xs) k = eqb x k || has_number xs k

-- What one turn of the loop leads to.
pub data Turn : Type 0 where
  next : Node → Turn
  halt : Node → Turn
  raised : Turn

module _ (inp : SolverInput) (free0 : Dict ℕ) where
  abbrev pub mode : String
  mode = inp.capacity_mode

  -- unsat
  unfoldable pub unsat : List String
  unsat = sort_texts (unsatisfied inp)

  -- _static_order_keys
  unfoldable pub order_key : String → OrderKey
  order_key rid = record {
    alone =
        length
          (select (λ c. leb (cand_peak mode c) (count_at c.target_drive free0)) (cands_of inp rid));
    peak = max_by (cand_peak mode) (cands_of inp rid);
    requirement_id = rid;
  }

  -- sorted_cands.get(rid, ())
  unfoldable pub sorted_cands : String → List Candidate
  sorted_cands rid =
      sort (λ a b. is_less (compare_candidates inp.preference a b)) (cands_of inp rid)

  -- cand_target_list
  targets_of : List String → List String
  targets_of [] = []
  targets_of (rid ∷ rids) = map (λ c. c.target_drive) (cands_of inp rid) ++ targets_of rids

  unfoldable pub cand_target_list : List String
  unfolding targets_of distinct
  cand_target_list = sort_texts (distinct (targets_of unsat))

  -- dep is None or dep in partial.assigned or dep in satisfied
  abbrev pub dependency_met : Partial → Option String → Bool
  dependency_met p none = true
  dependency_met p (some dep) = has dep p.assigned || is_satisfied inp dep

  abbrev pub independent_of : Option CopyRequirement → Option String
  independent_of none = none
  independent_of (some r) = r.independent_of

  -- the list `ready` of `expand`
  unfoldable pub ready : Partial → List String
  ready p =
      select
        (λ rid.
          not (has rid p.assigned) && dependency_met p (independent_of (req_of inp.desired rid)))
        unsat

  abbrev pub pending_met : Partial → Source → Bool
  pending_met p (pending_home rid) = has rid p.assigned || is_satisfied inp rid
  pending_met p _ = true

  -- the tests of the inner loop of `expand`
  unfoldable pub admissible : Partial → Candidate → Bool
  admissible p c =
      fits mode p c
      && domain_ok (drive_of inp.drives) (req_of inp.desired) p.assigned c
      && pending_met p c.source

  expand_first : Partial → List String → List Candidate
  expand_first p [] = []
  expand_first p (rid ∷ rest) = select (admissible p) (sorted_cands rid)

  unfoldable pub expand : Partial → List Candidate
  unfolding expand_first
  expand p =
      if eqb (length p.assigned) (length (distinct unsat))
      then []
      else expand_first p
          (sort (λ a b. is_less (compare_order (order_key a) (order_key b))) (ready p))

  -- all(rid in partial.assigned for rid in unsat)
  unfoldable pub is_complete : Partial → Bool
  is_complete p = all (λ rid. has rid p.assigned) unsat

  -- the widest frame that `expand` can make
  unfoldable pub width : ℕ
  width = max_by (λ rid. length (cands_of inp rid)) unsat

  module _ (part_hash : KeyPart → ℕ) (state_limit : ℕ) (collect_all : Bool)
      (emergency : ℕ → Bool) where
    unfoldable pub enter : Node → Status × Node
    enter n =
        if has_number n.seen n.partial.state_hash
        then (skip, n)
        else if leb state_limit n.visited
        then (exhaust, record n { exhausted = true })
        else let m = record n { seen = n.partial.state_hash ∷ n.seen; visited = n.visited + 1 } in
          (if emergency m.visited then raise else entered, m)

    -- sc < best, where a best exists
    abbrev pub improves : Option Score → Score → Bool
    improves none sc = true
    improves (some best) sc = is_less (compare_score sc best)

    -- record_complete, without its result
    unfoldable pub record_complete : Node → Node
    record_complete n =
        let sc = score_partial mode inp.preference n.partial cand_target_list in
        let snap = n.partial.assigned in
        if is_none n.first_snap
        then record n { first_snap = some snap; best_snap = some snap; best_score = some sc }
        else if improves n.best_score sc
        then record n { best_snap = some snap; best_score = some sc }
        else n

    abbrev pub unwind : Node → Node
    unwind n = record n { partial = pop n.partial }

    -- after `enter` has counted the state of the candidate that was pushed
    unfoldable pub descend : Node → Candidate → Turn
    descend n c =
        if is_complete n.partial
        then (let m = unwind (record_complete n) in
            if collect_all then next m else halt (record m { stack = [] }))
        else elim (expand n.partial) [
          | [] ↦ next (unwind n)
          | d ∷ ds ↦ next (record n { pushed = c ∷ n.pushed; stack = (d ∷ ds) ∷ n.stack })
        ]

    after_enter : Status × Node → Candidate → Turn
    unfolding descend
    after_enter (entered, m) c = descend m c
    after_enter (skip, m) c = next (unwind m)
    after_enter (exhaust, m) c = halt (unwind m)
    after_enter (raise, m) c = raised

    -- one candidate of the top frame
    unfoldable pub try_candidate : Node → Candidate → Turn
    unfolding after_enter
    try_candidate n c =
        after_enter (enter (record n { partial = push part_hash mode n.partial c })) c

    -- an empty top frame: the candidate under it is taken back
    unfoldable pub backtrack : Node → List (List Candidate) → Node
    backtrack n rest = elim n.pushed [
      | [] ↦ record n { stack = rest }
      | c ∷ cs ↦ record n { stack = rest; partial = pop n.partial; pushed = cs }
    ]

    unfoldable pub turn : Node → List Candidate → List (List Candidate) → Turn
    unfolding backtrack try_candidate
    turn n [] rest = next (backtrack n rest)
    turn n (c ∷ cs) rest = try_candidate (record n { stack = cs ∷ rest }) c

    -- what follows a turn, with the rest of the loop as `go`
    unfoldable pub follow : (Node → Option (Option Node)) → Turn → Option (Option Node)
    follow go (next m) = go m
    follow go (halt m) = some (some m)
    follow go raised = some none

    unfoldable pub go_on :
        (Node → Option (Option Node)) → Node → List (List Candidate) → Option (Option Node)
    unfolding follow turn
    go_on go n [] = some (some n)
    go_on go n (top ∷ rest) = follow go (turn n top rest)

    -- The `while` loop: `some none` is an emergency, and `none` is fuel that ran out.
    unfoldable pub loop : ℕ → Node → Option (Option Node)
    unfolding go_on
    loop zero n = none
    loop (suc fuel) n = go_on (loop fuel) n n.stack
