-- ===== src/Placement/Search/Sound.antt =====
-- The invariant of the loop of _search in modelark/placement.py, and the snapshots that it records.
use modelark.Prelude.{
  ℕ, zero, suc, ◌+◌, ◌≡◌, refl, sym, ◌∙◌, ap, subst, Option, none, some, Bool, true, List, [], ◌∷◌,
  All, all, arith, is_none, Bool-cases, inl, inr, if◌then◌else◌, leb,
}
use modelark.Prelude.Dict.{Dict, get, has}
use modelark.Candidates.{Candidate}
use modelark.Placement.{SolverInput}
use modelark.Placement.Partial.{Partial, KeyPart, push, pop}
use modelark.Placement.Order.{Score, score_partial}
use modelark.Placement.Partial.Ledger.{Describes, keyed, push-Describes, pop-Describes, free0-pop}
use modelark.Placement.Search.Invariant.{Ok, Placed, Fits, IdsMatch, expand-Ok}
use modelark.Placement.Search.{
  Node, Turn, next, halt, raised, Status, entered, skip, exhaust, raise, unsat, expand, is_complete,
  enter, record_complete, unwind, descend, after_enter, turn, follow, go_on, loop, improves,
  cand_target_list, has_number,
}

module _ (inp : SolverInput) (free0 : Dict ℕ) where
  -- A dict of assignments that places every unsatisfied requirement within the limits.
  abbrev pub Complete : Dict Candidate → Type 0
  Complete m =
      (cs : List Candidate) × (m ≡ keyed cs)
      × Placed inp free0 cs
      × (all (λ rid. has rid m) (unsat inp free0) ≡ true)

  abbrev pub SnapOk : Option (Dict Candidate) → Type 0
  SnapOk none = Unit
  SnapOk (some m) = Complete m

  abbrev tail : List Candidate → List Candidate
  tail [] = []
  tail (c ∷ cs) = cs

  -- Each frame may go on top of the assignments that were live when it was made.
  abbrev Frames : List (List Candidate) → List Candidate → Type 0
  Frames [] cs = Unit
  Frames (f ∷ fs) cs = All (Ok inp free0 cs) f × Frames fs (tail cs)

  pub record Live (p : Partial) (cs : List Candidate) : Type 0 where
    pub ledger : Describes inp.capacity_mode p cs
    pub free : p.free0 ≡ free0
    pub placed : Placed inp free0 cs
    pub fits : Fits inp free0 cs

  pub record Sound (n : Node) : Type 0 where
    pub live : Live n.partial n.pushed
    pub frames : Frames n.stack n.pushed
    pub first : SnapOk n.first_snap
    pub best : SnapOk n.best_snap

  -- A node whose latest assignment is being tried: it is in the ledger and not yet on `pushed`.
  record Trying (n : Node) (c : Candidate) : Type 0 where
    live : Live n.partial (c ∷ n.pushed)
    frames : Frames n.stack n.pushed
    first : SnapOk n.first_snap
    best : SnapOk n.best_snap

  module _ (part_hash : KeyPart → ℕ) where
    push-Live :
        (p : Partial) (c : Candidate) (cs : List Candidate)
        → Ok inp free0 cs c
        → Live p cs
        → Live (push part_hash inp.capacity_mode p c) (c ∷ cs)
    unfolding push
    push-Live p c cs ok l = record {
      ledger =
          push-Describes part_hash inp.capacity_mode p c cs
            (ap (get c.requirement_id) l.ledger.assigned ∙ ok.0) l.ledger;
      free = l.free;
      placed = (ok, l.placed);
      fits = ok.1;
    }

    pop-Live :
        (p : Partial) (c : Candidate) (cs : List Candidate)
        → Fits inp free0 cs
        → Live p (c ∷ cs)
        → Live (pop p) cs
    pop-Live p c cs h l = record {
      ledger = pop-Describes inp.capacity_mode p c cs l.placed.0.0 l.ledger;
      free = free0-pop p ∙ l.free;
      placed = l.placed.1;
      fits = h;
    }

    pub Placed-Fits : (cs : List Candidate) → Placed inp free0 cs → Fits inp free0 cs
    Placed-Fits [] h lab = omega arith
    Placed-Fits (c ∷ cs) h lab = h.0.1 lab

    module _ (ids : IdsMatch inp) (state_limit : ℕ) (collect_all : Bool)
        (emergency : ℕ → Bool) where
      abbrev TurnOk : Turn → Type 0
      TurnOk (next m) = Sound m
      TurnOk (halt m) = SnapOk m.first_snap × SnapOk m.best_snap
      TurnOk raised = Unit

      same :
          {n : Node} {c : Candidate}
          → Trying n c
          → (v : ℕ) (seen : List ℕ) (x : Bool)
          → Trying (record n { visited = v; seen = seen; exhausted = x }) c
      same s v seen x = record { live = s.live; frames = s.frames; first = s.first; best = s.best }

      -- `enter` writes only what it has seen and counted
      enter-Trying :
          (n : Node) (c : Candidate)
          → Trying n c
          → Trying (enter inp free0 part_hash state_limit collect_all emergency n).1 c
      unfolding enter
      enter-Trying n c s = elim (Bool-cases (has_number n.seen n.partial.state_hash)) [
        | inl e ↦ rw e s
        | inr e ↦ elim (Bool-cases (leb state_limit n.visited)) [
          | inl f ↦ rw (e, f) (same s n.visited n.seen true)
          | inr f ↦ rw (e, f) (same s (n.visited + 1) (n.partial.state_hash ∷ n.seen) n.exhausted)
        ]
      ]

      snapped :
          {n : Node} {c : Candidate} (f b : Option (Dict Candidate)) (sc : Option Score)
          → Trying n c
          → SnapOk f
          → SnapOk b
          → Trying (record n { first_snap = f; best_snap = b; best_score = sc }) c
      snapped f b sc t of ob = record { live = t.live; frames = t.frames; first = of; best = ob }

      record_complete-Trying :
          (n : Node) (c : Candidate)
          → is_complete inp free0 n.partial ≡ true
          → Trying n c
          → Trying (record_complete inp free0 part_hash state_limit collect_all emergency n) c
      unfolding record_complete is_complete
      record_complete-Trying n c e t = elim (Bool-cases (is_none n.first_snap)) [
        | inl g ↦
            rw g
              (snapped (some n.partial.assigned) (some n.partial.assigned) (some score) t snap snap)
        | inr g ↦ elim (Bool-cases (better n.best_score score)) [
          | inl h ↦
              rw (g, h) (snapped n.first_snap (some n.partial.assigned) (some score) t t.first snap)
          | inr h ↦ rw (g, h) t
        ]
      ]
        where
          better : Option Score → Score → Bool
          better = improves inp free0 part_hash state_limit collect_all emergency

          score : Score
          score =
              score_partial inp.capacity_mode inp.preference n.partial (cand_target_list inp free0)

          snap : Complete n.partial.assigned
          snap = (c ∷ n.pushed, t.live.ledger.assigned, t.live.placed, e)

      abbrev unwound : Node → Node
      unwound = unwind inp free0 part_hash state_limit collect_all emergency

      unwind-Sound : (n : Node) (c : Candidate) → Trying n c → Sound (unwound n)
      unwind-Sound n c t = record {
        live = pop-Live n.partial c n.pushed (Placed-Fits n.pushed t.live.placed.1) t.live;
        frames = t.frames;
        first = t.first;
        best = t.best;
      }

      -- a complete assignment was recorded
      recorded :
          (n : Node)
          → Sound n
          → TurnOk (if collect_all then next n else halt (record n { stack = [] }))
      recorded n s = elim (Bool-cases collect_all) [
        | inl e ↦ rw e s
        | inr e ↦ rw e (s.first, s.best)
      ]

      open_frame :
          (n : Node) (c : Candidate) (ds : List Candidate)
          → expand inp free0 n.partial ≡ ds
          → Trying n c
          → TurnOk (elim ds [
            | [] ↦ next (unwound n)
            | d ∷ rest ↦ next (record n { pushed = c ∷ n.pushed; stack = (d ∷ rest) ∷ n.stack })
          ])
      open_frame n c [] e t = unwind-Sound n c t
      open_frame n c (d ∷ rest) e t = record {
        live = t.live;
        frames = (
          subst (All (Ok inp free0 (c ∷ n.pushed))) e (
              expand-Ok inp free0 n.partial (c ∷ n.pushed) t.live.ledger t.live.free ids
                t.live.fits),
          t.frames,
        );
        first = t.first;
        best = t.best;
      }

      descend-TurnOk :
          (n : Node) (c : Candidate)
          → Trying n c
          → TurnOk (descend inp free0 part_hash state_limit collect_all emergency n c)
      unfolding descend
      descend-TurnOk n c t = elim (Bool-cases (is_complete inp free0 n.partial)) [
        | inl e ↦ rw e (recorded _ (unwind-Sound _ c (record_complete-Trying n c e t)))
        | inr e ↦ rw e (open_frame n c _ refl t)
      ]

      after_enter-TurnOk :
          (s : Status) (m : Node) (c : Candidate)
          → Trying m c
          → TurnOk (after_enter inp free0 part_hash state_limit collect_all emergency (s, m) c)
      unfolding after_enter
      after_enter-TurnOk entered m c t = descend-TurnOk m c t
      after_enter-TurnOk skip m c t = unwind-Sound m c t
      after_enter-TurnOk exhaust m c t = (t.first, t.best)
      after_enter-TurnOk raise m c t = tt

      back :
          (n : Node) (rest : List (List Candidate)) (cs : List Candidate)
          → n.pushed ≡ cs
          → Frames rest (tail n.pushed)
          → Sound n
          → Sound (elim cs [
            | [] ↦ record n { stack = rest }
            | c ∷ ds ↦ record n { stack = rest; partial = pop n.partial; pushed = ds }
          ])
      back n rest [] e fr s = record {
        live = s.live;
        frames = subst (Frames rest) (sym e) (subst (λ xs. Frames rest (tail xs)) e fr);
        first = s.first;
        best = s.best;
      }
      back n rest (c ∷ ds) e fr s = record {
        live =
            let l = subst (Live n.partial) e s.live in
            pop-Live n.partial c ds (Placed-Fits ds l.placed.1) l;
        frames = subst (λ xs. Frames rest (tail xs)) e fr;
        first = s.first;
        best = s.best;
      }

      turn-TurnOk :
          (n : Node) (top : List Candidate) (rest : List (List Candidate))
          → Frames (top ∷ rest) n.pushed
          → Sound n
          → TurnOk (turn inp free0 part_hash state_limit collect_all emergency n top rest)
      unfolding turn
      turn-TurnOk n [] rest fr s = back n rest n.pushed refl fr.1 s
      turn-TurnOk n (c ∷ cs) rest fr s = after_enter-TurnOk _ _ c (
          enter-Trying _ c (record {
            live = push-Live n.partial c n.pushed fr.0.0 s.live;
            frames = (fr.0.1, fr.1);
            first = s.first;
            best = s.best;
          }))

      abbrev Snaps : Node → Type 0
      Snaps n = SnapOk n.first_snap × SnapOk n.best_snap

      module _ (go : Node → Option (Option Node)) (m : Node)
          (rest_ok : (k : Node) → Sound k → go k ≡ some (some m) → Snaps m) where
        follow-Snaps :
            (t : Turn)
            → TurnOk t
            → follow inp free0 part_hash state_limit collect_all emergency go t ≡ some (some m)
            → Snaps m
        unfolding follow
        follow-Snaps (next k) s h = rest_ok k s h
        follow-Snaps (halt k) s h = let e : k ≡ m = cc in subst Snaps e s
        follow-Snaps raised s h = cc

        go_on-Snaps :
            (n : Node) (st : List (List Candidate))
            → Frames st n.pushed
            → Sound n
            → go_on inp free0 part_hash state_limit collect_all emergency go n st ≡ some (some m)
            → Snaps m
        unfolding go_on
        go_on-Snaps n [] fr s h = let e : n ≡ m = cc in subst Snaps e (s.first, s.best)
        go_on-Snaps n (top ∷ rest) fr s h = follow-Snaps _ (turn-TurnOk n top rest fr s) h

      -- Whatever the loop has recorded when it ends is a complete assignment within the limits.
      pub loop-Complete :
          (fuel : ℕ) (n m : Node)
          → Sound n
          → loop inp free0 part_hash state_limit collect_all emergency fuel n ≡ some (some m)
          → SnapOk m.first_snap × SnapOk m.best_snap
      unfolding loop
      loop-Complete zero n m s h = cc
      loop-Complete (suc fuel) n m s h =
          go_on-Snaps (loop inp free0 part_hash state_limit collect_all emergency fuel) m
            (λ k sk hk. loop-Complete fuel k m sk hk) n n.stack s.frames s h
