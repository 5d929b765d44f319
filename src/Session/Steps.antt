-- ===== src/Session/Steps.antt =====
-- Proof by cases on the commands of modelark/execution_session.py: what an UPDATE of a live row, a new
-- graph and an INSERT keep, every command keeps.
use modelark.Prelude.{
  ℕ, ◌+◌, ◌≡◌, refl, subst, String, Option, none, some, Bool, true, false, not, ◌&&◌, ◌==◌, eqb,
  arith, Bool-cases, Option-cases, inl, inr,
}
use modelark.Prelude.Dict.{get, put}
use modelark.Session.{
  SessionState, is_live, is_claimable, is_resumable, beats, Session, Catalog, Reply, refused,
  applied, RefusalCode, Start, Command, begin, claim_worker, heartbeat, terminalize, session_write,
  live_session_exists, update, named, claimed, renewed, ended, worker_refusal, revives,
  require_current, claim_row, heartbeat_row, terminalize_row, session_write_row, finish,
  insert_session, inserted, with_predecessor, start_session, execute, with_row, unless, Reaches,
  here, step,
}

claimable-live : (s : SessionState) → is_claimable s ≡ true → is_live s ≡ true
claimable-live s h = ground arith

beats-live : (s : SessionState) → beats s ≡ true → is_live s ≡ true
beats-live s h = ground arith

-- What holds of the catalog that is committed, if one is.
abbrev pub Holds : {G : Type 0} → (Catalog G → Type 0) → Reply G → Type 0
Holds P (refused code) = Unit
Holds P (applied d) = P d

pub applied-Holds :
    {G : Type 0} (P : Catalog G → Type 0) (r : Reply G) (d : Catalog G)
    → Holds P r
    → r ≡ applied d
    → P d
applied-Holds P (refused code) d k e = cc
applied-Holds P (applied c) d k e = let g : c ≡ d = cc in subst P g k

module _ {G : Type 0} (is_blank : String → Bool) (c : Catalog G) (r : Start)
    (Q : Catalog G → Type 0)
    (after_insert : (p : Option Session)
      → get r.session_id c.sessions ≡ none
      → live_session_exists c ≡ false
      → Q (inserted is_blank c r p)) where
  unless-Kept : (o : Option RefusalCode) (r : Reply G) → Holds Q r → Holds Q (unless is_blank o r)
  unless-Kept none r k = k
  unless-Kept (some code) r k = tt

  insert_session-Kept :
      (p : Option Session) → live_session_exists c ≡ false → Holds Q (insert_session is_blank c r p)
  unfolding insert_session
  insert_session-Kept p l = elim (Option-cases (get r.session_id c.sessions)) [
    | inl e ↦ rw e (after_insert p e l)
    | inr (s, e) ↦ rw e tt
  ]

  with_predecessor-Kept :
      (o : Option Session)
      → live_session_exists c ≡ false
      → Holds Q (with_predecessor is_blank c r o)
  unfolding with_predecessor
  with_predecessor-Kept none l = tt
  with_predecessor-Kept (some p) l = elim (Bool-cases (not (is_resumable p.state))) [
    | inl e ↦ rw e tt
    | inr e ↦ elim (Bool-cases (not (p.approved_proposal_id == r.proposal_id))) [
      | inl f ↦ rw (e, f) tt
      | inr f ↦ rw (e, f) (unless-Kept r.projection _ (insert_session-Kept (some p) l))
    ]
  ]

  by_predecessor :
      (o : Option String)
      → live_session_exists c ≡ false
      → Holds Q (elim o [
        | none ↦ unless is_blank r.projection (insert_session is_blank c r none)
        | some p ↦ with_predecessor is_blank c r (get p c.sessions)
      ])
  by_predecessor none l = unless-Kept r.projection _ (insert_session-Kept none l)
  by_predecessor (some p) l = with_predecessor-Kept (get p c.sessions) l

  pub start_session-Kept : Holds Q (start_session is_blank c r)
  unfolding start_session
  start_session-Kept = unless-Kept r.approval _ (elim (Bool-cases r.pending) [
    | inl e ↦ rw e tt
    | inr e ↦ rw e (
        unless-Kept r.configuration _ (elim (Bool-cases (live_session_exists c)) [
          | inl f ↦ rw f tt
          | inr f ↦ rw f (by_predecessor r.predecessor_id f)
        ]))
  ])

module _ {G : Type 0} (is_blank : String → Bool) (P : Catalog G → Type 0)
    (after_update : (c : Catalog G) (sid : String) (s old : Session)
      → P c
      → get sid c.sessions ≡ some old
      → s.fencing_token ≡ old.fencing_token
      → is_live old.state ≡ true
      → P (record c { sessions = put sid s c.sessions }))
    (after_graph : (c : Catalog G) (g : G) (revision : ℕ)
      → P c
      → P (record c { graph = g; planner_revision = revision }))
    (after_insert : (c : Catalog G) (r : Start) (p : Option Session)
      → P c
      → get r.session_id c.sessions ≡ none
      → live_session_exists c ≡ false
      → P (inserted is_blank c r p)) where
  abbrev Kept : Reply G → Type 0
  Kept = Holds P

  update-Kept :
      (c : Catalog G) (sid : String) (s old : Session)
      → P c
      → get sid c.sessions ≡ some old
      → s.fencing_token ≡ old.fencing_token
      → is_live old.state ≡ true
      → Kept (update is_blank c sid s)
  unfolding update
  update-Kept c sid s old w h t i =
      elim (Bool-cases (beats s.state && not (named is_blank s.worker_identity))) [
        | inl e ↦ rw e tt
        | inr e ↦ rw e (after_update c sid s old w h t i)
      ]

  module _ (c : Catalog G) (sid : String) (s : Session) (w : P c)
      (h : get sid c.sessions ≡ some s) where
    claim_row-Kept :
        (token : ℕ) (worker : String) (controller : Option String)
        → Kept (claim_row is_blank c sid token worker controller s)
    unfolding claim_row
    claim_row-Kept token worker controller = elim (Bool-cases (not (eqb s.fencing_token token))) [
      | inl e ↦ rw e tt
      | inr e ↦ elim (Bool-cases (not (is_claimable s.state))) [
        | inl f ↦ rw (e, f) tt
        | inr f ↦
            rw (e, f)
              (update-Kept c sid (claimed worker controller s) s w h refl
                (claimable-live s.state (ground (arith, f))))
      ]
    ]

    heartbeat_row-Kept :
        (token : ℕ) (worker : Option String) (now expires : String)
        → Kept (heartbeat_row is_blank c sid token worker now expires s)
    unfolding heartbeat_row
    heartbeat_row-Kept token worker now expires =
        elim (Bool-cases (not (eqb s.fencing_token token))) [
          | inl e ↦ rw e tt
          | inr e ↦ elim (Bool-cases (not (beats s.state))) [
            | inl f ↦ rw (e, f) tt
            | inr f ↦ elim (Option-cases (worker_refusal worker s.worker_identity)) [
              | inl g ↦
                  rw (e, f, g)
                    (update-Kept c sid (renewed now expires s) s w h refl
                      (beats-live s.state (ground (arith, f))))
              | inr (code, g) ↦ rw (e, f, g) tt
            ]
          ]
        ]

    terminalize_row-Kept :
        (token : ℕ) (state : SessionState) (code : Option String) (now : String)
        → Kept (terminalize_row is_blank c sid token state code now s)
    unfolding terminalize_row
    terminalize_row-Kept token state code now =
        elim (Bool-cases (not (eqb s.fencing_token token))) [
          | inl e ↦ rw e tt
          | inr e ↦ elim (Bool-cases (revives s.state state)) [
            | inl f ↦ rw (e, f) tt
            | inr f ↦ elim (Bool-cases (not (is_live s.state))) [
              | inl g ↦ rw (e, f, g) w
              | inr g ↦
                  rw (e, f, g)
                    (update-Kept c sid (ended state code now s) s w h refl (ground (arith, g)))
            ]
          ]
        ]

    finish-Kept :
        is_live s.state ≡ true → (o : Option (G × Bool)) → Kept (finish is_blank c sid s o)
    finish-Kept l none = tt
    finish-Kept l (some (g, true)) = after_graph c g c.planner_revision w
    finish-Kept l (some (g, false)) =
        update-Kept (record c { graph = g; planner_revision = c.planner_revision + 1 }) sid
          (record s { bound_planner_revision = c.planner_revision + 1 }) s
          (after_graph c g (c.planner_revision + 1) w) h refl l

    session_write_row-Kept :
        (token : ℕ) (operation : G → Option (G × Bool))
        → Kept (session_write_row is_blank c sid token operation s)
    unfolding session_write_row
    session_write_row-Kept token operation = elim (Bool-cases (not (eqb s.fencing_token token))) [
      | inl e ↦ rw e tt
      | inr e ↦ elim (Bool-cases (not (is_live s.state))) [
        | inl f ↦ rw (e, f) tt
        | inr f ↦
            elim (Bool-cases
              (not (require_current (sid, token) (sid, s.fencing_token) is_live s.state))) [
                | inl g ↦ rw (e, f, g) tt
                | inr g ↦ rw (e, f, g) (finish-Kept (ground (arith, f)) (operation c.graph))
              ]
      ]
    ]

  with_row-Kept :
      (c : Catalog G) (sid : String) (f : Session → Reply G)
      → ((s : Session) → get sid c.sessions ≡ some s → Kept (f s))
      → (o : Option Session) → get sid c.sessions ≡ o
      → Kept (with_row is_blank f o)
  with_row-Kept c sid f k none e = tt
  with_row-Kept c sid f k (some s) e = k s e

  execute-Kept : (c : Catalog G) (k : Command G) → P c → Kept (execute is_blank c k)
  unfolding execute
  execute-Kept c (begin r) w = start_session-Kept is_blank c r P (λ p. after_insert c r p w)
  execute-Kept c (claim_worker sid token worker controller) w =
      with_row-Kept c sid _ (λ s h. claim_row-Kept c sid s w h token worker controller) _ refl
  execute-Kept c (heartbeat sid token worker now expires) w =
      with_row-Kept c sid _ (λ s h. heartbeat_row-Kept c sid s w h token worker now expires) _ refl
  execute-Kept c (terminalize sid token state code now) w =
      with_row-Kept c sid _ (λ s h. terminalize_row-Kept c sid s w h token state code now) _ refl
  execute-Kept c (session_write sid token operation) w =
      with_row-Kept c sid _ (λ s h. session_write_row-Kept c sid s w h token operation) _ refl

  pub execute-keeps :
      (c d : Catalog G) (k : Command G) → P c → execute is_blank c k ≡ applied d → P d
  execute-keeps c d k w e = applied-Holds P _ d (execute-Kept c k w) e

  pub Reaches-keeps : (c d : Catalog G) → Reaches is_blank c d → P c → P d
  Reaches-keeps c d (here _) w = w
  Reaches-keeps c d (step _ m _ k r e) w = execute-keeps m d k (Reaches-keeps c m r w) e
