-- ===== src/Session.antt =====
-- modelark/execution_session.py: the rows of execution_sessions and the operations on one of them,
-- with the counters of planner_state. `require_current` is modelark/execution_authority.py and
-- `bump_revision` modelark/proposal.py. The rest of the catalog, which `session_write` lends to its
-- operation, is a type `G`; an operation is a function of it that may raise. Times are arguments.
-- Each operation is one step: its reads and its UPDATE are taken together, although only start_session
-- and session_write hold a transaction around both, and the UPDATE of claim_worker tests the token but
-- not the state again.
pub mod Steps
pub mod Invariant
pub mod Tokens
mod Examples
use modelark.Prelude.{
  ℕ, ◌+◌, String, Option, none, some, Bool, true, false, not, ◌&&◌, ◌||◌, List, [], ◌∷◌, ◌==◌, eqb,
  leb, is_some, is_none, if◌then◌else◌, any, ◌≡◌, get_or,
}
use modelark.Prelude.Dict.{Dict, get, put}

-- the CHECK on execution_sessions.state
pub data SessionState : Type 0 where
  starting running stopping paused blocked stopped completed failed : SessionState

-- LIVE_STATES
abbrev pub is_live : SessionState → Bool
is_live starting = true
is_live running = true
is_live stopping = true
is_live _ = false

-- RESUMABLE_STATES
abbrev pub is_resumable : SessionState → Bool
is_resumable paused = true
is_resumable blocked = true
is_resumable stopped = true
is_resumable failed = true
is_resumable _ = false

-- NOT_RESUMABLE_STATES
abbrev pub is_done : SessionState → Bool
is_done completed = true
is_done _ = false

-- state in ("starting", "running")
abbrev pub is_claimable : SessionState → Bool
is_claimable starting = true
is_claimable running = true
is_claimable _ = false

-- state in ("running", "stopping")
abbrev pub beats : SessionState → Bool
beats running = true
beats stopping = true
beats _ = false

pub record Session : Type 0 where
  pub plan_id : String
  pub approved_proposal_id : String
  pub resumed_from_session_id : Option String
  pub controller_identity : String
  pub worker_identity : Option String
  pub state : SessionState
  pub bound_planner_revision : ℕ
  pub fencing_token : ℕ
  pub heartbeat_at : Option String
  pub expires_at : Option String
  pub terminal_at : Option String
  pub terminal_code : Option String

-- planner_state and execution_sessions
pub record Catalog (G : Type 0) : Type 0 where
  pub sessions : Dict Session
  pub next_fencing_token : ℕ
  pub planner_revision : ℕ
  pub graph : G

-- the codes of Refusal
pub data RefusalCode : Type 0 where
  session_not_found session_token_mismatch session_state_invalid session_worker_mismatch
        session_terminal_immutable :
      RefusalCode
  fill_session_active proposal_review_pending approved_input_changed : RefusalCode
  session_not_resumable resume_approval_mismatch : RefusalCode
  -- sqlite3.IntegrityError of the INSERT, and what the operation of session_write raises
  integrity_error operation_raised : RefusalCode

pub data Reply (G : Type 0) : Type 0 where
  refused : RefusalCode → Reply G
  applied : Catalog G → Reply G

-- worker_identity is None, or it is that of the row; the row must have one
abbrev worker_refusal : Option String → Option String → Option RefusalCode
worker_refusal none none = some session_state_invalid
worker_refusal none (some expected) = none
worker_refusal (some got) none = some session_worker_mismatch
worker_refusal (some got) (some expected) =
    if expected == got then none else some session_worker_mismatch

-- the two tests of terminalize that keep a terminal session terminal
abbrev revives : SessionState → SessionState → Bool
revives old new =
    ((is_done old || (is_resumable old && is_live new)) && not (is_live old) && is_live new)
    || (not (is_live old) && is_live new)

abbrev named : (String → Bool) → Option String → Bool
named is_blank none = false
named is_blank (some w) = not (is_blank w)

-- What start_session is given, and what its checks outside execution_sessions find: the refusals of
-- the approval, of the configuration and of the projection, if any, and whether a draft is pending.
pub record Start : Type 0 where
  pub session_id : String
  pub plan_id : String
  pub proposal_id : String
  pub predecessor_id : Option String
  pub controller : String
  pub expires_at : String
  pub approval : Option RefusalCode
  pub pending : Bool
  pub configuration : Option RefusalCode
  pub projection : Option RefusalCode

pub data Command (G : Type 0) : Type 0 where
  begin : Start → Command G
  claim_worker : String → ℕ → String → Option String → Command G
  heartbeat : String → ℕ → Option String → String → String → Command G
  terminalize : String → ℕ → SessionState → Option String → String → Command G
  session_write : String → ℕ → (G → Option (G × Bool)) → Command G

-- token <= pred_token, with a predecessor
abbrev pub token_after : ℕ → Option Session → ℕ
token_after next none = next
token_after next (some p) = if leb next p.fencing_token then p.fencing_token + 1 else next

-- controller_identity or row[2]
abbrev pub controller_or : Option String → String → String
controller_or none old = old
controller_or (some t) old = if t == "" then old else t

-- execution_authority.require_current: whether it returns and does not raise AuthorityLost
abbrev pub require_current : String × ℕ → String × ℕ → (SessionState → Bool) → SessionState → Bool
require_current (owner, token) (owner_now, token_now) is_allowed state =
    (owner == owner_now) && eqb token token_now && is_allowed state

-- the columns that each UPDATE sets
abbrev pub claimed : String → Option String → Session → Session
claimed worker controller s = record s {
  state = running;
  worker_identity = some worker;
  controller_identity = controller_or controller s.controller_identity;
}

abbrev pub renewed : String → String → Session → Session
renewed now expires s = record s { heartbeat_at = some now; expires_at = some expires }

abbrev pub ended : SessionState → Option String → String → Session → Session
ended state code now s = record s {
  state = state;
  terminal_code = code;
  terminal_at = some now;
  heartbeat_at = none;
  expires_at = none;
}

module _ {G : Type 0} where
  -- SELECT 1 FROM execution_sessions WHERE state IN ('starting','running','stopping')
  abbrev pub live_session_exists : Catalog G → Bool
  live_session_exists c = any (λ e. is_live e.1.state) c.sessions

-- `is_blank` is whether SQLite's trim leaves nothing of a text.
module _ {G : Type 0} (is_blank : String → Bool) where
  -- UPDATE of one row, under the CHECK that a running or stopping session names its worker
  unfoldable pub update : Catalog G → String → Session → Reply G
  update c sid s =
      if beats s.state && not (named is_blank s.worker_identity)
      then refused integrity_error
      else applied (record c { sessions = put sid s c.sessions })

  -- what claim_worker does with the row that it read
  unfoldable pub claim_row : Catalog G → String → ℕ → String → Option String → Session → Reply G
  unfolding update
  claim_row c sid token worker controller s =
      if not (eqb s.fencing_token token)
      then refused session_token_mismatch
      else if not (is_claimable s.state)
      then refused session_state_invalid
      else update c sid (claimed worker controller s)

  unfoldable pub heartbeat_row :
      Catalog G → String → ℕ → Option String → String → String → Session → Reply G
  unfolding update
  heartbeat_row c sid token worker now expires s =
      if not (eqb s.fencing_token token)
      then refused session_token_mismatch
      else if not (beats s.state)
      then refused session_state_invalid
      else elim (worker_refusal worker s.worker_identity) [
        | some code ↦ refused code
        | none ↦ update c sid (renewed now expires s)
      ]

  unfoldable pub terminalize_row :
      Catalog G → String → ℕ → SessionState → Option String → String → Session → Reply G
  unfolding update
  terminalize_row c sid token state code now s =
      if not (eqb s.fencing_token token)
      then refused session_token_mismatch
      else if revives s.state state
      then refused session_terminal_immutable
      else if not (is_live s.state)
      then applied c
      else update c sid (ended state code now s)

  -- bump_revision, then the revision that the session is bound to
  abbrev bump : Catalog G → String → Session → Reply G
  bump c sid s =
      let revision = c.planner_revision + 1 in
      update (record c { planner_revision = revision }) sid
        (record s { bound_planner_revision = revision })

  -- The operation gives the graph after it and whether it is a proven no-op.
  abbrev finish : Catalog G → String → Session → Option (G × Bool) → Reply G
  finish c sid s none = refused operation_raised
  finish c sid s (some (graph, true)) = applied (record c { graph = graph })
  finish c sid s (some (graph, false)) = bump (record c { graph = graph }) sid s

  -- session_write; the token is that of the row before the transaction and inside it
  unfoldable pub session_write_row :
      Catalog G → String → ℕ → (G → Option (G × Bool)) → Session → Reply G
  unfolding update
  session_write_row c sid token operation s =
      if not (eqb s.fencing_token token)
      then refused session_token_mismatch
      else if not (is_live s.state)
      then refused session_state_invalid
      else if not (require_current (sid, token) (sid, s.fencing_token) is_live s.state)
      then refused session_token_mismatch
      else finish c sid s (operation c.graph)

  -- row = con.execute("SELECT … WHERE session_id=?").fetchone(); if not row: raise
  abbrev with_row : (Session → Reply G) → Option Session → Reply G
  with_row f none = refused session_not_found
  with_row f (some s) = f s

  -- the catalog after the INSERT
  abbrev pub inserted : Catalog G → Start → Option Session → Catalog G
  inserted c r pred =
      let token = token_after (c.next_fencing_token + 1) pred in
      record c {
        next_fencing_token = token;
        sessions =
            put r.session_id
              (record {
                plan_id = r.plan_id;
                approved_proposal_id = r.proposal_id;
                resumed_from_session_id = r.predecessor_id;
                controller_identity = r.controller;
                worker_identity = none;
                state = starting;
                bound_planner_revision = c.planner_revision;
                fencing_token = token;
                heartbeat_at = none;
                expires_at = some r.expires_at;
                terminal_at = none;
                terminal_code = none;
              })
              c.sessions;
      }

  unfoldable pub insert_session : Catalog G → Start → Option Session → Reply G
  insert_session c r pred =
      if is_some (get r.session_id c.sessions)
      then refused integrity_error
      else applied (inserted c r pred)

  abbrev unless : Option RefusalCode → Reply G → Reply G
  unless none reply = reply
  unless (some code) reply = refused code

  -- the tests of a predecessor, and what follows them
  unfoldable pub with_predecessor : Catalog G → Start → Option Session → Reply G
  unfolding insert_session
  with_predecessor c r none = refused session_not_resumable
  with_predecessor c r (some p) =
      if not (is_resumable p.state)
      then refused session_not_resumable
      else if not (p.approved_proposal_id == r.proposal_id)
      then refused resume_approval_mismatch
      else unless r.projection (insert_session c r (some p))

  unfoldable pub start_session : Catalog G → Start → Reply G
  unfolding insert_session with_predecessor
  start_session c r = unless r.approval (
      if r.pending
      then refused proposal_review_pending
      else unless r.configuration (
          if live_session_exists c then refused fill_session_active else elim r.predecessor_id [
            | none ↦ unless r.projection (insert_session c r none)
            | some p ↦ with_predecessor c r (get p c.sessions)
          ]))

  unfoldable pub execute : Catalog G → Command G → Reply G
  execute c (begin r) = start_session c r
  execute c (claim_worker sid token worker controller) =
      with_row (claim_row c sid token worker controller) (get sid c.sessions)
  execute c (heartbeat sid token worker now expires) =
      with_row (heartbeat_row c sid token worker now expires) (get sid c.sessions)
  execute c (terminalize sid token state code now) =
      with_row (terminalize_row c sid token state code now) (get sid c.sessions)
  execute c (session_write sid token operation) =
      with_row (session_write_row c sid token operation) (get sid c.sessions)

  -- the catalogs that commands lead to
  pub data Reaches : Catalog G → Catalog G → Type 0 where
    here : (c : Catalog G) → Reaches c c
    step : (c d e : Catalog G) (k : Command G) → Reaches c d → execute d k ≡ applied e → Reaches c e
