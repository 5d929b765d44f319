-- ===== src/Session/Examples.antt =====
-- A session of modelark/execution_session.py that starts, is claimed and ends, and what the theorems
-- say of it.
use modelark.Prelude.{ℕ, ◌≡◌, refl, String, none, some, Bool, false, [], ◌∷◌, ◌==◌, arith}
use modelark.Prelude.Dict.{get, put}
use modelark.Session.{
  SessionState, starting, running, stopped, is_live, Session, Catalog, Reply, refused, applied,
  session_token_mismatch, Start, Command, begin, claim_worker, terminalize, session_write, execute,
  Reaches, here, step, start_session, insert_session, claim_row, terminalize_row, update,
  controller_or,
}
use modelark.Session.Invariant.{WellFormed, Reaches-WellFormed}
use modelark.Session.Tokens.{Reaches-fenced, Reaches-terminal}

abbrev blank : String → Bool
blank t = t == ""

abbrev ended_session : Session
ended_session = record {
  plan_id = "ark";
  approved_proposal_id = "p1";
  resumed_from_session_id = none;
  controller_identity = "controller";
  worker_identity = some "w1";
  state = stopped;
  bound_planner_revision = 4;
  fencing_token = 7;
  heartbeat_at = none;
  expires_at = none;
  terminal_at = some "t1";
  terminal_code = none;
}

-- One session that has stopped; the graph is a number.
abbrev before : Catalog ℕ
before = record {
  sessions = ("s1", ended_session) ∷ [];
  next_fencing_token = 7;
  planner_revision = 5;
  graph = 0;
}

before-WellFormed : WellFormed before
before-WellFormed = record { one_live = omega arith; tokens = (omega arith, tt) }

abbrev resume : Start
resume = record {
  session_id = "s2";
  plan_id = "ark";
  proposal_id = "p1";
  predecessor_id = some "s1";
  controller = "controller";
  expires_at = "t9";
  approval = none;
  pending = false;
  configuration = none;
  projection = none;
}

abbrev resumed : Session
resumed = record {
  plan_id = "ark";
  approved_proposal_id = "p1";
  resumed_from_session_id = some "s1";
  controller_identity = "controller";
  worker_identity = none;
  state = starting;
  bound_planner_revision = 5;
  fencing_token = 8;
  heartbeat_at = none;
  expires_at = some "t9";
  terminal_at = none;
  terminal_code = none;
}

abbrev after : Catalog ℕ
after = record {
  sessions = ("s1", ended_session) ∷ ("s2", resumed) ∷ [];
  next_fencing_token = 8;
  planner_revision = 5;
  graph = 0;
}

begins : execute blank before (begin resume) ≡ applied after
unfolding execute start_session insert_session modelark.Session.with_predecessor get put
begins = refl

Reaches-WellFormed_example : WellFormed after
Reaches-WellFormed_example =
    Reaches-WellFormed blank before after
      (step before before after (begin resume) (here before) begins) before-WellFormed

Reaches-terminal_example : get "s1" after.sessions ≡ some ended_session
unfolding get
Reaches-terminal_example =
    Reaches-terminal blank before after "s1" ended_session
      (step before before after (begin resume) (here before) begins) refl refl

-- The controller of the session that stopped ends it once more, after the next one has started.
ends_again : execute blank after (terminalize "s1" 7 stopped none "t2") ≡ applied after
unfolding execute terminalize_row get
ends_again = refl

Reaches-fenced_example : after ≡ after
unfolding get
Reaches-fenced_example =
    Reaches-fenced blank before after after "s1" ended_session
      (terminalize "s1" 7 stopped none "t2")
      (step before before after (begin resume) (here before) begins) refl refl refl ends_again
