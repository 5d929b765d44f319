-- ===== src/Session/Tokens.antt =====
-- The fencing tokens of modelark/execution_session.py: old ones, those of ended sessions, and new ones.
use modelark.Prelude.{
  ℕ, ◌<◌, ◌≡◌, String, none, some, Bool, true, false, All, arith, eq_iff, sym, subst, ◌==◌,
}
use modelark.Prelude.Dict.{Dict, get, put, get-put}
use modelark.Session.{
  starting, is_live, is_claimable, beats, Session, Catalog, applied, Start, Command, begin,
  claim_worker, heartbeat, terminalize, session_write, live_session_exists, execute, claim_row,
  heartbeat_row, terminalize_row, session_write_row, Reaches,
}
use modelark.Session.Steps.{Reaches-keeps}

-- The session and the token that a command names; `begin` names none.
abbrev pub names {ℓ} : {A : Type ℓ} → {G : Type 0} → Command G → A → (String → ℕ → A) → A
names (begin r) other f = other
names (claim_worker sid token worker controller) other f = f sid token
names (heartbeat sid token worker now expires) other f = f sid token
names (terminalize sid token state code now) other f = f sid token
names (session_write sid token operation) other f = f sid token

-- The command is on this session.
abbrev pub is_on : {G : Type 0} → String → Command G → Bool
is_on sid k = names k false (λ j token. j == sid)

put_other :
    (k j : String) (v s : Session) (m : Dict Session)
    → get k m ≡ none
    → get j m ≡ some s
    → get j (put k v m) ≡ some s
put_other k j v s m e h = ground (arith, get-put k j v m, eq_iff k j)

-- Every token is smaller than the bound.
abbrev pub TokensBelow : ℕ → Dict Session → Type 0
TokensBelow n m = All (λ e. e.1.fencing_token < n) m

-- The catalog `d` has a new session, which no live one was in the way of, with the largest token.
abbrev pub Newest : {G : Type 0} → Catalog G → Start → Catalog G → Type 0
Newest c r d =
    (live_session_exists c ≡ false)
    × (get r.session_id c.sessions ≡ none)
    × (s : Session) × (get r.session_id d.sessions ≡ some s)
    × (s.state ≡ starting)
    × TokensBelow s.fencing_token c.sessions

module _ {G : Type 0} (is_blank : String → Bool) where
  -- A command on a row that is not live leaves the catalog as it is.
  fenced :
      (d e : Catalog G) (sid : String) (s : Session) (k : Command G)
      → get sid d.sessions ≡ some s
      → is_live s.state ≡ false
      → is_on sid k ≡ true
      → execute is_blank d k ≡ applied e
      → d ≡ e
  unfolding execute claim_row heartbeat_row terminalize_row session_write_row
  fenced d e sid s (begin r) h l o x = cc
  fenced d e sid s (claim_worker j token worker controller) h l o x =
      let row = subst (λ i. get i d.sessions ≡ some s) (sym ((eq_iff j sid).0 o)) h in
      let y = rw row at x in
      let n : is_claimable s.state ≡ false = ground arith in ground (arith, y, n)
  fenced d e sid s (heartbeat j token worker now expires) h l o x =
      let row = subst (λ i. get i d.sessions ≡ some s) (sym ((eq_iff j sid).0 o)) h in
      let y = rw row at x in let n : beats s.state ≡ false = ground arith in ground (arith, y, n)
  fenced d e sid s (terminalize j token state code now) h l o x =
      let row = subst (λ i. get i d.sessions ≡ some s) (sym ((eq_iff j sid).0 o)) h in
      let y = rw row at x in ground (arith, y, l)
  fenced d e sid s (session_write j token operation) h l o x =
      let row = subst (λ i. get i d.sessions ≡ some s) (sym ((eq_iff j sid).0 o)) h in
      let y = rw row at x in ground (arith, y, l)

  -- Once a session is not live its row is never written again, whatever commands follow.
  pub Reaches-terminal :
      (c d : Catalog G) (sid : String) (s : Session)
      → Reaches is_blank c d
      → get sid c.sessions ≡ some s
      → is_live s.state ≡ false
      → get sid d.sessions ≡ some s
  Reaches-terminal c d sid s r h l =
      Reaches-keeps is_blank (λ m. get sid m.sessions ≡ some s)
        (λ m k v old w g t i. ground (arith, get-put k sid v m.sessions, eq_iff k sid))
        (λ m g n w. w) (λ m b p w g i. put_other b.session_id sid _ s m.sessions g w) c d r h

  -- Once a session is not live, whatever commands have followed, a command on it that goes through
  -- changes nothing, whatever its token is.
  pub Reaches-fenced :
      (c d e : Catalog G) (sid : String) (s : Session) (k : Command G)
      → Reaches is_blank c d
      → get sid c.sessions ≡ some s
      → is_live s.state ≡ false
      → is_on sid k ≡ true
      → execute is_blank d k ≡ applied e
      → d ≡ e
  Reaches-fenced c d e sid s k r h l o x =
      fenced d e sid s k (Reaches-terminal c d sid s r h l) l o x
