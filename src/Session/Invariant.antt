-- ===== src/Session/Invariant.antt =====
-- The number of live sessions and the bound on their tokens in modelark/execution_session.py.
use modelark.Prelude.{
  ℕ, ◌+◌, ◌≤◌, ◌≡◌, refl, sym, subst, String, Option, none, some, Bool, true, false, [], ◌∷◌, ◌++◌,
  ◌==◌, any, All, select, length, arith, Bool-cases, inl, inr,
}
use modelark.Prelude.Dict.{Dict, get, put, put_fresh}
use modelark.Session.{
  is_live, Session, Catalog, Start, live_session_exists, inserted, token_after, Reaches,
}
use modelark.Session.Steps.{Reaches-keeps}

-- How many sessions are live.
abbrev pub live_count : Dict Session → ℕ
live_count m = length (select (λ e. is_live e.1.state) m)

-- No session has a token above the bound.
abbrev pub TokensUpTo : ℕ → Dict Session → Type 0
TokensUpTo n m = All (λ e. e.1.fencing_token ≤ n) m

live_count-put :
    (k : String) (v old : Session) (m : Dict Session)
    → get k m ≡ some old
    → (is_live v.state ≡ true → is_live old.state ≡ true)
    → live_count (put k v m) ≤ live_count m
unfolding get put
live_count-put k v old [] h i = cc
live_count-put k v old ((j, w) ∷ m) h i = ground (arith, live_count-put k v old m, h, i)

TokensUpTo-put :
    (n : ℕ) (k : String) (v : Session) (m : Dict Session)
    → v.fencing_token ≤ n
    → TokensUpTo n m
    → TokensUpTo n (put k v m)
unfolding put
TokensUpTo-put n k v [] h t = (h, tt)
TokensUpTo-put n k v ((j, w) ∷ m) h (l, t) = elim (Bool-cases (j == k)) [
  | inl e ↦ rw e (h, t)
  | inr e ↦ rw e (l, TokensUpTo-put n k v m h t)
]

TokensUpTo-get :
    (n : ℕ) (k : String) (v : Session) (m : Dict Session)
    → get k m ≡ some v
    → TokensUpTo n m
    → v.fencing_token ≤ n
unfolding get
TokensUpTo-get n k v [] h t = cc
TokensUpTo-get n k v ((j, w) ∷ m) h (l, t) = ground (arith, TokensUpTo-get n k v m, t)

TokensUpTo-le : (n o : ℕ) (m : Dict Session) → n ≤ o → TokensUpTo n m → TokensUpTo o m
TokensUpTo-le n o [] h t = tt
TokensUpTo-le n o (e ∷ m) h (l, t) = (omega arith, TokensUpTo-le n o m h t)

no_live : (m : Dict Session) → any (λ e. is_live e.1.state) m ≡ false → live_count m ≡ 0
no_live [] h = refl
no_live ((j, w) ∷ m) h = ground (arith, no_live m)

live_count-append :
    (m : Dict Session) (k : String) (v : Session) → live_count (m ++ (k, v) ∷ []) ≤ live_count m + 1
live_count-append [] k v = ground arith
live_count-append ((j, w) ∷ m) k v = ground (arith, live_count-append m k v)

pub record WellFormed {G : Type 0} (c : Catalog G) : Type 0 where
  pub one_live : live_count c.sessions ≤ 1
  pub tokens : TokensUpTo c.next_fencing_token c.sessions

larger : (n : ℕ) (o : Option Session) → n ≤ token_after (n + 1) o
larger n none = omega arith
larger n (some q) = ground arith

module _ {G : Type 0} (is_blank : String → Bool) where
  after_update :
      (c : Catalog G) (sid : String) (s old : Session)
      → WellFormed c
      → get sid c.sessions ≡ some old
      → s.fencing_token ≡ old.fencing_token
      → is_live old.state ≡ true
      → WellFormed (record c { sessions = put sid s c.sessions })
  after_update c sid s old w h t i = record {
    one_live =
        let l = live_count-put sid s old c.sessions h (λ _. i) in let o = w.one_live in omega arith;
    tokens =
        TokensUpTo-put c.next_fencing_token sid s c.sessions
          (let l = TokensUpTo-get c.next_fencing_token sid old c.sessions h w.tokens in omega arith)
          w.tokens;
  }

  after_insert :
      (c : Catalog G) (r : Start) (p : Option Session)
      → WellFormed c
      → get r.session_id c.sessions ≡ none
      → live_session_exists c ≡ false
      → WellFormed (inserted is_blank c r p)
  after_insert c r p w e l = record {
    one_live =
        subst (λ m. live_count m ≤ 1) (sym (put_fresh r.session_id _ c.sessions e))
          (omega (arith, live_count-append c.sessions r.session_id _, no_live c.sessions l));
    tokens =
        TokensUpTo-put _ r.session_id _ c.sessions (omega arith) (
          TokensUpTo-le c.next_fencing_token _ c.sessions (larger c.next_fencing_token p) w.tokens);
  }

  -- Whatever commands are given in whatever order, a catalog that has at most one live session and
  -- no token above its counter keeps both.
  pub Reaches-WellFormed : (c d : Catalog G) → Reaches is_blank c d → WellFormed c → WellFormed d
  Reaches-WellFormed c d r w =
      Reaches-keeps is_blank WellFormed after_update
        (λ k g n v. record { one_live = v.one_live; tokens = v.tokens }) after_insert c d r w
