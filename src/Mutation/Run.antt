-- ===== src/Mutation/Run.antt =====
-- modelark/drive_mutation.py, drive_mutation: one bracket over several drives. The catalog is read
-- three times before the body, as other processes may write it in between: when the facts are captured
-- (`first`), under the fences (`fenced`) and in the transaction that marks the drives dirty (`now`).
-- Parameters: `fences` is what acquiring the lock files gives, `observe` and `observe_after` the
-- observations before and after the body, `reconcile` whether reconciling a drive raises, and
-- `session_check` is _require_live_session_token and `live` whether a session is live when an operator's
-- transaction bumps the planner revision.
use modelark.Prelude.{
  ℕ, eqb, String, Option, none, some, Bool, true, ◌&&◌, List, [], ◌∷◌, ◌==◌, if◌then◌else◌, opt_eq,
  opt_eq_ℕ, is_some,
}
use modelark.Prelude.Dict.{Dict}
use modelark.Prelude.Sort.{sort_texts}
use modelark.Placement.Search.{distinct}
use modelark.Mutation.{
  Drive, Store, Refusal, Reply, refused, ok, bind, unless, require, Observation, drive_facts,
  require_identity, advance_one, publish_anchor_locked, bumped, is_pair, drive_identity_unproven,
  dirty_owner_pair_required, drive_fence_unavailable, fill_session_active,
}

-- equality of FenceIdentity
abbrev pub same_fence : Drive → Drive → Bool
same_fence a b =
    opt_eq a.fs_uuid b.fs_uuid
    && opt_eq a.annex_uuid b.annex_uuid
    && opt_eq a.serial b.serial
    && opt_eq_ℕ a.capacity b.capacity
    && eqb a.identity_epoch b.identity_epoch
    && opt_eq a.fingerprint b.fingerprint

-- equality of the rows of _drive_facts
abbrev pub same_facts : Drive → Drive → Bool
same_facts a b =
    eqb a.identity_epoch b.identity_epoch
    && eqb a.write_generation b.write_generation
    && opt_eq a.fingerprint b.fingerprint
    && opt_eq_ℕ a.capacity b.capacity
    && (a.authority == b.authority)

-- tuple(sorted(set(drive_labels)))
unfoldable pub mutation_labels : List String → List String
mutation_labels labels = sort_texts (distinct labels)

-- whether the lock of the controller and those of the drives are acquired
pub record Fences : Type 0 where
  pub controller : Bool
  pub drives : Bool

-- the transaction before the body and the one after it
pub data Phase : Type 0 where
  dirtying anchoring : Phase

module _ (blocks : String → Bool → Option Refusal) (has_keys : Drive → Bool) where
  -- _fence_identity
  unfoldable pub fence_identity : Store → String → Reply Drive
  unfolding drive_facts
  fence_identity s label =
      bind (drive_facts s label) (λ d. require (has_keys d) drive_identity_unproven (ok d))

  -- {label: _drive_facts(con, label)} and {label: _fence_identity(con, label)}
  unfoldable pub capture : Store → List String → Reply (Dict Drive)
  unfolding fence_identity
  capture s [] = ok []
  capture s (label ∷ labels) =
      bind (fence_identity s label) (λ d. bind (capture s labels) (λ rest. ok ((label, d) ∷ rest)))

  abbrev agrees : (Drive → Drive → Bool) → Drive → Reply Drive → Option Refusal
  agrees same d (refused c) = some c
  agrees same d (ok e) = if same d e then none else some drive_identity_unproven

  abbrev first_of : Option Refusal → Option Refusal → Option Refusal
  first_of none o = o
  first_of (some c) o = some c

  -- _require_fence_identities
  unfoldable pub require_fence_identities : Store → Dict Drive → Option Refusal
  unfolding fence_identity
  require_fence_identities s [] = none
  require_fence_identities s ((label, d) ∷ rest) =
      first_of (agrees same_fence d (fence_identity s label)) (require_fence_identities s rest)

  -- any(_drive_facts(con, label) != facts[label] …)
  unfoldable pub require_facts : Store → Dict Drive → Option Refusal
  require_facts s [] = none
  require_facts s ((label, d) ∷ rest) =
      first_of (agrees same_facts d (drive_facts s label)) (require_facts s rest)

  -- _require_identity of a fresh observation of every drive
  unfoldable pub require_observed : (String → Observation) → Dict Drive → Option Refusal
  require_observed observe [] = none
  require_observed observe ((label, d) ∷ rest) =
      first_of (require_identity (observe label) d) (require_observed observe rest)

  -- reconcile, and _require_identity of a fresh observation, drive by drive
  unfoldable pub require_reconciled :
      (String → Option Refusal) → (String → Observation) → Dict Drive → Option Refusal
  require_reconciled reconcile observe [] = none
  require_reconciled reconcile observe ((label, d) ∷ rest) =
      first_of (reconcile label)
        (first_of (require_identity (observe label) d) (require_reconciled reconcile observe rest))

  -- require_publication_clear for all drives
  unfoldable pub require_clear : List String → Option Refusal
  require_clear [] = none
  require_clear (label ∷ labels) = first_of (blocks label true) (require_clear labels)

  abbrev pub owned : Option String → Option ℕ → Bool
  owned session token = is_some session && is_some token

  -- the advances of _dirty_body, with the generation that each drive gets
  unfoldable pub advance_all :
      Store → String → Option String → Option ℕ → Dict Drive → Reply (Store × Dict ℕ)
  advance_all s operation session token [] = ok (s, [])
  advance_all s operation session token ((label, d) ∷ rest) =
      bind (advance_one blocks s label operation (some d) session token) (λ r.
        bind (advance_all r.0 operation session token rest) (λ q. ok (q.0, (label, r.1) ∷ q.1)))

  -- the anchors of _anchor_body, for the captured epochs and generations
  unfoldable pub publish_all : Store → (String → Observation) → Dict Drive → Dict ℕ → Reply Store
  publish_all s observe ((label, d) ∷ facts) ((_, g) ∷ generations) =
      bind (publish_anchor_locked blocks s label d.identity_epoch g (observe label))
        (λ t. publish_all t observe facts generations)
  publish_all s observe _ _ = ok s

  module _ (session_check : String → ℕ → Option Refusal) (live : Phase → Bool)
      (session : Option String) (token : Option ℕ) where
    abbrev pub token_check : Option String → Option ℕ → Option Refusal
    token_check (some sid) (some tok) = session_check sid tok
    token_check _ _ = none

    -- An operator's transaction ends with bump_revision, which refuses while a session is live;
    -- session_write bumps for a session.
    abbrev pub committed : Phase → Store → Reply Store
    committed phase s =
        if owned session token
        then ok s
        else if live phase
        then refused fill_session_active
        else ok (bumped blocks s)

    -- _dirty_body in its transaction
    unfoldable pub dirty_body : Store → String → Dict Drive → Reply (Store × Dict ℕ)
    unfolding require_fence_identities advance_all
    dirty_body s operation facts = unless (require_fence_identities s facts) (
        unless (token_check session token) (
          bind (advance_all s operation session token facts)
            (λ r. bind (committed dirtying r.0) (λ t. ok (t, r.1)))))

    -- _anchor_body in its transaction
    unfoldable pub anchor_body : Store → (String → Observation) → Dict Drive → Dict ℕ → Reply Store
    unfolding require_fence_identities publish_all
    anchor_body s observe facts generations = unless (require_fence_identities s facts) (
        unless (token_check session token)
          (bind (publish_all s observe facts generations) (λ t. committed anchoring t)))

    -- what the context manager does before it yields
    unfoldable pub enter_mutation :
        (first fenced now : Store)
        → Fences
        → (String → Observation)
        → String
        → List String
        → Reply (Store × Dict Drive × Dict ℕ)
    unfolding capture require_facts require_observed require_clear dirty_body
    enter_mutation first fenced now fences observe operation labels =
        unless (require_clear labels) (
          require (is_pair session token) dirty_owner_pair_required (
            require fences.controller drive_fence_unavailable (
              bind (capture first labels) (λ facts. require fences.drives drive_fence_unavailable (
                unless (require_fence_identities fenced facts) (
                  unless (require_facts fenced facts) (
                    unless (require_observed observe facts)
                      (bind (dirty_body now operation facts) (λ r. ok (r.0, facts, r.1))))))))))

    -- what it does after the body
    unfoldable pub exit_mutation :
        Store
        → (String → Option Refusal)
        → (String → Observation)
        → Dict Drive
        → Dict ℕ
        → Reply Store
    unfolding require_reconciled anchor_body
    exit_mutation s reconcile observe facts generations =
        unless (require_reconciled reconcile observe facts)
          (anchor_body s observe facts generations)

    -- a refusal before the body, a failure of the body or after it, and a bracket that is closed
    pub data Run : Type 0 where
      not_entered : Refusal → Run
      failed : Store → Run
      finished : Store → Run

    abbrev pub exited : Store → Reply Store → Run
    exited s (refused c) = failed s
    exited s (ok t) = finished t

    -- the body gives the store after it and whether it raised
    abbrev pub with_body :
        (Store → Store × Bool)
        → (String → Option Refusal)
        → (String → Observation)
        → Reply (Store × Dict Drive × Dict ℕ)
        → Run
    with_body body reconcile observe (refused c) = not_entered c
    with_body body reconcile observe (ok (s, facts, generations)) =
        let after = body s in
        if after.1
        then failed after.0
        else exited after.0 (exit_mutation after.0 reconcile observe facts generations)

    unfoldable pub drive_mutation :
        (first fenced now : Store)
        → Fences
        → (observe observe_after : String → Observation) → (String → Option Refusal)
        → (Store → Store × Bool)
        → String
        → List String
        → Run
    unfolding enter_mutation exit_mutation mutation_labels
    drive_mutation first fenced now fences observe observe_after reconcile body operation labels =
        with_body body reconcile observe_after
          (enter_mutation first fenced now fences observe operation (mutation_labels labels))
