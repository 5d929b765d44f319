-- ===== src/Mutation/Bracket.antt =====
-- The bracket of modelark/drive_mutation.py: what a dirty drive refuses, and the
-- anchor of the same generation opens it again.
use modelark.Prelude.{
  ℕ, ◌+◌, ◌<◌, ◌≡◌, refl, sym, ◌∙◌, ap, subst, String, Option, none, some, Bool, true, false, ◌==◌,
  arith, Bool-cases, inl, inr, eqb, eq_iff, opt_eq, opt_eq_ℕ,
}
use modelark.Prelude.Dict.{get}
use modelark.Mutation.{
  Drive, Store, Refusal, Reply, refused, ok, Observation, anchor_is, anchor_at, anchor_agrees,
  generation_is_clean, require_identity, identity_test, advance_one, publish_anchor_locked,
  next_generation, drive_facts, bind, unless, require, as_captured,
}
use modelark.Mutation.Generations.{Bounded, Published, advance_one-Advanced, publish-Published}
use modelark.Mutation.Invariant.{IsDirty, advance-Bounded, publish-Bounded}

-- whether an operation goes through
abbrev pub accepted : {A : Type 0} → Reply A → Bool
accepted (refused c) = false
accepted (ok a) = true

module _ (blocks : String → Bool → Option Refusal) where
  -- The stores that advances and anchors lead to, in whatever order they come, on whatever drives.
  pub data Reaches : Store → Store → Type 0 where
    here : (s : Store) → Reaches s s
    advance :
        (s t u : Store) (label operation : String) (captured : Option Drive)
        (session : Option String) (token : Option ℕ) (g : ℕ)
        → Reaches s t
        → advance_one blocks t label operation captured session token ≡ ok (u, g)
        → Reaches s u
    publish :
        (s t u : Store) (label : String) (epoch g : ℕ) (o : Observation)
        → Reaches s t
        → publish_anchor_locked blocks t label epoch g o ≡ ok u
        → Reaches s u

  -- Advances and anchors on any drives, in any order, leave no dirty row and no anchor of a drive's
  -- current epoch at a generation above the one that the drive is at.
  pub Reaches-Bounded : (s t : Store) → Bounded s → Reaches s t → Bounded t
  Reaches-Bounded s t b r =
      elim r as (λ s t r. Bounded s → Bounded t) [
        | here s ↦ λ b. b
        | advance s t u label operation captured session token g (r → ih) e ↦ λ b.
            advance-Bounded t u label g (ih b)
              (advance_one-Advanced blocks t u label operation captured session token g e)
        | publish s t u label epoch g o (r → ih) e ↦ λ b.
            publish-Bounded t u label epoch g o (ih b)
              (publish-Published blocks t u label epoch g o e)
      ]
        b

  dirty-next :
      (s : Store) (label : String) (d : Drive)
      → 0 < d.write_generation
      → anchor_at label d.identity_epoch d.write_generation s.anchors ≡ none
      → accepted (next_generation s label d) ≡ false
  unfolding next_generation generation_is_clean
  dirty-next s label d h e = rw (e) (ground arith)

  refuse-unless :
      {A : Type 0} (o : Option Refusal) (r : Reply A)
      → accepted r ≡ false
      → accepted (unless o r) ≡ false
  refuse-unless none r h = h
  refuse-unless (some c) r h = refl

  refuse-require :
      {A : Type 0} (b : Bool) (c : Refusal) (r : Reply A)
      → accepted r ≡ false
      → accepted (require b c r) ≡ false
  refuse-require true c r h = h
  refuse-require false c r h = refl

  refuse-bind :
      {A B : Type 0} (r : Reply A) (f : A → Reply B)
      → accepted r ≡ false
      → accepted (bind r f) ≡ false
  refuse-bind (refused c) f h = refl
  refuse-bind (ok a) f h = cc

  pub IsDirty-refuses :
      (s : Store) (label operation : String) (captured : Option Drive) (session : Option String)
      (token : Option ℕ)
      → IsDirty s label
      → accepted (advance_one blocks s label operation captured session token) ≡ false
  unfolding advance_one drive_facts
  IsDirty-refuses s label operation captured session token d = refuse-unless (blocks label true) _ (
      rw (d.here, drive_facts)
        (refuse-require (as_captured d.drive captured) _ _ (
          refuse-bind (next_generation s label d.drive) _
            (dirty-next s label d.drive d.begun d.no_anchor))))

pub identity_test-agrees :
    (o : Observation) (d : Drive)
    → identity_test o d ≡ none
    → (o.identity_proven ≡ true)
      × (opt_eq o.fingerprint d.fingerprint ≡ true)
      × (opt_eq_ℕ o.filesystem_capacity d.capacity ≡ true)
identity_test-agrees o d h = ground arith

pub require_identity-test :
    (o : Observation) (d : Drive) → require_identity o d ≡ none → identity_test o d ≡ none
unfolding require_identity
require_identity-test o d h =
    elim o.refusal_code as (λ c. o.refusal_code ≡ c → identity_test o d ≡ none) [
      | none ↦ λ e. rw (e, require_identity) at h
      | some code ↦ λ e. elim (Bool-cases (code == "")) [
        | inl f ↦ rw (e, f, require_identity) at h
        | inr f ↦ let k = rw (e, f, require_identity) at h in cc
      ]
    ]
      refl

-- What a published anchor says of the drive: the observation was of the drive as the catalog knows
-- it, and the generation is clean and may be followed by the next one.
pub record Reopened (t : Store) (label : String) (epoch g : ℕ) (o : Observation) : Type 0 where
  pub drive : Drive
  pub here : get label t.drives ≡ some drive
  pub current : (drive.identity_epoch ≡ epoch) × (drive.write_generation ≡ g)
  pub proven : o.identity_proven ≡ true
  pub clean : generation_is_clean t label drive ≡ true
  pub next : next_generation t label drive ≡ ok (g + 1)

-- the anchor of the generation is the one that was published
pub Published-anchor :
    (s t : Store) (label : String) (epoch g : ℕ) (o : Observation)
    (p : Published s t label epoch g o)
    → anchor_at label p.drive.identity_epoch p.drive.write_generation t.anchors ≡ some p.row
unfolding anchor_at
Published-anchor s t label epoch g o p =
    let (name, e, n, _, _, _) = p.row_at in
    let hit : anchor_is label p.drive.identity_epoch p.drive.write_generation p.row ≡ true =
      ground (arith, eq_iff p.row.drive label, p.epoch_now, p.generation_now) in
    rw (p.anchors, hit) refl

-- and it has the fingerprint, the capacity and the authority of the drive
pub Published-agrees :
    (s t : Store) (label : String) (epoch g : ℕ) (o : Observation)
    (p : Published s t label epoch g o)
    → (eqb p.row.epoch p.drive.identity_epoch ≡ true)
      × (opt_eq p.row.fingerprint p.drive.fingerprint ≡ true)
      × (opt_eq_ℕ p.row.capacity p.drive.capacity ≡ true)
      × ((p.row.authority == p.drive.authority) ≡ true)
Published-agrees s t label epoch g o p =
    let (_, e, _, fp, cap, auth) = p.row_at in
    let (_, f, c) = identity_test-agrees o p.drive (require_identity-test o p.drive p.proven) in
    (
      ground (arith, p.epoch_now),
      ap (λ x. opt_eq x p.drive.fingerprint) fp ∙ f,
      ap (λ x. opt_eq_ℕ x p.drive.capacity) cap ∙ c,
      ground (arith, eq_iff p.row.authority p.drive.authority),
    )

pub Published-clean :
    (s t : Store) (label : String) (epoch g : ℕ) (o : Observation)
    (p : Published s t label epoch g o)
    → generation_is_clean t label p.drive ≡ true
unfolding generation_is_clean
Published-clean s t label epoch g o p =
    let (e, f, c, a) = Published-agrees s t label epoch g o p in
    ap (anchor_agrees p.drive) (Published-anchor s t label epoch g o p) ∙ ground arith

module _ (blocks : String → Bool → Option Refusal) where
  -- An anchor is published only for the captured epoch and generation while they are those of the
  -- drive, from an observation that proves the drive's identity; the generation is clean then, and the
  -- next advance is to the generation after it.
  pub publish_anchor-reopens :
      (s t : Store) (label : String) (epoch g : ℕ) (o : Observation)
      → 0 < g
      → publish_anchor_locked blocks s label epoch g o ≡ ok t
      → Reopened t label epoch g o
  unfolding next_generation
  publish_anchor-reopens s t label epoch g o pos h =
      let p = publish-Published blocks s t label epoch g o h in
      let clean = Published-clean s t label epoch g o p in
      record {
        drive = p.drive;
        here = subst (λ q. get label q ≡ some p.drive) (sym p.drives) p.here;
        current = (p.epoch_now, p.generation_now);
        proven = (identity_test-agrees o p.drive (require_identity-test o p.drive p.proven)).0;
        clean = clean;
        next = rw clean (ground (arith, p.generation_now));
      }
