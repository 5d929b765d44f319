-- ===== src/Mutation.antt =====
-- modelark/drive_mutation.py: the bracket around a write to drives, which marks them dirty before it
-- and publishes a clean anchor after it, over the tables drives, drive_dirty_generations and
-- drive_clean_anchors of modelark/core/schema.sql. The audit texts of an observation, the CHECKs on the
-- lengths of texts, the map of a publication and the lock files are left out, and so are the keyword
-- arguments of publish_clean_anchor that stand for an observation. Parameters: `blocks` is publication_store.require_clear
-- for one drive, with its refusal; `has_keys` is whether FenceIdentity.lock_keys, which hashes,
-- returns.
pub mod Generations
pub mod Run
mod Examples
pub mod Admits
pub mod Outcome
pub mod Several
pub mod Bracket
pub mod Closes
pub mod Invariant
use modelark.Prelude.{
  ℕ, ◌+◌, ltb, leb, eqb, String, Option, none, some, Bool, true, false, not, ◌&&◌, ◌||◌, List, [],
  ◌∷◌, ◌==◌, if◌then◌else◌, opt_eq, opt_eq_ℕ, any, is_some, is_none,
}
use modelark.Prelude.Dict.{Dict, get, put}
use modelark.Prelude.Int.{ℤ, pos, negsuc}

-- a row of drives: the columns of _drive_facts and _fence_identity
pub record Drive : Type 0 where
  pub identity_epoch : ℕ
  pub write_generation : ℕ
  pub fingerprint : Option String
  pub capacity : Option ℕ
  pub authority : String
  pub fs_uuid : Option String
  pub annex_uuid : Option String
  pub serial : Option String

-- a row of drive_dirty_generations
pub record DirtyRow : Type 0 where
  pub drive : String
  pub epoch : ℕ
  pub generation : ℕ
  pub operation_code : String
  pub owner_session_id : Option String
  pub owner_fencing_token : Option ℕ

-- a row of drive_clean_anchors
pub record AnchorRow : Type 0 where
  pub drive : String
  pub epoch : ℕ
  pub generation : ℕ
  pub free_bytes : Option ℤ
  pub capacity : Option ℕ
  pub fingerprint : Option String
  pub authority : String

pub record Store : Type 0 where
  pub drives : Dict Drive
  pub dirty : List DirtyRow
  pub anchors : List AnchorRow
  pub planner_revision : ℕ

-- the codes of DriveMutationRefused, and sqlite3.IntegrityError
pub data Refusal : Type 0 where
  drive_identity_unproven : Refusal
  dirty_generation_conflict : Refusal
  dirty_owner_pair_required : Refusal
  clean_anchor_cas_failed : Refusal
  drive_fence_unavailable : Refusal
  fill_session_active : Refusal
  publication_refused : String → Refusal
  observation_refused : String → Refusal
  integrity_error : Refusal

pub data Reply (A : Type 0) : Type 0 where
  refused : Refusal → Reply A
  ok : A → Reply A

abbrev pub bind : {A B : Type 0} → Reply A → (A → Reply B) → Reply B
bind (refused r) f = refused r
bind (ok a) f = f a

-- a check that raises, before what follows it
abbrev pub unless : {A : Type 0} → Option Refusal → Reply A → Reply A
unless none r = r
unless (some c) r = refused c

abbrev pub require : {A : Type 0} → Bool → Refusal → Reply A → Reply A
require b c r = if b then r else refused c

-- drive_mutation.Observation
pub record Observation : Type 0 where
  pub identity_proven : Bool
  pub free_bytes : Option ℤ
  pub filesystem_capacity : Option ℕ
  pub fingerprint : Option String
  pub refusal_code : Option String

-- `WHERE drive_label=? AND identity_epoch=? AND generation=?`
abbrev pub anchor_is : String → ℕ → ℕ → AnchorRow → Bool
anchor_is label epoch generation a =
    (a.drive == label) && eqb a.epoch epoch && eqb a.generation generation

abbrev pub dirty_is : String → ℕ → ℕ → DirtyRow → Bool
dirty_is label epoch generation d =
    (d.drive == label) && eqb d.epoch epoch && eqb d.generation generation

-- fetchone of the anchors of a generation
unfoldable pub anchor_at : String → ℕ → ℕ → List AnchorRow → Option AnchorRow
anchor_at label epoch generation [] = none
anchor_at label epoch generation (a ∷ rows) =
    let rest = anchor_at label epoch generation rows in
    if anchor_is label epoch generation a then some a else rest

-- anchor == (epoch, fingerprint, capacity, authority)
abbrev pub anchor_agrees : Drive → Option AnchorRow → Bool
anchor_agrees d none = false
anchor_agrees d (some a) =
    eqb a.epoch d.identity_epoch
    && opt_eq a.fingerprint d.fingerprint
    && opt_eq_ℕ a.capacity d.capacity
    && (a.authority == d.authority)

-- _generation_is_clean, for the current row of the drive
unfoldable pub generation_is_clean : Store → String → Drive → Bool
unfolding anchor_at
generation_is_clean s label d =
    anchor_agrees d (anchor_at label d.identity_epoch d.write_generation s.anchors)

-- _drive_facts; a drive that is not there is unproven
unfoldable pub drive_facts : Store → String → Reply Drive
drive_facts s label = elim (get label s.drives) [
  | none ↦ refused drive_identity_unproven
  | some d ↦ ok d
]

-- INSERT INTO drive_dirty_generations, under its primary key, and the new write_generation
unfoldable pub insert_dirty :
    Store → String → Drive → ℕ → String → Option String → Option ℕ → Reply Store
insert_dirty s label d generation operation session token =
    if any (dirty_is label d.identity_epoch generation) s.dirty
    then refused integrity_error
    else ok (record s {
      dirty =
          record {
            drive = label;
            epoch = d.identity_epoch;
            generation = generation;
            operation_code = operation;
            owner_session_id = session;
            owner_fencing_token = token;
          }
          ∷ s.dirty;
      drives = put label (record d { write_generation = generation }) s.drives;
    })

-- new_generation
unfoldable pub next_generation : Store → String → Drive → Reply ℕ
unfolding generation_is_clean
next_generation s label d =
    if eqb d.write_generation 0
    then ok 1
    else if generation_is_clean s label d
    then ok (d.write_generation + 1)
    else refused dirty_generation_conflict

-- (epoch, fingerprint) == (captured[0], captured[2])
abbrev pub as_captured : Drive → Option Drive → Bool
as_captured d none = true
as_captured d (some c) = eqb d.identity_epoch c.identity_epoch && opt_eq d.fingerprint c.fingerprint

-- both or neither
abbrev pub is_pair : Option String → Option ℕ → Bool
is_pair none none = true
is_pair (some s) (some t) = true
is_pair _ _ = false

-- the CHECKs on an anchor
abbrev pub free_in_range : Option ℤ → Option ℕ → Bool
free_in_range (some (pos n)) (some capacity) = leb n capacity
free_in_range _ _ = false

-- identity_proven, and the attested fingerprint and capacity those of the row
abbrev pub identity_test : Observation → Drive → Option Refusal
identity_test o d =
    if o.identity_proven
      && opt_eq o.fingerprint d.fingerprint
      && opt_eq_ℕ o.filesystem_capacity d.capacity
    then none
    else some drive_identity_unproven

-- _require_identity
unfoldable pub require_identity : Observation → Drive → Option Refusal
require_identity o d = elim o.refusal_code [
  | some code ↦ if code == "" then identity_test o d else some (observation_refused code)
  | none ↦ identity_test o d
]

-- INSERT INTO drive_clean_anchors, under its unique key, its foreign key and its CHECKs
unfoldable pub insert_anchor : Store → String → Drive → Observation → Reply Store
insert_anchor s label d o =
    if any (anchor_is label d.identity_epoch d.write_generation) s.anchors
      || not (any (dirty_is label d.identity_epoch d.write_generation) s.dirty)
      || not (free_in_range o.free_bytes o.filesystem_capacity)
      || is_none o.fingerprint
      || not (d.authority == "dedicated_local")
    then refused integrity_error
    else ok (record s {
      anchors =
          record {
            drive = label;
            epoch = d.identity_epoch;
            generation = d.write_generation;
            free_bytes = o.free_bytes;
            capacity = o.filesystem_capacity;
            fingerprint = o.fingerprint;
            authority = d.authority;
          }
          ∷ s.anchors;
    })

module _ (blocks : String → Bool → Option Refusal) where
  -- _advance_one
  unfoldable pub advance_one :
      Store → String → String → Option Drive → Option String → Option ℕ → Reply (Store × ℕ)
  unfolding drive_facts next_generation insert_dirty
  advance_one s label operation captured session token = unless (blocks label true) (
      bind (drive_facts s label) (λ d. require (as_captured d captured) drive_identity_unproven (
        bind (next_generation s label d) (λ g.
          require (is_pair session token) dirty_owner_pair_required
            (bind (insert_dirty s label d g operation session token) (λ t. ok (t, g)))))))

  -- _publish_anchor_locked, for the captured epoch and generation
  unfoldable pub publish_anchor_locked : Store → String → ℕ → ℕ → Observation → Reply Store
  unfolding drive_facts require_identity insert_anchor
  publish_anchor_locked s label epoch generation o = unless (blocks label false) (
      bind (drive_facts s label) (λ d.
        require (eqb d.identity_epoch epoch && eqb d.write_generation generation)
          clean_anchor_cas_failed (unless (require_identity o d) (insert_anchor s label d o))))

  abbrev bumped : Store → Store
  bumped s = record s { planner_revision = s.planner_revision + 1 }

  -- the epoch that a caller of begin_generation may give, against that of the row
  abbrev epoch_agrees : Option ℕ → Option Drive → Bool
  epoch_agrees (some epoch) (some d) = eqb d.identity_epoch epoch
  epoch_agrees _ _ = true

  -- begin_generation; `live` is whether a session is live
  unfoldable pub begin_generation : Bool → Store → String → String → Option ℕ → Reply Store
  unfolding advance_one
  begin_generation live s label operation epoch = require (not live) fill_session_active (
      require (epoch_agrees epoch (get label s.drives)) drive_identity_unproven
        (bind (advance_one s label operation none none none) (λ t. ok (bumped t.0))))

  -- publish_clean_anchor
  unfoldable pub publish_clean_anchor : Bool → Store → String → ℕ → ℕ → Observation → Reply Store
  unfolding publish_anchor_locked
  publish_clean_anchor live s label epoch generation o =
      require (not live) fill_session_active
        (bind (publish_anchor_locked s label epoch generation o) (λ t. ok (bumped t)))
