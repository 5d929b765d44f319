-- ===== src/Admission.antt =====
-- modelark/admission.py: evidence for one drive from the catalog row and a fenced observation, for a
-- file that is about to be written and for a preview. The rows that are read are arguments: `before`
-- is the row when the preview starts, `checked` the row that is compared with it under the fence, and
-- `under` the row that `_derive` reads. Parameters: `safety_floor` is capacity.safety_floor, which
-- computes in floats; `is_legacy_serial_mismatch` is serial_identity.is_legacy_serial_mismatch and
-- `lock_keys` is FenceIdentity.lock_keys (`none` where it raises UnprovenFenceIdentity), both over
-- SHA-256.
pub mod FailClosed
use modelark.Prelude.{
  ℕ, ltb, String, Option, none, some, Bool, true, false, not, ◌&&◌, opt_eq, opt_eq_ℕ, is_none,
  if◌then◌else◌, ◌==◌, List,
}
use modelark.Prelude.Int.{ℤ}
use modelark.Evidence.{
  Evidence, Facts, Code, unknown, derive, drive_identity_unproven, drive_fence_unavailable,
  drive_serial_repair_required,
}

pub record Anchor : Type 0 where
  pub free_bytes : Option ℤ
  pub epoch : Option ℕ
  pub fingerprint : Option String
  pub capacity : Option ℕ

-- _Facts; `label` is the drive that the row is of
pub record DriveFacts : Type 0 where
  pub epoch : Option ℕ
  pub generation : ℕ
  pub fingerprint : Option String
  pub filesystem_capacity : Option ℕ
  pub authority : String
  pub raid : Bool
  pub anchor : Option Anchor
  pub fs_uuid : Option String
  pub annex_uuid : Option String
  pub serial : Option String

-- drive_mutation.Observation, without its audit texts
pub record Observation : Type 0 where
  pub identity_proven : Bool
  pub free_bytes : Option ℤ
  pub filesystem_capacity : Option ℕ
  pub fingerprint : Option String
  pub refusal_code : Option String

-- bool(text or None)
abbrev pub truthy : Option String → Bool
truthy none = false
truthy (some t) = not (t == "")

abbrev pub observation_agrees : DriveFacts → Observation → Bool
observation_agrees f o =
    truthy f.fingerprint
    && o.identity_proven
    && opt_eq o.fingerprint f.fingerprint
    && opt_eq_ℕ o.filesystem_capacity f.filesystem_capacity

abbrev anchor_field {ℓ} : {A : Type ℓ} → Option Anchor → (Anchor → Option A) → Option A
anchor_field none g = none
anchor_field (some a) g = g a

abbrev live_free : Option Observation → Option ℤ
live_free none = none
live_free (some o) = o.free_bytes

abbrev proven : DriveFacts → Option Observation → Bool
proven f none = false
proven f (some o) = observation_agrees f o

abbrev mounted : Option Observation → Bool
mounted none = false
mounted (some o) = true

-- FenceIdentity equality: the fields that a lifecycle change can alter
unfoldable pub same_identity : DriveFacts → DriveFacts → Bool
same_identity a b =
    opt_eq a.fs_uuid b.fs_uuid
    && opt_eq a.annex_uuid b.annex_uuid
    && opt_eq a.serial b.serial
    && opt_eq_ℕ a.filesystem_capacity b.filesystem_capacity
    && opt_eq_ℕ a.epoch b.epoch
    && opt_eq a.fingerprint b.fingerprint

-- replace(evidence, kind="unknown", executable=False, admissible_free=0, code=c)
abbrev refuse : Evidence → Code → Evidence
refuse e c = record e { kind = unknown; executable = false; admissible_free = 0; code = some c }

-- What the non-blocking shared hold of the fence does.
pub data FenceTry : Type 0 where
  held contended : FenceTry

module _ (safety_floor : ℕ → Bool → ℕ) where
  abbrev pub floor_of : DriveFacts → ℕ
  floor_of f = elim f.filesystem_capacity [ none ↦ 0 | some c ↦ safety_floor c f.raid ]

  -- the arguments that `_derive` gives to capacity_evidence.derive
  unfoldable pub facts_for : DriveFacts → Option Observation → Bool → Facts
  facts_for f o fence_held = record {
    mounted = mounted o;
    identity_proven = proven f o;
    fence_held = fence_held;
    write_authority = f.authority;
    current_epoch = f.epoch;
    filesystem_capacity = f.filesystem_capacity;
    current_fingerprint = f.fingerprint;
    live_free = live_free o;
    dirty = ltb 0 f.generation && is_none f.anchor;
    anchor_free = anchor_field f.anchor (λ a. a.free_bytes);
    anchor_epoch = anchor_field f.anchor (λ a. a.epoch);
    anchor_fingerprint = anchor_field f.anchor (λ a. a.fingerprint);
    anchor_capacity = anchor_field f.anchor (λ a. a.capacity);
    safety_floor = floor_of f;
  }

abbrev is_identity_unproven : Option Code → Bool
is_identity_unproven (some drive_identity_unproven) = true
is_identity_unproven _ = false

module _ (safety_floor : ℕ → Bool → ℕ)
    (is_legacy_serial_mismatch : DriveFacts → Option String → Bool) where
  -- whether the saved row and the observation show the repairable serial mismatch
  serial_repair : DriveFacts → Option Observation → Bool → Evidence → Bool
  serial_repair f none fence_held e = false
  serial_repair f (some o) fence_held e =
      is_identity_unproven e.code
      && fence_held
      && (f.authority == "dedicated_local")
      && not o.identity_proven
      && opt_eq o.refusal_code (some "DRIVE_SERIAL_REPAIR_REQUIRED")
      && opt_eq_ℕ o.filesystem_capacity f.filesystem_capacity
      && is_legacy_serial_mismatch f o.fingerprint

  -- _derive, from the row as it stands now
  unfoldable pub derive_from : DriveFacts → Option Observation → Bool → String → Evidence
  unfolding facts_for serial_repair
  derive_from f o fence_held now =
      let e = derive (facts_for safety_floor f o fence_held) in
      let coded =
        if serial_repair f o fence_held e
        then record e { code = some drive_serial_repair_required }
        else e in
      record coded { observed_at = some now; identity_epoch = f.epoch }

  -- execution_evidence
  unfoldable pub execution_evidence : DriveFacts → Option Observation → String → Evidence
  execution_evidence f o now = derive_from f o true now

  module _ (lock_keys : DriveFacts → Option (List (String × ℕ))) where
    -- the body of the loop of preview_by_drive; `observation` is what `observe` would read
    unfoldable pub preview :
        DriveFacts → DriveFacts → DriveFacts → FenceTry → Option Observation → String → Evidence
    preview before checked under try observation now =
        if not (truthy before.fingerprint)
        then derive_from under none false now
        else elim (lock_keys before) [
          | none ↦ refuse (derive_from under none false now) drive_identity_unproven
          | some keys ↦ elim try [
            | contended ↦ refuse (derive_from under observation false now) drive_fence_unavailable
            | held ↦
                let unchanged = same_identity checked before in
                let e = derive_from under observation unchanged now in
                if unchanged then e else refuse e drive_identity_unproven
          ]
        ]
