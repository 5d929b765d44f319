-- ===== src/Evidence.antt =====
-- modelark/capacity_evidence.py: the typed admission evidence of one drive and the fail-closed
-- precedence of `derive`. The hash behind `identity_fingerprint_v1` is not under this model: a
-- fingerprint is a text that is compared whole.
pub mod Precedence
mod Examples
use modelark.Prelude.{
  ℕ, ◌-◌, String, Option, none, some, Bool, true, false, not, ◌||◌, leb, opt_eq, opt_eq_ℕ,
  if◌then◌else◌, ◌==◌,
}
use modelark.Prelude.Int.{ℤ, pos, negsuc, clamp_sub}

-- `kind` of Evidence
pub data Kind : Type 0 where
  live anchor unknown : Kind

-- The `code` values that the evidence layer emits.
pub data Code : Type 0 where
  drive_identity_unproven : Code
  unsupported_shared_writer : Code
  drive_fence_unavailable : Code
  capacity_evidence_unknown : Code
  drive_reconciliation_required : Code
  anchor_out_of_range : Code
  drive_serial_repair_required : Code

pub record Evidence : Type 0 where
  pub kind : Kind
  pub executable : Bool
  pub admissible_free : ℕ
  pub code : Option Code
  pub observed_free : Option ℤ
  pub optimistic_usable_max : Option ℕ
  pub observed_at : Option String
  pub identity_epoch : Option ℕ

-- The keyword arguments of `derive`.
pub record Facts : Type 0 where
  pub mounted : Bool
  pub identity_proven : Bool
  pub fence_held : Bool
  pub write_authority : String
  pub current_epoch : Option ℕ
  pub filesystem_capacity : Option ℕ
  pub current_fingerprint : Option String
  pub live_free : Option ℤ
  pub dirty : Bool
  pub anchor_free : Option ℤ
  pub anchor_epoch : Option ℕ
  pub anchor_fingerprint : Option String
  pub anchor_capacity : Option ℕ
  pub safety_floor : ℕ

-- _optimistic_usable_max
abbrev pub optimistic_usable_max : Option ℕ → ℕ → Option ℕ
optimistic_usable_max none floor = none
optimistic_usable_max (some capacity) floor = some (capacity - floor)

-- 0 <= anchor_free <= capacity, with a capacity that is known
abbrev pub anchor_in_range : ℤ → Option ℕ → Bool
anchor_in_range free none = false
anchor_in_range (pos n) (some capacity) = leb n capacity
anchor_in_range (negsuc n) (some capacity) = false

-- the nested function `unknown` of `derive`
unknown_evidence : Facts → Code → Evidence
unknown_evidence f c = record {
  kind = unknown;
  executable = false;
  admissible_free = 0;
  code = some c;
  observed_free = none;
  optimistic_usable_max = optimistic_usable_max f.filesystem_capacity f.safety_floor;
  observed_at = none;
  identity_epoch = none;
}

known_evidence : Facts → Kind → ℤ → Evidence
known_evidence f k free = record {
  kind = k;
  executable = true;
  admissible_free = clamp_sub free f.safety_floor;
  code = none;
  observed_free = some free;
  optimistic_usable_max = optimistic_usable_max f.filesystem_capacity f.safety_floor;
  observed_at = none;
  identity_epoch = none;
}

derive_mounted : Facts → Evidence
unfolding unknown_evidence known_evidence
derive_mounted f =
    if not f.identity_proven
    then unknown_evidence f drive_identity_unproven
    else if not (f.write_authority == "dedicated_local")
    then unknown_evidence f unsupported_shared_writer
    else if not f.fence_held
    then unknown_evidence f drive_fence_unavailable
    else elim f.live_free [
      | none ↦ unknown_evidence f capacity_evidence_unknown
      | some free ↦ known_evidence f live free
    ]

derive_offline : Facts → Evidence
unfolding unknown_evidence known_evidence
derive_offline f =
    if f.dirty then unknown_evidence f drive_reconciliation_required else elim f.anchor_free [
      | none ↦ unknown_evidence f capacity_evidence_unknown
      | some free ↦
          if not (f.write_authority == "dedicated_local")
          then unknown_evidence f unsupported_shared_writer
          else if not (opt_eq_ℕ f.anchor_epoch f.current_epoch)
              || not (opt_eq f.anchor_fingerprint f.current_fingerprint)
              || not (opt_eq_ℕ f.anchor_capacity f.filesystem_capacity)
          then unknown_evidence f drive_reconciliation_required
          else if not (anchor_in_range free f.filesystem_capacity)
          then unknown_evidence f anchor_out_of_range
          else known_evidence f anchor free
    ]

unfoldable pub derive : Facts → Evidence
unfolding derive_mounted derive_offline
derive f = if f.mounted then derive_mounted f else derive_offline f
