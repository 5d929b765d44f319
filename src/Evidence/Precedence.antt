-- ===== src/Evidence/Precedence.antt =====
-- The precedence of `derive` in modelark/capacity_evidence.py, seen by its caller.
use modelark.Prelude.{
  ℕ, ◌≤◌, ◌≡◌, ◌⊎◌, inl, inr, none, some, true, false, arith, opt_eq, opt_eq_ℕ, ◌==◌, is_some,
  Option-cases, Bool-cases,
}
use modelark.Prelude.Int.{ℤ, clamp_sub}
use modelark.Evidence.{Facts, live, anchor, unknown, derive, anchor_in_range}

-- A live observation may be admitted: the drive is mounted and proven, this installation alone
-- writes it, its fence is held, and free space was read.
abbrev pub LiveProven : Facts → ℤ → Type 0
LiveProven f free =
    (f.mounted ≡ true)
    × (f.identity_proven ≡ true)
    × ((f.write_authority == "dedicated_local") ≡ true)
    × (f.fence_held ≡ true)
    × (f.live_free ≡ some free)

-- An anchor may be admitted: the drive is away and clean, this installation alone writes it, and
-- the anchor is of the current epoch, fingerprint and capacity and lies in range.
abbrev pub AnchorProven : Facts → ℤ → Type 0
AnchorProven f free =
    (f.mounted ≡ false)
    × (f.dirty ≡ false)
    × ((f.write_authority == "dedicated_local") ≡ true)
    × (f.anchor_free ≡ some free)
    × (opt_eq_ℕ f.anchor_epoch f.current_epoch ≡ true)
    × (opt_eq f.anchor_fingerprint f.current_fingerprint ≡ true)
    × (opt_eq_ℕ f.anchor_capacity f.filesystem_capacity ≡ true)
    × (anchor_in_range free f.filesystem_capacity ≡ true)

pub derive_mounted-LiveProven :
    (f : Facts)
    → f.mounted ≡ true
    → (derive f).executable ≡ true
    → (free : ℤ) × LiveProven f free
      × ((derive f).kind ≡ live)
      × ((derive f).observed_free ≡ some free)
      × ((derive f).admissible_free ≡ clamp_sub free f.safety_floor)
unfolding derive
derive_mounted-LiveProven f m h = elim (Option-cases f.live_free) [
  | inl e ↦ absurd (ground arith)
  | inr (free, e) ↦ (free, ground arith, ground arith, ground arith, ground arith)
]

pub derive_offline-AnchorProven :
    (f : Facts)
    → f.mounted ≡ false
    → (derive f).executable ≡ true
    → (free : ℤ) × AnchorProven f free
      × ((derive f).kind ≡ anchor)
      × ((derive f).observed_free ≡ some free)
      × ((derive f).admissible_free ≡ clamp_sub free f.safety_floor)
unfolding derive
derive_offline-AnchorProven f m h = elim (Option-cases f.anchor_free) [
  | inl e ↦ absurd (ground arith)
  | inr (free, e) ↦ (free, ground arith, ground arith, ground arith, ground arith)
]

-- An executable verdict is backed by a proven live observation or by a proven anchor, whose free
-- space it reports, with the safety floor subtracted once.
pub derive-Proven :
    (f : Facts)
    → (derive f).executable ≡ true
    → (free : ℤ) × ((LiveProven f free × ((derive f).kind ≡ live))
        ⊎ (AnchorProven f free × ((derive f).kind ≡ anchor)))
      × ((derive f).observed_free ≡ some free)
      × ((derive f).admissible_free ≡ clamp_sub free f.safety_floor)
derive-Proven f h = elim (Bool-cases f.mounted) [
  | inl m ↦ let (free, p, k, o, a) = derive_mounted-LiveProven f m h in (free, inl (p, k), o, a)
  | inr m ↦ let (free, p, k, o, a) = derive_offline-AnchorProven f m h in (free, inr (p, k), o, a)
]

pub derive_live :
    (f : Facts)
    → (derive f).kind ≡ live
    → (f.mounted ≡ true) × (f.identity_proven ≡ true) × (f.fence_held ≡ true)
unfolding derive
derive_live f h = ground arith

-- Conversely a proven live observation is admitted, whether or not the drive is dirty, with the
-- floor subtracted; and so is a proven anchor.
pub derive_complete :
    (f : Facts) (free : ℤ)
    → LiveProven f free ⊎ AnchorProven f free
    → ((derive f).executable ≡ true)
      × ((derive f).code ≡ none)
      × ((derive f).admissible_free ≡ clamp_sub free f.safety_floor)
unfolding derive
derive_complete f free (inl h) = ground arith
derive_complete f free (inr h) = ground arith

-- A verdict that is not executable is typed `unknown`, carries a code, and offers no bytes; so a
-- planner that adds up admissible space never counts an unproven drive.
pub derive_fail_closed :
    (f : Facts)
    → (derive f).executable ≡ false
    → ((derive f).kind ≡ unknown)
      × ((derive f).admissible_free ≡ 0)
      × ((derive f).observed_free ≡ none)
      × (is_some (derive f).code ≡ true)
unfolding derive
derive_fail_closed f h = ground arith

-- Admitted anchor space never passes the optimistic maximum of the same facts, so the optimistic
-- search of the planner never has less room on a drive than the known one.
pub derive_anchor-le-optimistic :
    (f : Facts) (m : ℕ)
    → (derive f).kind ≡ anchor
    → (derive f).optimistic_usable_max ≡ some m
    → (derive f).admissible_free ≤ m
unfolding derive
derive_anchor-le-optimistic f m k o = ground arith
