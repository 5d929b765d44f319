-- ===== src/Mutation/Admits.antt =====
-- modelark/admission.py over the catalog that modelark/drive_mutation.py writes: _facts, and what an
-- unmounted drive is admitted with before and after an anchor.
use modelark.Prelude.{
  ℕ, ◌≡◌, refl, sym, ◌∙◌, subst, String, Option, none, some, Bool, true, false, arith, opt_eq_ℕ,
  inr, eqb_iff,
}
use modelark.Prelude.Dict.{get}
use modelark.Prelude.Int.{ℤ, pos, negsuc, clamp_sub}
use modelark.Evidence.{Evidence, derive, anchor_in_range}
use modelark.Evidence.Precedence.{derive_complete, AnchorProven}
use modelark.Admission.{Anchor, DriveFacts, derive_from, facts_for, floor_of}
use modelark.Mutation.{
  Drive, AnchorRow, Store, Refusal, ok, Observation, anchor_at, advance_one, publish_anchor_locked,
  free_in_range,
}
use modelark.Mutation.Generations.{Bounded, Published, advance_one-Advanced, publish-Published}
use modelark.Mutation.Bracket.{
  Published-anchor, Published-agrees, identity_test-agrees, require_identity-test,
}
use modelark.Mutation.Invariant.{IsDirty, advance-IsDirty}

abbrev pub anchor_of : Option AnchorRow → Option Anchor
anchor_of none = none
anchor_of (some a) = some (record {
  free_bytes = a.free_bytes;
  epoch = some a.epoch;
  fingerprint = a.fingerprint;
  capacity = a.capacity;
})

-- admission._facts; `raid` is the column raid_backed
unfoldable pub facts_of : Store → String → Bool → DriveFacts
facts_of s label raid = elim (get label s.drives) [
  | none ↦ record {
    epoch = none;
    generation = 0;
    fingerprint = none;
    filesystem_capacity = none;
    authority = "unknown";
    raid = false;
    anchor = none;
    fs_uuid = none;
    annex_uuid = none;
    serial = none;
  }
  | some d ↦ record {
    epoch = some d.identity_epoch;
    generation = d.write_generation;
    fingerprint = d.fingerprint;
    filesystem_capacity = d.capacity;
    authority = d.authority;
    raid = raid;
    anchor = anchor_of (anchor_at label d.identity_epoch d.write_generation s.anchors);
    fs_uuid = d.fs_uuid;
    annex_uuid = d.annex_uuid;
    serial = d.serial;
  }
]

in_range-some :
    (o : Option ℤ) (capacity : Option ℕ)
    → free_in_range o capacity ≡ true
    → (free : ℤ) × (o ≡ some free)
in_range-some none capacity h = cc
in_range-some (some free) capacity h = (free, refl)

in_range-capacity :
    (free : ℤ) (o : Option ℤ) (observed capacity : Option ℕ)
    → o ≡ some free
    → opt_eq_ℕ observed capacity ≡ true
    → free_in_range o observed ≡ true
    → anchor_in_range free capacity ≡ true
in_range-capacity (pos n) o (some m) (some c) e h k = ground (arith, rw e at k, eqb_iff m c)
in_range-capacity (negsuc n) o observed capacity e h k = let r = rw e at k in absurd (ground arith)
in_range-capacity (pos n) o none capacity e h k = let r = rw e at k in absurd (ground arith)
in_range-capacity (pos n) o (some m) none e h k = cc

module _ (safety_floor : ℕ → Bool → ℕ)
    (is_legacy_serial_mismatch : DriveFacts → Option String → Bool) where
  -- the evidence of a drive that is not mounted
  abbrev pub offline : Store → String → Bool → String → Evidence
  offline s label raid now =
      derive_from safety_floor is_legacy_serial_mismatch (facts_of s label raid) none false now

  IsDirty-offline :
      (s : Store) (label : String) (raid : Bool) (now : String)
      → IsDirty s label
      → ((offline s label raid now).executable ≡ false)
        × ((offline s label raid now).admissible_free ≡ 0)
  unfolding facts_of derive_from facts_for derive
  IsDirty-offline s label raid now d = rw (d.here, facts_of, d.no_anchor) (ground (arith, d.begun))

  -- Once a generation of a drive has been advanced, the evidence of the drive while it is not mounted
  -- is not executable and offers no bytes, whatever anchors there were before.
  pub advance-unadmitted :
      (blocks : String → Bool → Option Refusal) (s t : Store) (label operation : String)
      (captured : Option Drive) (session : Option String) (token : Option ℕ) (g : ℕ)
      → Bounded s
      → advance_one blocks s label operation captured session token ≡ ok (t, g)
      → (raid : Bool) (now : String)
      → ((offline t label raid now).executable ≡ false)
        × ((offline t label raid now).admissible_free ≡ 0)
  advance-unadmitted blocks s t label operation captured session token g b h raid now =
      IsDirty-offline t label raid now (
        advance-IsDirty s t label g b
          (advance_one-Advanced blocks s t label operation captured session token g h))

  -- what an anchor of `free` bytes admits, less the floor of the drive
  abbrev pub Admitted : Store → String → Bool → String → ℤ → Type 0
  Admitted t label raid now free =
      ((offline t label raid now).executable ≡ true)
      × ((offline t label raid now).admissible_free
          ≡ clamp_sub free (floor_of safety_floor (facts_of t label raid)))

  AnchorProven-offline :
      (t : Store) (label : String) (raid : Bool) (now : String) (free : ℤ)
      → AnchorProven (facts_for safety_floor (facts_of t label raid) none false) free
      → Admitted t label raid now free
  unfolding derive_from facts_for
  AnchorProven-offline t label raid now free p =
      let (e, c, a) =
        derive_complete (facts_for safety_floor (facts_of t label raid) none false) free (inr p) in
      (e, a)

  Published-AnchorProven :
      (s t : Store) (label : String) (epoch g : ℕ) (o : Observation) (free : ℤ) (raid : Bool)
      → Published s t label epoch g o
      → o.free_bytes ≡ some free
      → AnchorProven (facts_for safety_floor (facts_of t label raid) none false) free
  unfolding facts_for facts_of
  Published-AnchorProven s t label epoch g o free raid p h =
      let there : get label t.drives ≡ some p.drive =
        subst (λ q. get label q ≡ some p.drive) (sym p.drives) p.here in
      let (e, f, c, _) = Published-agrees s t label epoch g o p in
      let (_, _, cap) = identity_test-agrees o p.drive (require_identity-test o p.drive p.proven) in
      rw (there, facts_of, Published-anchor s t label epoch g o p)
        (
          refl,
          ground arith,
          p.dedicated,
          p.row_free ∙ h,
          e,
          f,
          c,
          in_range-capacity free o.free_bytes o.filesystem_capacity p.drive.capacity h cap
              p.in_range,
        )

  -- The anchor that a mutation publishes is what the drive is admitted with while it is not mounted:
  -- the evidence is executable and offers the observed bytes less the safety floor.
  pub publish-Admitted :
      (blocks : String → Bool → Option Refusal) (s t : Store) (label : String) (epoch g : ℕ)
      (o : Observation)
      → publish_anchor_locked blocks s label epoch g o ≡ ok t
      → (raid : Bool) (now : String)
      → (free : ℤ) × (o.free_bytes ≡ some free) × Admitted t label raid now free
  publish-Admitted blocks s t label epoch g o h raid now =
      let p = publish-Published blocks s t label epoch g o h in
      let (free, e) = in_range-some o.free_bytes o.filesystem_capacity p.in_range in
      (
        free,
        e,
        AnchorProven-offline t label raid now free
            (Published-AnchorProven s t label epoch g o free raid p e),
      )
