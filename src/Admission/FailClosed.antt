-- ===== src/Admission/FailClosed.antt =====
-- The evidence of modelark/admission.py for a file that is about to be written, and for a preview:
-- what lies behind a verdict that offers bytes.
use modelark.Prelude.{
  ℕ, String, ◌≡◌, ◌≢◌, refl, sym, ◌∙◌, Option, none, some, Bool, true, false, arith, List,
}
use modelark.Prelude.Int.{ℤ, clamp_sub}
use modelark.Evidence.{live, derive}
use modelark.Evidence.Precedence.{derive_mounted-LiveProven, derive_live}
use modelark.Admission.{
  DriveFacts, Observation, FenceTry, held, facts_for, derive_from, execution_evidence, preview,
  observation_agrees, same_identity, floor_of,
}

module _ (safety_floor : ℕ → Bool → ℕ)
    (is_legacy_serial_mismatch : DriveFacts → Option String → Bool) where
  -- the diagnostic code and the provenance do not touch the verdict
  derive_from-verdict :
      (f : DriveFacts) (o : Option Observation) (b : Bool) (now : String)
      → let e = derive_from safety_floor is_legacy_serial_mismatch f o b now in
        let d = derive (facts_for safety_floor f o b) in
        (e.executable ≡ d.executable) × (e.kind ≡ d.kind) × (e.admissible_free ≡ d.admissible_free)
  unfolding derive_from
  derive_from-verdict f o b now = ground arith

  -- Admission for a file that is about to be written, from an observation under the held fence, is
  -- executable only if the observation agrees with the row that is read now, this installation
  -- alone writes the drive, and free space was read; the floor of that row is then subtracted once.
  pub execution_evidence_sound :
      (f : DriveFacts) (o : Observation) (now : String)
      → (execution_evidence safety_floor is_legacy_serial_mismatch f (some o) now).executable ≡ true
      → let e = execution_evidence safety_floor is_legacy_serial_mismatch f (some o) now in
        (free : ℤ) × (observation_agrees f o ≡ true)
        × (o.free_bytes ≡ some free)
        × (e.kind ≡ live)
        × (e.admissible_free ≡ clamp_sub free (floor_of safety_floor f))
  unfolding execution_evidence facts_for
  execution_evidence_sound f o now h =
      let (x, k, a) = derive_from-verdict f (some o) true now in
      let (free, p, l, _, adm) =
        derive_mounted-LiveProven (facts_for safety_floor f (some o) true) refl (sym x ∙ h) in
      (free, p.1, p.4, k ∙ l, a ∙ adm)

  -- the verdict of `_derive` is `live` only for a fenced observation that agrees with the row
  derive_from_live :
      (f : DriveFacts) (o : Option Observation) (b : Bool) (now : String)
      → (derive_from safety_floor is_legacy_serial_mismatch f o b now).kind ≡ live
      → (b ≡ true) × (y : Observation) × (o ≡ some y) × (observation_agrees f y ≡ true)
  unfolding facts_for
  derive_from_live f o b now h =
      let (x, k, a) = derive_from-verdict f o b now in
      let (m, p, q) = derive_live (facts_for safety_floor f o b) (sym k ∙ h) in from_facts o m p q
    where
      from_facts :
          (o : Option Observation)
          → (facts_for safety_floor f o b).mounted ≡ true
          → (facts_for safety_floor f o b).identity_proven ≡ true
          → (facts_for safety_floor f o b).fence_held ≡ true
          → (b ≡ true) × (y : Observation) × (o ≡ some y) × (observation_agrees f y ≡ true)
      from_facts none m p q = cc
      from_facts (some y) m p q = (q, y, refl, p)

  module _ (lock_keys : DriveFacts → Option (List (String × ℕ))) where
    preview-held :
        (before checked under : DriveFacts) (try : FenceTry) (o : Option Observation) (now : String)
        → (preview safety_floor is_legacy_serial_mismatch lock_keys before checked under try o
            now).kind
          ≡ live
        → (try ≡ held)
          × (same_identity checked before ≡ true)
          × ((derive_from safety_floor is_legacy_serial_mismatch under o true now).kind ≡ live)
    unfolding preview
    preview-held before checked under try o now h = ground (arith, no_live)
      where
        no_live :
            (derive_from safety_floor is_legacy_serial_mismatch under none false now).kind ≢ live
        no_live l = cc ((derive_from_live under none false now l).0)

    -- A preview that reports live space has held the fence, has seen the identity that it captured
    -- again under the fence, and has an observation that agrees with the row that is read there.
    pub preview_live :
        (before checked under : DriveFacts) (try : FenceTry) (o : Option Observation) (now : String)
        → (preview safety_floor is_legacy_serial_mismatch lock_keys before checked under try o
            now).kind
          ≡ live
        → (try ≡ held)
          × (same_identity checked before ≡ true)
          × ((y : Observation) × (o ≡ some y) × (observation_agrees under y ≡ true))
    preview_live before checked under try o now h =
        let (t, same, l) = preview-held before checked under try o now h in
        let (_, y, e, agrees) = derive_from_live under o true now l in (t, same, (y, e, agrees))
