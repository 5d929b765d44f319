-- ===== src/Evidence/Examples.antt =====
-- Verdicts of modelark/capacity_evidence.py and modelark/admission.py on a drive that is mounted and
-- on one that is away, and what the theorems say of them.
use modelark.Prelude.{
  ℕ, ◌≡◌, ◌≤◌, ◌⊎◌, refl, String, Option, none, some, Bool, true, false, is_some, List, [], ◌∷◌,
}
use modelark.Prelude.Int.{ℤ, pos, clamp_sub}
use modelark.Evidence.{Facts, live, anchor, unknown, derive}
use modelark.Evidence.Precedence.{
  LiveProven, AnchorProven, derive-Proven, derive_fail_closed, derive_anchor-le-optimistic,
}
use modelark.Admission.{
  DriveFacts, Observation, held, execution_evidence, preview, observation_agrees, same_identity,
  floor_of,
}
use modelark.Admission.FailClosed.{execution_evidence_sound, preview_live}

-- A drive of 100 bytes with a floor of 10: mounted with 70 free, or away with an anchor of 60.
abbrev facts : Bool → Bool → Facts
facts here fenced = record {
  mounted = here;
  identity_proven = true;
  fence_held = fenced;
  write_authority = "dedicated_local";
  current_epoch = some 3;
  filesystem_capacity = some 100;
  current_fingerprint = some "fp";
  live_free = some (pos 70);
  dirty = false;
  anchor_free = some (pos 60);
  anchor_epoch = some 3;
  anchor_fingerprint = some "fp";
  anchor_capacity = some 100;
  safety_floor = 10;
}

derive-Proven_example :
    (free : ℤ) × ((LiveProven (facts true true) free × ((derive (facts true true)).kind ≡ live))
      ⊎ (AnchorProven (facts true true) free × ((derive (facts true true)).kind ≡ anchor)))
    × ((derive (facts true true)).observed_free ≡ some free)
    × ((derive (facts true true)).admissible_free ≡ clamp_sub free 10)
unfolding derive
derive-Proven_example = derive-Proven (facts true true) refl

derive_fail_closed_example :
    ((derive (facts true false)).kind ≡ unknown)
    × ((derive (facts true false)).admissible_free ≡ 0)
    × ((derive (facts true false)).observed_free ≡ none)
    × (is_some (derive (facts true false)).code ≡ true)
unfolding derive
derive_fail_closed_example = derive_fail_closed (facts true false) refl

derive_anchor-le-optimistic_example : (derive (facts false true)).admissible_free ≤ 90
unfolding derive
derive_anchor-le-optimistic_example = derive_anchor-le-optimistic (facts false true) 90 refl refl

abbrev row : DriveFacts
row = record {
  epoch = some 3;
  generation = 2;
  fingerprint = some "fp";
  filesystem_capacity = some 100;
  authority = "dedicated_local";
  raid = false;
  anchor = none;
  fs_uuid = some "U";
  annex_uuid = none;
  serial = some "S";
}

abbrev seen : Observation
seen = record {
  identity_proven = true;
  free_bytes = some (pos 70);
  filesystem_capacity = some 100;
  fingerprint = some "fp";
  refusal_code = none;
}

-- a floor of ten bytes on every drive
abbrev floor : ℕ → Bool → ℕ
floor capacity raid = 10

abbrev no_mismatch : DriveFacts → Option String → Bool
no_mismatch f fp = false

abbrev one_key : DriveFacts → Option (List (String × ℕ))
one_key f = some (("U", 0) ∷ [])

execution_evidence_sound_example :
    (free : ℤ) × (observation_agrees row seen ≡ true)
    × (seen.free_bytes ≡ some free)
    × ((execution_evidence floor no_mismatch row (some seen) "now").kind ≡ live)
    × ((execution_evidence floor no_mismatch row (some seen) "now").admissible_free
        ≡ clamp_sub free (floor_of floor row))
unfolding execution_evidence modelark.Admission.derive_from modelark.Admission.facts_for derive
execution_evidence_sound_example = execution_evidence_sound floor no_mismatch row seen "now" refl

preview_live_example :
    (held ≡ held)
    × (same_identity row row ≡ true)
    × ((y : Observation) × (some seen ≡ some y) × (observation_agrees row y ≡ true))
unfolding preview modelark.Admission.derive_from modelark.Admission.facts_for same_identity derive
preview_live_example =
    preview_live floor no_mismatch one_key row row row held (some seen) "now" refl
