-- ===== src/Digest/Examples.antt =====
-- Digests of modelark/archive_hash.py that agree and that differ, and what the theorems say of them.
use modelark.Prelude.{
  ◌≡◌, refl, String, Option, none, some, Bool, true, false, [], ◌∷◌, ◌==◌, if◌then◌else◌, inl,
}
use modelark.Prelude.Distinct.{distinct}
use modelark.Digest.{
  expected_sha256, resolve, content_satisfies, hex64, annex_source, values, sources, by_values,
  satisfied_by,
}
use modelark.Digest.Agreement.{
  AgreesWith, Disputed, catalog_of, annex_of, expected_sha256_agrees, expected_sha256_conflict,
  content_satisfies_sound,
}

abbrev same : String → String
same text = text

abbrev hex : String → Bool
hex text = if text == "aa" then true else text == "bb"

abbrev annexed : String → Option String
annexed key = if key == "SHA256E-s4--aa" then some "aa" else none

expected_sha256_agrees_example :
    AgreesWith (some "aa") (catalog_of same same hex annexed (some "aa"))
    × AgreesWith (some "aa") (catalog_of same same hex annexed none)
    × AgreesWith (some "aa") (annex_of same same hex annexed false (some "SHA256E-s4--aa"))
unfolding expected_sha256 resolve hex64 annex_source values sources by_values distinct
expected_sha256_agrees_example =
    expected_sha256_agrees same same hex annexed (some "aa") none false (some "SHA256E-s4--aa")
      (some "aa") refl

expected_sha256_conflict_example :
    Disputed same same hex annexed
      (catalog_of same same hex annexed (some "bb"))
      (catalog_of same same hex annexed none)
      (annex_of same same hex annexed false (some "SHA256E-s4--aa"))
      (("catalog_sha", "bb") ∷ ("annex_key", "aa") ∷ [])
unfolding expected_sha256 resolve hex64 annex_source values sources by_values distinct
expected_sha256_conflict_example =
    expected_sha256_conflict same same hex annexed (some "bb") none false (some "SHA256E-s4--aa")
      (("catalog_sha", "bb") ∷ ("annex_key", "aa") ∷ []) refl

content_satisfies_sound_example : (same "aa" == same "aa") ≡ true
unfolding content_satisfies expected_sha256 resolve hex64 annex_source values sources by_values
    distinct satisfied_by
content_satisfies_sound_example =
    content_satisfies_sound same same hex annexed "aa" (some "aa") true none refl refl "aa"
      (inl refl)
