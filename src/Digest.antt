-- ===== src/Digest.antt =====
-- modelark/archive_hash.py: the digest that a stored copy is expected to have, from the catalog, the
-- archive row and the git-annex key. Parameters: `strip` and `lower` are the methods of str, `is_hex64`
-- the match of sixty-four hexadecimal digits, and `annex_digest` the group that the pattern of a
-- SHA256 key captures, if it matches.
pub mod Agreement
mod Examples
use modelark.Prelude.{
  ℕ, ltb, String, Option, none, some, Bool, true, false, not, ◌&&◌, ◌||◌, List, [], ◌∷◌, ◌++◌, ◌==◌,
  if◌then◌else◌, length, is_some, is_none, map,
}
use modelark.Prelude.Dict.{Dict}
use modelark.Placement.Search.{distinct}

-- what expected_sha256 returns or raises
pub data Expected : Type 0 where
  digest : Option String → Expected
  conflict : Dict String → Expected
  invalid : Expected

module _ (strip lower : String → String) (is_hex64 : String → Bool)
    (annex_digest : String → Option String) where
  abbrev pub normal : String → String
  normal text = lower (strip text)

  -- _hex64
  unfoldable pub hex64 : Option String → Option String
  hex64 none = none
  hex64 (some value) =
      if normal value == ""
      then none
      else if is_hex64 (normal value)
      then some (normal value)
      else none

  -- _present_nonempty
  abbrev pub present : Option String → Bool
  present none = false
  present (some value) = not (strip value == "")

  abbrev pub opt_map : (String → String) → Option String → Option String
  opt_map f none = none
  opt_map f (some a) = some (f a)

  -- key or ""
  abbrev text_of : Option String → String
  text_of none = ""
  text_of (some key) = key

  -- the digest of the annex key of a copy that is not compressed
  unfoldable pub annex_source : Bool → Option String → Option String
  annex_source true key = none
  annex_source false key = opt_map lower (annex_digest (text_of key))

  abbrev pub entry : String → Option String → Dict String
  entry name none = []
  entry name (some value) = (name, value) ∷ []

  unfoldable pub sources : Option String → Option String → Option String → Dict String
  sources catalog orig annex =
      entry "catalog_sha" catalog ++ (entry "orig_sha256" orig ++ entry "annex_key" annex)

  -- set(sources.values())
  unfoldable pub values : Dict String → List String
  values found = distinct (map (λ e. e.1) found)

  -- the legacy text of malformed evidence that stands alone
  unfoldable pub legacy : Option String → Option String → Option String
  legacy orig catalog =
      if present orig && is_none (hex64 orig)
      then opt_map normal orig
      else if present catalog && is_none (hex64 catalog)
      then opt_map normal catalog
      else none

  unfoldable pub by_values : Dict String → Option String → Option String → List String → Expected
  unfolding legacy
  by_values found orig catalog [] = digest (legacy orig catalog)
  by_values found orig catalog (d ∷ []) = digest (some d)
  by_values found orig catalog (d ∷ e ∷ ds) = conflict found

  -- expected_sha256 after _canonical_compressed
  unfoldable pub resolve : Option String → Option String → Bool → Option String → Expected
  unfolding hex64 annex_source sources values by_values
  resolve catalog_sha orig_sha256 compressed annex_key =
      let annex = annex_source compressed annex_key in
      let catalog = hex64 catalog_sha in
      let orig = hex64 orig_sha256 in
      if present orig_sha256 && is_none orig && is_some annex
      then invalid
      else if present catalog_sha && is_none catalog && (is_some orig || is_some annex)
      then invalid
      else by_values (sources catalog orig annex) orig_sha256 catalog_sha
          (values (sources catalog orig annex))

  -- expected_sha256; a value of `compressed` that is not a Boolean is none
  unfoldable pub expected_sha256 :
      Option String → Option String → Option Bool → Option String → Expected
  unfolding resolve
  expected_sha256 catalog_sha orig_sha256 none annex_key = invalid
  expected_sha256 catalog_sha orig_sha256 (some compressed) annex_key =
      resolve catalog_sha orig_sha256 compressed annex_key

  -- `if approved_sha256:` and the comparisons after it
  unfoldable pub satisfied_by : Option String → Option String → Bool
  satisfied_by none resolved = is_some resolved && not (text_of resolved == "")
  satisfied_by (some approved) resolved =
      if approved == ""
      then is_some resolved && not (text_of resolved == "")
      else is_some resolved && (lower (text_of resolved) == lower approved)

  -- content_satisfies
  unfoldable pub content_satisfies :
      Option String → Option String → Option Bool → Option String → Bool
  unfolding satisfied_by expected_sha256
  content_satisfies approved orig_sha256 compressed annex_key =
      elim (expected_sha256 none orig_sha256 compressed annex_key) [
        | digest resolved ↦ satisfied_by approved resolved
        | conflict found ↦ false
        | invalid ↦ false
      ]
