-- ===== src/Digest/Agreement.antt =====
-- The answers of modelark/archive_hash.py against the sources that they rest on.
use modelark.Prelude.{
  ◌≡◌, refl, sym, ◌∙◌, ap, subst, String, Option, none, some, Bool, true, false, ◌&&◌, ◌||◌, List,
  [], ◌∷◌, ◌==◌, arith, Bool-cases, inl, inr, eq_refl, is_some, is_none, map, contains, ◌⊎◌, ◌≢◌,
}
use modelark.Prelude.Dict.{Dict}
use modelark.Prelude.Distinct.{distinct_one, distinct_none, distinct_two}
use modelark.Digest.{
  Expected, digest, conflict, invalid, hex64, present, annex_source, sources, values, by_values,
  resolve, expected_sha256, satisfied_by, content_satisfies,
}

-- the sources that resolve to a digest all resolve to this one
abbrev pub AgreesWith : Option String → Option String → Type 0
AgreesWith o source = (s : String) → source ≡ some s → o ≡ some s

module _ (strip lower : String → String) (is_hex64 : String → Bool)
    (annex_digest : String → Option String) where
  abbrev found_in : Option String → Option String → Option String → Dict String
  found_in c o a = sources strip lower is_hex64 annex_digest c o a

  listed :
      (c o a : Option String) (s : String)
      → ((c ≡ some s) ⊎ ((o ≡ some s) ⊎ (a ≡ some s)))
      → contains (map (λ e. e.1) (found_in c o a)) s ≡ true
  unfolding sources
  listed none none none s h = ground arith
  listed (some c) none none s h = ground (arith, eq_refl s)
  listed none (some o) none s h = ground (arith, eq_refl s)
  listed none none (some a) s h = ground (arith, eq_refl s)
  listed (some c) (some o) none s h = ground (arith, eq_refl s)
  listed (some c) none (some a) s h = ground (arith, eq_refl s)
  listed none (some o) (some a) s h = ground (arith, eq_refl s)
  listed (some c) (some o) (some a) s h = ground (arith, eq_refl s)

  -- The digest that is answered for these sources, by the values that they have.
  by_values-agrees :
      (c o a orig catalog r : Option String) (ds : List String)
      → values strip lower is_hex64 annex_digest (found_in c o a) ≡ ds
      → by_values strip lower is_hex64 annex_digest (found_in c o a) orig catalog ds ≡ digest r
      → (s : String) → contains (map (λ e. e.1) (found_in c o a)) s ≡ true
      → r ≡ some s
  unfolding values by_values
  by_values-agrees c o a orig catalog r [] e h s m = absurd_of (distinct_none _ s e m)
    where
      absurd_of : true ≡ false → r ≡ some s
      absurd_of k = cc
  by_values-agrees c o a orig catalog r (d ∷ []) e h s m =
      let answer : some d ≡ r = cc in sym answer ∙ ap some (distinct_one _ d s e m)
  by_values-agrees c o a orig catalog r (d ∷ e ∷ ds) k h s m = cc

  -- What a conflict reports: the sources that resolve, and two of their values that differ.
  pub record Disputed (c o a : Option String) (found : Dict String) : Type 0 where
    pub reported : found ≡ found_in c o a
    pub first : String
    pub second : String
    pub in_first : contains (map (λ e. e.1) found) first ≡ true
    pub in_second : contains (map (λ e. e.1) found) second ≡ true
    pub differ : (first == second) ≡ false

  by_values-Disputed :
      (c o a orig catalog : Option String) (found : Dict String) (ds : List String)
      → values strip lower is_hex64 annex_digest (found_in c o a) ≡ ds
      → by_values strip lower is_hex64 annex_digest (found_in c o a) orig catalog ds
        ≡ conflict found
      → Disputed c o a found
  unfolding values by_values
  by_values-Disputed c o a orig catalog found [] e h = cc
  by_values-Disputed c o a orig catalog found (d ∷ []) e h = cc
  by_values-Disputed c o a orig catalog found (d ∷ e ∷ ds) k h =
      let (p, q, n) = distinct_two _ d e ds k in
      let same : found_in c o a ≡ found = cc in
      subst (Disputed c o a) same
        (record { reported = refl; first = d; second = e; in_first = p; in_second = q; differ = n })

  abbrev pub catalog_of : Option String → Option String
  catalog_of = hex64 strip lower is_hex64 annex_digest

  abbrev pub annex_of : Bool → Option String → Option String
  annex_of = annex_source strip lower is_hex64 annex_digest

  module _ (catalog_sha orig_sha256 : Option String) (compressed : Bool)
      (annex_key : Option String) where
    abbrev answer : Expected
    answer =
        expected_sha256 strip lower is_hex64 annex_digest catalog_sha orig_sha256 (some compressed)
          annex_key

    -- an answer that is not a refusal of malformed evidence is that of the sources
    past_invalid :
        (x : Expected)
        → answer ≡ x
        → x ≢ invalid
        → by_values strip lower is_hex64 annex_digest
            (found_in
              (catalog_of catalog_sha)
              (catalog_of orig_sha256)
              (annex_of compressed annex_key))
            orig_sha256
            catalog_sha
            (values strip lower is_hex64 annex_digest (
              found_in
                (catalog_of catalog_sha)
                (catalog_of orig_sha256)
                (annex_of compressed annex_key)))
          ≡ x
    unfolding expected_sha256 resolve
    past_invalid x h n =
        elim (Bool-cases (
          present strip lower is_hex64 annex_digest orig_sha256
          && is_none (catalog_of orig_sha256)
          && is_some (annex_of compressed annex_key))) [
            | inl e ↦ let g = rw (e, resolve) at h in absurd (n (sym g))
            | inr e ↦
                elim (Bool-cases (
                  present strip lower is_hex64 annex_digest catalog_sha
                  && is_none (catalog_of catalog_sha)
                  && (is_some (catalog_of orig_sha256)
                      || is_some (annex_of compressed annex_key)))) [
                        | inl f ↦ let g = rw (e, f, resolve) at h in absurd (n (sym g))
                        | inr f ↦ rw (e, f, resolve) at h
                      ]
          ]

    -- The digest that is expected is that of every source that resolves: of the catalog, of the
    -- archive row, and of the annex key of a copy that is not compressed.
    pub expected_sha256_agrees :
        (r : Option String)
        → answer ≡ digest r
        → AgreesWith r (catalog_of catalog_sha)
          × AgreesWith r (catalog_of orig_sha256)
          × AgreesWith r (annex_of compressed annex_key)
    expected_sha256_agrees r h =
        let c = catalog_of catalog_sha in
        let o = catalog_of orig_sha256 in
        let a = annex_of compressed annex_key in
        let agree =
          by_values-agrees c o a orig_sha256 catalog_sha r _ refl
            (past_invalid (digest r) h (λ k. cc)) in
        (
          λ s e. agree s (listed c o a s (inl e)),
          λ s e. agree s (listed c o a s (inr (inl e))),
          λ s e. agree s (listed c o a s (inr (inr e))),
        )

    -- A conflict is raised only when two sources that resolve differ, and it reports all of them.
    pub expected_sha256_conflict :
        (found : Dict String)
        → answer ≡ conflict found
        → Disputed
            (catalog_of catalog_sha)
            (catalog_of orig_sha256)
            (annex_of compressed annex_key)
            found
    expected_sha256_conflict found h =
        by_values-Disputed (catalog_of catalog_sha) (catalog_of orig_sha256)
          (annex_of compressed annex_key) orig_sha256 catalog_sha found _ refl
          (past_invalid (conflict found) h (λ k. cc))

  module _ (approved : String) (orig_sha256 : Option String) (compressed : Bool)
      (annex_key : Option String) where
    -- a source of the copy resolves to this digest
    abbrev pub Resolvable : String → Type 0
    Resolvable s = (catalog_of orig_sha256 ≡ some s) ⊎ (annex_of compressed annex_key ≡ some s)

    satisfied_some :
        (r : Option String) (s : String)
        → (approved == "") ≡ false
        → r ≡ some s
        → satisfied_by strip lower is_hex64 annex_digest (some approved) r ≡ true
        → (lower s == lower approved) ≡ true
    unfolding satisfied_by
    satisfied_some none s n e h = cc
    satisfied_some (some t) s n e h =
        let same : t ≡ s = cc in subst (λ x. (lower x == lower approved) ≡ true) same (ground arith)

    by_expected :
        (x : Expected) (s : String)
        → expected_sha256 strip lower is_hex64 annex_digest none orig_sha256
            (some compressed)
            annex_key
          ≡ x
        → (approved == "") ≡ false
        → content_satisfies strip lower is_hex64 annex_digest
            (some approved)
            orig_sha256
            (some compressed)
            annex_key
          ≡ true
        → Resolvable s
        → (lower s == lower approved) ≡ true
    unfolding content_satisfies
    by_expected (conflict found) s e n h k = let g = rw (e, content_satisfies) at h in cc
    by_expected invalid s e n h k = let g = rw (e, content_satisfies) at h in cc
    by_expected (digest r) s e n h k =
        let (_, o, a) = expected_sha256_agrees none orig_sha256 compressed annex_key r e in
        let resolved : r ≡ some s = elim k [ inl q ↦ o s q | inr q ↦ a s q ] in
        satisfied_some r s n resolved (rw (e, content_satisfies) at h)

    -- A copy satisfies an approved digest only when every source of the copy that resolves, the
    -- archive row and the annex key of a copy that is not compressed, is that digest, up to the case of
    -- letters.
    pub content_satisfies_sound :
        (approved == "") ≡ false
        → content_satisfies strip lower is_hex64 annex_digest
            (some approved)
            orig_sha256
            (some compressed)
            annex_key
          ≡ true
        → (s : String) → Resolvable s
        → (lower s == lower approved) ≡ true
    content_satisfies_sound n h s k = by_expected _ s refl n h k
