-- ===== src/Planner/Copies.antt =====
-- The proof of an archived file in modelark/candidates.py with the digests of modelark/archive_hash.py:
-- content_satisfies of the planner is that of Digest.
use modelark.Prelude.{
  ◌≡◌, refl, subst, ℕ, String, Option, none, some, Bool, true, false, List, ◌==◌, Memᴰ, all,
  Bool-cases, inl, inr, opt_eq_ℕ, arith, all-at, ap, eqb_iff,
}
use modelark.Candidates.{CandidateBudget, Source}
use modelark.Digest.{content_satisfies}
use modelark.Digest.Agreement.{Resolvable, content_satisfies_sound}
use modelark.Planner.{ManifestFile, ArchivedFileFact, PlannerInput}
use modelark.Planner.Generate.{proof, is_proven, row_of, manifest_of, holds_all}

same_size : (o : Option ℕ) (n : ℕ) → opt_eq_ℕ o (some n) ≡ true → o ≡ some n
same_size none n h = cc
same_size (some m) n h = ap some (ground (arith, h, eqb_iff m n))

module _ (strip lower : String → String) (is_hex64 : String → Bool)
    (annex_digest : String → Option String) where
  -- the call of content_satisfies in _proof
  abbrev pub digests_satisfy : ManifestFile → ArchivedFileFact → Bool
  digests_satisfy mf row =
      content_satisfies strip lower is_hex64 annex_digest mf.sha256 row.orig_sha256
        (some row.compressed) row.annex_key

  module _ (fetch_budget : List ManifestFile → CandidateBudget)
      (replica_budget : String → Source → List ManifestFile → CandidateBudget)
      (inp : PlannerInput) where
    proven-row :
        (mf : ManifestFile) (o : Option ArchivedFileFact)
        → is_proven (proof digests_satisfy fetch_budget replica_budget inp mf o) ≡ true
        → (row : ArchivedFileFact) × (o ≡ some row)
          × (row.orig_bytes ≡ some mf.size_bytes)
          × (digests_satisfy mf row ≡ true)
    proven-row mf none h = cc
    proven-row mf (some row) h = elim (Bool-cases (opt_eq_ℕ row.orig_bytes (some mf.size_bytes))) [
      | inr e ↦ let g = rw e at h in cc
      | inl e ↦ elim (Bool-cases (digests_satisfy mf row)) [
        | inr k ↦ let g = rw (e, k) at h in cc
        | inl k ↦ (row, refl, same_size row.orig_bytes mf.size_bytes e, k)
      ]
    ]

    -- Where a drive holds all of a repository, as a source of replicas does, each file of the manifest
    -- with an approved digest has a row on that drive of the size in the manifest, and every digest
    -- that the row resolves to is the approved one, up to the case of letters.
    pub holds_all-approved :
        (repo lab : String) (mf : ManifestFile) (approved : String)
        → holds_all digests_satisfy fetch_budget replica_budget inp repo lab ≡ true
        → Memᴰ mf (manifest_of inp repo)
        → mf.sha256 ≡ some approved
        → (approved == "") ≡ false
        → (row : ArchivedFileFact) × (row_of inp repo lab mf.rfilename ≡ some row)
          × (row.orig_bytes ≡ some mf.size_bytes)
          × ((s : String)
              → Resolvable strip lower is_hex64 annex_digest approved row.orig_sha256 row.compressed
                  row.annex_key s
              → (lower s == lower approved) ≡ true)
    holds_all-approved repo lab mf approved h m e n =
        let every : all
              (λ f. is_proven (
                proof digests_satisfy fetch_budget replica_budget inp f
                  (row_of inp repo lab f.rfilename)))
              (manifest_of inp repo)
            ≡ true =
          ground (arith, h) in
        let (row, k, size, g) = proven-row mf _ (all-at _ (manifest_of inp repo) mf every m) in
        (
          row,
          k,
          size,
          content_satisfies_sound strip lower is_hex64 annex_digest approved row.orig_sha256
              row.compressed row.annex_key n
              (subst
                (λ q.
                  content_satisfies strip lower is_hex64 annex_digest q row.orig_sha256
                    (some row.compressed) row.annex_key
                  ≡ true)
                e g),
        )
