-- ===== src/Budgets.antt =====
-- modelark/budgets.py and the output caps of modelark/compress.py. Parameters: `estimate` is
-- expected_durable_bytes, which rounds a product of floats; `fits_ram` is the test of plan_codec
-- that compares the peak of a shard, a float, with the configured memory; `has_zstd` is whether the
-- package zstandard is installed.
pub mod Bounds
mod Examples
use modelark.Prelude.{
  ℕ, not, ◌+◌, ◌-◌, ◌*◌, ◌/◌, ltb, eqb, String, Option, none, some, Bool, true, false, List, [],
  ◌∷◌, if◌then◌else◌, sum_by, max_by, max, ◌==◌,
}
use modelark.Candidates.{CandidateBudget}

pub record FileBudget : Type 0 where
  pub rfilename : String
  pub guaranteed_durable : ℕ
  pub expected_durable : ℕ
  pub workspace_peak_guaranteed : ℕ
  pub workspace_peak_expected : ℕ
  pub evidence : String

-- the CODEC_ constants
pub data Codec : Type 0 where
  whole stream zstd raw : Codec

pub record CompressionConfig : Type 0 where
  pub max_compress_ram_gb : ℕ
  pub stream_compress : Bool

-- archive_manifest.ManifestFile: what a budget reads of it
pub record BudgetItem : Type 0 where
  pub rfilename : String
  pub size_bytes : ℕ
  pub storage_action : String

-- zstd_output_cap
unfoldable pub zstd_output_cap : ℕ → ℕ
zstd_output_cap size =
    let low = if ltb size (128 * 1024) then (128 * 1024 - size) / 2048 else 0 in
    size + size / 256 + low

-- math.ceil(raw_size / stream_chunk_bytes) if raw_size else 0
abbrev pub chunk_count : ℕ → ℕ → ℕ
chunk_count size chunk = (size + (chunk - 1)) / chunk

-- codec_output_cap; `magic` is the length of streamznn.MAGIC
unfoldable pub codec_output_cap : ℕ → ℕ → ℕ → Codec → ℕ
unfolding zstd_output_cap
codec_output_cap magic chunk size raw = 0
codec_output_cap magic chunk size stream = size + magic + 4 * chunk_count size chunk
codec_output_cap magic chunk size zstd = zstd_output_cap size
codec_output_cap magic chunk size whole = size

-- len(streamznn.MAGIC) and streamznn.DEFAULT_CHUNK
abbrev pub magic_length : ℕ
magic_length = 5

abbrev pub default_chunk : ℕ
default_chunk = 67108864

module _ (estimate : BudgetItem → ℕ) (fits_ram : ℕ → CompressionConfig → Bool)
    (has_zstd : Bool) where
  unfoldable pub plan_codec : ℕ → CompressionConfig → Codec
  plan_codec size cfg =
      if fits_ram size cfg
      then whole
      else if cfg.stream_compress
      then stream
      else if has_zstd
      then zstd
      else raw

  abbrev is_raw : Codec → Bool
  is_raw raw = true
  is_raw _ = false

  -- every field the same
  abbrev uniform : String → ℕ → String → FileBudget
  uniform name value evidence = record {
    rfilename = name;
    guaranteed_durable = value;
    expected_durable = value;
    workspace_peak_guaranteed = value;
    workspace_peak_expected = value;
    evidence = evidence;
  }

  -- the branch of a download
  unfoldable pub download_budget : BudgetItem → CompressionConfig → FileBudget
  unfolding plan_codec
  download_budget item cfg =
      let expected = estimate item in
      let codec = plan_codec item.size_bytes cfg in
      let cap = codec_output_cap magic_length default_chunk item.size_bytes codec in
      let compresses = if item.storage_action == "compress" then not (is_raw codec) else false in
      record {
        rfilename = item.rfilename;
        guaranteed_durable = item.size_bytes;
        expected_durable = expected;
        workspace_peak_guaranteed = if compresses then cap else 0;
        workspace_peak_expected = if compresses then item.size_bytes + cap - expected else 0;
        evidence = "estimate";
      }

  unfoldable pub file_budget : BudgetItem → CompressionConfig → Option ℕ → Bool → FileBudget
  unfolding download_budget
  file_budget item cfg (some value) replica = uniform item.rfilename value "exact"
  file_budget item cfg none true = uniform item.rfilename (estimate item) "estimate"
  file_budget item cfg none false = download_budget item cfg

-- budget.file_budgets[0].evidence if budget.file_budgets else "estimate"
abbrev pub first_evidence : List FileBudget → String
first_evidence [] = "estimate"
first_evidence (b ∷ bs) = b.evidence

-- aggregate: the sums of the durable bytes and the largest workspaces
unfoldable pub aggregate : List FileBudget → CandidateBudget
aggregate bs = record {
  guaranteed_durable = sum_by (λ b. b.guaranteed_durable) bs;
  expected_durable = sum_by (λ b. b.expected_durable) bs;
  workspace_peak_guaranteed = max_by (λ b. b.workspace_peak_guaranteed) bs;
  workspace_peak_expected = max_by (λ b. b.workspace_peak_expected) bs;
  evidence = first_evidence bs;
}
