-- ===== src/Budgets/Bounds.antt =====
-- The budgets of modelark/budgets.py and the caps of modelark/compress.py: what room they leave.
use modelark.Prelude.{
  ℕ, ◌+◌, ◌/◌, ◌≤◌, ◌≡◌, refl, true, false, List, ◌∷◌, ◌++◌, arith, ◌≢◌, none, sum_by-append,
  max_by-append, ◌==◌, Bool,
}
use modelark.Budgets.{
  Codec, whole, stream, zstd, raw, BudgetItem, CompressionConfig, FileBudget, zstd_output_cap,
  codec_output_cap, magic_length, default_chunk, plan_codec, download_budget, file_budget,
  aggregate, is_raw,
}

-- the cap of a shard of this size in the chunks that the program writes
abbrev pub cap_of : Codec → ℕ → ℕ
cap_of codec size = codec_output_cap magic_length default_chunk size codec

-- What the cap of a codec promises of two sizes, the second not below the first.
pub record CapBounds (codec : Codec) (size larger : ℕ) : Type 0 where
  pub holds_input : size ≤ cap_of codec size
  pub monotone : cap_of codec size ≤ cap_of codec larger
  pub overhead : cap_of codec size ≤ size + size / 256 + 64

-- A codec that writes an output never gets a cap below the size of its input; the cap grows with the
-- size; and it is above the size by at most a 256th of it and 64 bytes.
pub codec_output_cap-CapBounds :
    (codec : Codec) (size larger : ℕ) → codec ≢ raw → size ≤ larger → CapBounds codec size larger
unfolding codec_output_cap zstd_output_cap
codec_output_cap-CapBounds whole size larger n h = record {
  holds_input = omega arith;
  monotone = omega arith;
  overhead = omega arith;
}
codec_output_cap-CapBounds stream size larger n h = record {
  holds_input = omega arith;
  monotone = omega arith;
  overhead = omega arith;
}
codec_output_cap-CapBounds zstd size larger n h = record {
  holds_input = ground arith;
  monotone = ground arith;
  overhead = ground arith;
}
codec_output_cap-CapBounds raw size larger n h = absurd (n refl)

module _ (estimate : BudgetItem → ℕ) (fits_ram : ℕ → CompressionConfig → Bool) (has_zstd : Bool)
    (item : BudgetItem) (cfg : CompressionConfig) where
  abbrev pub codec_of : Codec
  codec_of = plan_codec estimate fits_ram has_zstd item.size_bytes cfg

  abbrev pub download : FileBudget
  download = file_budget estimate fits_ram has_zstd item cfg none false

  -- In both modes the durable bytes and the workspace of a file that is downloaded to be compressed
  -- hold the raw file and the largest output of its codec side by side.
  pub download_room :
      (item.storage_action == "compress") ≡ true
      → is_raw estimate fits_ram has_zstd codec_of ≡ false
      → (item.size_bytes + cap_of codec_of item.size_bytes
          ≤ download.guaranteed_durable + download.workspace_peak_guaranteed)
        × (item.size_bytes + cap_of codec_of item.size_bytes
            ≤ download.expected_durable + download.workspace_peak_expected)
  unfolding file_budget download_budget
  download_room h k = rw (h, k) (omega arith, omega arith)

-- While the files of a list are written one after another, the durable bytes of those that are done
-- and of the one at hand, and the workspace of that one, stay within the budget of the whole list, in
-- both modes.
pub aggregate_sequential :
    (done : List FileBudget) (b : FileBudget) (rest : List FileBudget)
    → let whole_budget = aggregate (done ++ b ∷ rest) in
      ((aggregate done).guaranteed_durable + b.guaranteed_durable + b.workspace_peak_guaranteed
        ≤ whole_budget.guaranteed_durable + whole_budget.workspace_peak_guaranteed)
      × ((aggregate done).expected_durable + b.expected_durable + b.workspace_peak_expected
          ≤ whole_budget.expected_durable + whole_budget.workspace_peak_expected)
unfolding aggregate
aggregate_sequential done b rest = (
  omega (
    arith,
    sum_by-append (λ x. x.guaranteed_durable) done (b ∷ rest),
    max_by-append (λ x. x.workspace_peak_guaranteed) done (b ∷ rest),
  ),
  omega (
    arith,
    sum_by-append (λ x. x.expected_durable) done (b ∷ rest),
    max_by-append (λ x. x.workspace_peak_expected) done (b ∷ rest),
  ),
)
