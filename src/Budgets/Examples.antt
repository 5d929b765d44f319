-- ===== src/Budgets/Examples.antt =====
-- Budgets of modelark/budgets.py for a shard of one mebibyte, and what the theorems say of them.
use modelark.Prelude.{ℕ, ◌+◌, ◌≤◌, ◌≡◌, refl, Bool, true, false, [], ◌∷◌, ◌++◌, arith, ltb}
use modelark.Budgets.{
  Codec, stream, raw, BudgetItem, CompressionConfig, FileBudget, file_budget, plan_codec, aggregate,
}
use modelark.Budgets.Bounds.{
  CapBounds, codec_output_cap-CapBounds, cap_of, codec_of, download, download_room,
  aggregate_sequential,
}

codec_output_cap-CapBounds_example : CapBounds stream 1000000 2000000
codec_output_cap-CapBounds_example =
    codec_output_cap-CapBounds stream 1000000 2000000 (λ h. cc) (omega arith)

abbrev shard : BudgetItem
shard = record {
  rfilename = "model.safetensors";
  size_bytes = 1048576;
  storage_action = "compress";
}

abbrev config : CompressionConfig
config = record { max_compress_ram_gb = 0; stream_compress = true }

abbrev estimated : BudgetItem → ℕ
estimated item = 758804

abbrev in_ram : ℕ → CompressionConfig → Bool
in_ram size cfg = ltb size cfg.max_compress_ram_gb

-- the shard is streamed: five bytes of header and four for its chunk
streamed : cap_of (codec_of estimated in_ram false shard config) 1048576 ≡ 1048585
unfolding plan_codec modelark.Budgets.codec_output_cap
streamed = refl

download_room_example :
    (1048576 + cap_of (codec_of estimated in_ram false shard config) 1048576
      ≤ (download estimated in_ram false shard config).guaranteed_durable
        + (download estimated in_ram false shard config).workspace_peak_guaranteed)
    × (1048576 + cap_of (codec_of estimated in_ram false shard config) 1048576
        ≤ (download estimated in_ram false shard config).expected_durable
          + (download estimated in_ram false shard config).workspace_peak_expected)
unfolding plan_codec
download_room_example = download_room estimated in_ram false shard config refl refl

abbrev file : ℕ → ℕ → FileBudget
file durable workspace = record {
  rfilename = "part";
  guaranteed_durable = durable;
  expected_durable = durable;
  workspace_peak_guaranteed = workspace;
  workspace_peak_expected = workspace;
  evidence = "estimate";
}

aggregate_sequential_example :
    let whole_budget = aggregate ((file 10 3 ∷ []) ++ file 20 7 ∷ file 5 1 ∷ []) in
    ((aggregate (file 10 3 ∷ [])).guaranteed_durable + 20 + 7
      ≤ whole_budget.guaranteed_durable + whole_budget.workspace_peak_guaranteed)
    × ((aggregate (file 10 3 ∷ [])).expected_durable + 20 + 7
        ≤ whole_budget.expected_durable + whole_budget.workspace_peak_expected)
aggregate_sequential_example = aggregate_sequential (file 10 3 ∷ []) (file 20 7) (file 5 1 ∷ [])
