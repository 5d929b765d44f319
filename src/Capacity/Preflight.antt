-- ===== src/Capacity/Preflight.antt =====
-- modelark/capacity.py, preflight_file: the check of one file against the space that its drive offers
-- now, just before it is written.
use modelark.Prelude.{
  ℕ, ◌+◌, ◌-◌, ◌≤◌, ◌<◌, ◌≡◌, ◌↔◌, subst, refl, leb, String, Option, none, some, [], ◌∷◌,
  if◌then◌else◌, arith, Bool-cases, inl, inr,
}
use modelark.Budgets.{FileBudget}
use modelark.Capacity.{
  CapacityMode, guaranteed, compression_aware, CapacityDrive, usable_now, free_evidence,
  CapacityFailure, capacity_durable_short, capacity_workspace_short, drive_tier, actions_for,
  short_code,
}

-- FileBudget.durable_for and workspace_for
abbrev pub file_durable : CapacityMode → FileBudget → ℕ
file_durable guaranteed b = b.guaranteed_durable
file_durable compression_aware b = b.expected_durable

abbrev pub file_workspace : CapacityMode → FileBudget → ℕ
file_workspace guaranteed b = b.workspace_peak_guaranteed
file_workspace compression_aware b = b.workspace_peak_expected

module _ (d : CapacityDrive) (b : FileBudget) (mode : CapacityMode) (rid : Option String)
    (task_id : String) where
  -- the failure that preflight_file returns
  unfoldable pub preflight_failure : CapacityFailure
  preflight_failure =
      let required = file_durable mode b + file_workspace mode b in
      record {
        code = short_code (file_durable mode b) (usable_now d);
        capacity_mode = mode;
        requirement_id = rid;
        task_ids = task_id ∷ [];
        target_tier = some (drive_tier d);
        eligible_drives = d.drive_label ∷ [];
        required_bytes = required;
        available_bytes = usable_now d;
        safety_floor_bytes = d.safety_floor;
        workspace_bytes = file_workspace mode b;
        shortfall_bytes = required - usable_now d;
        evidence = free_evidence d;
        actions = actions_for d ("free_target_space" ∷ "add_eligible_drive" ∷ "replan" ∷ []);
        blocked_by_requirement = none;
        evidence_code = d.evidence.code;
      }

  unfoldable pub preflight_file : Option CapacityFailure
  unfolding preflight_failure
  preflight_file =
      if leb (file_durable mode b + file_workspace mode b) (usable_now d)
      then none
      else some preflight_failure

-- What a failure reports of a file that does not fit: the shortfall is what is missing and is not 0,
-- and the code tells whether the durable bytes alone are too many.
pub record Explains (d : CapacityDrive) (b : FileBudget) (mode : CapacityMode) (f : CapacityFailure)
    : Type 0 where
  pub shortfall :
      f.available_bytes + f.shortfall_bytes ≡ file_durable mode b + file_workspace mode b
  pub positive : 0 < f.shortfall_bytes
  pub durable : usable_now d < file_durable mode b → f.code ≡ capacity_durable_short
  pub workspace : file_durable mode b ≤ usable_now d → f.code ≡ capacity_workspace_short

module _ (d : CapacityDrive) (b : FileBudget) (mode : CapacityMode) (rid : Option String)
    (task_id : String) where
  failure-Explains :
      usable_now d < file_durable mode b + file_workspace mode b
      → Explains d b mode (preflight_failure d b mode rid task_id)
  unfolding preflight_failure
  failure-Explains h = record {
    shortfall = omega arith;
    positive = omega arith;
    durable = λ k. ground arith;
    workspace = λ k. ground arith;
  }

  -- preflight_file passes a file exactly when its durable bytes and its workspace fit together in the
  -- space that the evidence of the drive admits, and a failure reports what is missing, with the code
  -- of the durable bytes when they alone do not fit and that of the workspace otherwise.
  pub preflight_file_exact :
      ((preflight_file d b mode rid task_id ≡ none)
        ↔ (file_durable mode b + file_workspace mode b ≤ usable_now d))
      × ((f : CapacityFailure) → preflight_file d b mode rid task_id ≡ some f → Explains d b mode f)
  unfolding preflight_file
  preflight_file_exact =
      elim (Bool-cases (leb (file_durable mode b + file_workspace mode b) (usable_now d))) [
        | inl e ↦ rw e ((λ h. ground arith, λ h. refl), λ f h. cc)
        | inr e ↦ rw e (
          (λ h. cc, λ h. ground arith),
          λ f h.
              let g : preflight_failure d b mode rid task_id ≡ f = cc in
              subst (Explains d b mode) g (failure-Explains (ground arith)),
        )
      ]
