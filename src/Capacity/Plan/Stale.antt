-- ===== src/Capacity/Plan/Stale.antt =====
-- A plan of modelark/capacity.py whose drives have changed since its candidates were captured.
use modelark.Prelude.{
  ℕ, ◌≡◌, refl, String, Option, some, Bool, true, false, not, List, [], ◌∷◌, All, any, arith,
  Bool-cases, inl, inr,
}
use modelark.Prelude.Dict.{Dict}
use modelark.Evidence.{Evidence}
use modelark.Candidates.{Candidate, DriveFact}
use modelark.Placement.{SolverInput, SolverBounds, SuccessorPreference}
use modelark.Placement.Partial.{KeyPart}
use modelark.Capacity.{
  CapacityMode, CapacityDrive, CapacityFailure, DriveRow, target_drive_changed, inspect_drives,
}
use modelark.Capacity.Failures.{
  Diagnostics, all_usable, stale_target_failures, stale_failure, is_nil,
}
use modelark.Capacity.Plan.{
  ReconcileResult, CapacityPlan, placeable_labels, with_stale, no_tasks, plan_capacity,
  plan_feasible,
}

-- The plan has no task and is not feasible, and every failure says that a target has changed.
pub record Stale (p : CapacityPlan) : Type 0 where
  pub tasks : p.tasks ≡ []
  pub refused : plan_feasible p ≡ false
  pub reported : is_nil p.failures ≡ false
  pub codes : All (λ f. f.code ≡ target_drive_changed) p.failures

module _ (mode : CapacityMode) (placeable : List String) (drives : List CapacityDrive) where
  abbrev is_stale : List (String × List Candidate) → Bool
  is_stale rows = any (λ e. not (all_usable mode placeable drives e.1)) rows

  stale-codes :
      (rows : List (String × List Candidate))
      → All (λ f. f.code ≡ target_drive_changed) (stale_target_failures mode placeable drives rows)
  unfolding stale_target_failures stale_failure
  stale-codes [] = tt
  stale-codes ((rid, cs) ∷ rows) = elim (Bool-cases (all_usable mode placeable drives cs)) [
    | inl e ↦ rw e (stale-codes rows)
    | inr e ↦ rw e (refl, stale-codes rows)
  ]

  stale-reported :
      (rows : List (String × List Candidate))
      → is_stale rows ≡ true
      → is_nil (stale_target_failures mode placeable drives rows) ≡ false
  unfolding stale_target_failures
  stale-reported [] h = cc
  stale-reported ((rid, cs) ∷ rows) h = elim (Bool-cases (all_usable mode placeable drives cs)) [
    | inl e ↦ rw e (stale-reported rows (ground arith))
    | inr e ↦ rw e refl
  ]

module _ (part_hash : KeyPart → ℕ) (diagnostics : SolverInput → Diagnostics) (mode : CapacityMode)
    (r : ReconcileResult) (drives : List CapacityDrive) (inp : SolverInput) where
  with_stale-Stale :
      (fs : List CapacityFailure)
      → is_nil fs ≡ false
      → All (λ f. f.code ≡ target_drive_changed) fs
      → (p : CapacityPlan) × (with_stale part_hash diagnostics mode r drives inp fs ≡ some p)
        × Stale p
  unfolding with_stale no_tasks plan_feasible
  with_stale-Stale [] h cs = cc
  with_stale-Stale (f ∷ fs) h cs =
      (_, refl, record { tasks = refl; refused = refl; reported = refl; codes = cs })

-- Where a candidate of any requirement has a target that is not a member of the plan, or is no longer
-- active and enabled, plan_capacity returns a plan without tasks that is not feasible, whatever other
-- targets the requirement has, and reports TARGET_DRIVE_CHANGED only.
pub plan_capacity-Stale :
    (part_hash : KeyPart → ℕ) (diagnostics : SolverInput → Diagnostics)
    (safety_floor : ℕ → Bool → ℕ) (bounds : SolverBounds) (pref : Option SuccessorPreference)
    (mode : CapacityMode) (r : ReconcileResult) (evidence : Dict Evidence) (rows : List DriveRow)
    (facts : List DriveFact)
    → is_stale mode
        (placeable_labels facts)
        (inspect_drives safety_floor evidence rows)
        r.candidates.by_requirement
      ≡ true
    → (p : CapacityPlan) × (plan_capacity part_hash diagnostics safety_floor bounds pref mode r
          evidence rows facts
        ≡ some p)
      × Stale p
unfolding plan_capacity
plan_capacity-Stale part_hash diagnostics safety_floor bounds pref mode r evidence rows facts h =
    with_stale-Stale part_hash diagnostics mode r _ _ _ (stale-reported mode _ _ _ h)
      (stale-codes mode _ _ _)
