-- ===== src/Capacity/Plan/Sound.antt =====
-- plan_capacity of modelark/capacity.py: that it returns a plan, and what the plan promises.
use modelark.Prelude.{
  ℕ, ◌≡◌, refl, sym, ◌∙◌, ap, subst, String, Option, none, some, Bool, true, false, List, [], ◌∷◌,
  All, All-map, All-weaken, All-from, all, all-true, arith, map, contains, ◌||◌, ◌==◌, is_some, ◌≤◌,
}
use modelark.Prelude.Dict.{Dict, count_at}
use modelark.Prelude.Sort.{Distinct, sort_texts, contains-map-sort, All-sort}
use modelark.Evidence.{Evidence}
use modelark.Candidates.{DriveFact, Candidate}
use modelark.Placement.{
  SolverInput, SolverBounds, SuccessorPreference, AssignmentTask, CanonicalAssignment, unsatisfied,
}
use modelark.Placement.Partial.{KeyPart}
use modelark.Placement.Search.{unsat}
use modelark.Placement.Structural.{GateCode}
use modelark.Placement.Assignment.Solution.{Solves, SomeSolves}
use modelark.Placement.Gate.{never, free_map}
use modelark.Placement.Gate.Feasible.{gate_b_sound, is_feasible}
use modelark.Placement.Gate.Returns.{gate_b_returns}
use modelark.Placement.Gate.Improve.{improve-Solves}
use modelark.Capacity.{
  CapacityMode, guaranteed, compression_aware, value_of, CapacityDrive, DriveRow, inspected,
  inspect_drives, ledgers, CapacityFailure, ledger_of,
}
use modelark.Capacity.Failures.{Diagnostics, labels_of}
use modelark.Capacity.Tasks.{
  project_task, project_assigned_tasks, projected_tasks, task_before, names_repo,
}
use modelark.Capacity.Tasks.Batches.{has_manifest, batch_order_exact}
use modelark.Placement.Order.{is_comparable}
use modelark.Placement.Assignment.Listed.{Listed}
use modelark.Capacity.Plan.{
  ReconcileResult, CapacityPlan, build_solver_input, is_feasible_code, no_tasks, with_tasks,
  planned, improved, placed, with_stale, plan_capacity,
}
use modelark.Capacity.Plan.Spaces.{usable_at, free_map-usable}
use modelark.Capacity.Plan.Priced.{
  WellListed, WellListed-IdsMatch, listed-Priced, Known, cands_of-is_known, project_task-names_repo,
}
use modelark.Capacity.Plan.Safe.{Covered, ledgers-Covered}

-- What a plan promises of the requirements `pending`: no drive is planned beyond what it offers now;
-- a plan that is not FEASIBLE has no task, and one that is has a task for each of them.
pub record Sound (pending : List String) (p : CapacityPlan) : Type 0 where
  pub covered : All (Covered p.mode) p.ledgers
  pub idle : is_feasible_code p.gate_b_code ≡ false → p.tasks ≡ []
  pub serves :
      is_feasible_code p.gate_b_code ≡ true
      → All (λ rid. contains (map (λ t. t.requirement_id) p.tasks) rid ≡ true) pending

-- the requirements that are neither satisfied nor blocked, as _search sorts them
abbrev pub pending_of : SolverInput → List String
pending_of inp = sort_texts (unsatisfied inp)

-- A plan is returned, and it is sound.
abbrev pub SomeSound : List String → Option CapacityPlan → Type 0
SomeSound pending o = (p : CapacityPlan) × (o ≡ some p) × Sound pending p

no_task-Covered : (mode : CapacityMode) (d : CapacityDrive) → Covered mode (ledger_of [] d)
unfolding ledger_of
no_task-Covered guaranteed d = omega arith
no_task-Covered compression_aware d = omega arith

idle-Covered :
    (mode : CapacityMode) (drives : List CapacityDrive) → All (Covered mode) (ledgers drives [])
unfolding ledgers
idle-Covered mode drives =
    All-map (Covered mode) _ drives (All-from _ drives (λ d m. no_task-Covered mode d))

contains-project :
    (rows : Dict (List Candidate)) (ts : List AssignmentTask) (rid : String)
    → contains (map (λ t. t.requirement_id) (map (project_task rows) ts)) rid
      ≡ contains (map (λ t. t.requirement_id) ts) rid
unfolding project_task
contains-project rows [] rid = refl
contains-project rows (t ∷ ts) rid =
    ap (λ b. (t.requirement_id == rid) || b) (contains-project rows ts rid)

module _ (part_hash : KeyPart → ℕ) (diagnostics : SolverInput → Diagnostics) (mode : CapacityMode)
    (r : ReconcileResult) (drives : List CapacityDrive) (inp : SolverInput) where
  no_tasks-Sound :
      (code : GateCode) (fs : List CapacityFailure)
      → is_feasible_code code ≡ false
      → Sound (pending_of inp) (no_tasks part_hash diagnostics mode r drives inp code fs)
  unfolding no_tasks
  no_tasks-Sound code fs h = record {
    covered = idle-Covered mode drives;
    idle = λ _. refl;
    serves = λ k. cc;
  }

  module _ (same_candidates : r.candidates ≡ inp.candidates)
      (same_mode : inp.capacity_mode ≡ value_of mode) (distinct : Distinct (labels_of drives))
      (listed : WellListed mode inp.candidates) (known : Known r.manifests inp.candidates)
      (comparable : is_comparable inp ≡ true)
      (within : (lab : String) → count_at lab (free_map inp) ≤ usable_at lab drives) where
    planned-Sound :
        (a : CanonicalAssignment) (order : List String)
        → Solves inp (free_map inp) a
        → Sound (pending_of inp) (
            planned part_hash diagnostics mode r drives inp
              (projected_tasks inp.candidates.by_requirement a)
              order)
    unfolding projected_tasks unsat
    planned-Sound a order s = record {
      covered =
          ledgers-Covered mode inp (free_map inp) drives a distinct within s.0
            (All-weaken _ _ a.tasks (λ t. listed-Priced mode inp t same_mode listed) s.2);
      idle = λ k. cc;
      serves = λ _.
          All-weaken _ _ (pending_of inp)
            (λ rid h. contains-map-sort task_before _ rid _ ∙ contains-project _ a.tasks rid ∙ h)
            s.1;
    }

    -- No task of the assignment raises an exception.
    projected_tasks-names_repo :
        (a : CanonicalAssignment)
        → Listed inp a
        → All
            (λ u. (names_repo u ≡ true) × (has_manifest r.manifests u ≡ true))
            (projected_tasks inp.candidates.by_requirement a)
    unfolding projected_tasks
    projected_tasks-names_repo a l = All-sort task_before _ _ (
        All-map _ (project_task inp.candidates.by_requirement) a.tasks (
          All-weaken _ _ a.tasks
            (λ t q.
              project_task-names_repo mode inp r.manifests t
                (listed-Priced mode inp t same_mode listed q)
                (cands_of-is_known r.manifests inp known t.requirement_id q.1 q.4))
            l))

    project_assigned :
        (a : CanonicalAssignment)
        → all names_repo (projected_tasks inp.candidates.by_requirement a) ≡ true
        → project_assigned_tasks r.candidates.by_requirement a
          ≡ some (projected_tasks inp.candidates.by_requirement a)
    unfolding project_assigned_tasks
    project_assigned a named =
        ap (λ k. project_assigned_tasks k.by_requirement a) same_candidates
        ∙ rw (named, project_assigned_tasks) refl

    with_tasks-Sound :
        (a : CanonicalAssignment)
        → Solves inp (free_map inp) a
        → SomeSound (pending_of inp) (with_tasks part_hash diagnostics mode r drives inp a)
    unfolding with_tasks
    with_tasks-Sound a s =
        let tasks = projected_tasks inp.candidates.by_requirement a in
        let runs = projected_tasks-names_repo a s.2 in
        let named = all-true names_repo tasks (All-weaken _ _ tasks (λ u h. h.0) runs) in
        let (order, e, _, _) =
          batch_order_exact r.manifests tasks
            (all-true (has_manifest r.manifests) tasks (All-weaken _ _ tasks (λ u h. h.1) runs)) in
        rw (project_assigned a named, e) (_, refl, planned-Sound a order s)

    improved-Sound :
        (a : CanonicalAssignment)
        → Solves inp (free_map inp) a
        → SomeSound (pending_of inp) (improved part_hash diagnostics mode r drives inp a)
    unfolding improved
    improved-Sound a s =
        let (p, e, t) =
          improve-Solves part_hash (never part_hash) inp a comparable
            (WellListed-IdsMatch inp mode listed) s in
        rw (e, improved) (with_tasks-Sound p.assignment t)

    placed-Sound :
        (code : GateCode) (o : Option CanonicalAssignment)
        → is_some o ≡ is_feasible code
        → SomeSolves inp (free_map inp) o
        → SomeSound (pending_of inp) (placed part_hash diagnostics mode r drives inp code o)
    placed-Sound GateCode.feasible none e s = cc
    placed-Sound GateCode.feasible (some a) e s = improved-Sound a s
    placed-Sound GateCode.packing_inconclusive o e s = (_, refl, no_tasks-Sound _ _ refl)
    placed-Sound GateCode.infeasible_under_admission_budget o e s =
        (_, refl, no_tasks-Sound _ _ refl)
    placed-Sound GateCode.capacity_evidence_unknown o e s = (_, refl, no_tasks-Sound _ _ refl)
    placed-Sound GateCode.infeasible_with_unknown_at_usable_max o e s =
        (_, refl, no_tasks-Sound _ _ refl)
    placed-Sound GateCode.target_tier_missing o e s = (_, refl, no_tasks-Sound _ _ refl)
    placed-Sound GateCode.unproven_provenance o e s = (_, refl, no_tasks-Sound _ _ refl)
    placed-Sound GateCode.graph_dependency_invariant o e s = (_, refl, no_tasks-Sound _ _ refl)
    placed-Sound GateCode.failure_domain_unsatisfiable o e s = (_, refl, no_tasks-Sound _ _ refl)
    placed-Sound GateCode.requirement_exceeds_usable_max o e s = (_, refl, no_tasks-Sound _ _ refl)

    with_stale-Sound :
        (stale : List CapacityFailure)
        → SomeSound (pending_of inp) (with_stale part_hash diagnostics mode r drives inp stale)
    unfolding with_stale
    with_stale-Sound (f ∷ stale) = (_, refl, no_tasks-Sound _ _ refl)
    with_stale-Sound [] =
        let (g, e) = gate_b_returns part_hash inp comparable in
        let (same, s) = gate_b_sound part_hash inp g (WellListed-IdsMatch inp mode listed) e in
        rw (e, with_stale) (placed-Sound g.code g.assignment same s)

labels-inspected :
    (safety_floor : ℕ → Bool → ℕ) (evidence : Dict Evidence) (rows : List DriveRow)
    → labels_of (inspect_drives safety_floor evidence rows) ≡ map (λ d. d.drive_label) rows
unfolding inspect_drives inspected
labels-inspected safety_floor evidence [] = refl
labels-inspected safety_floor evidence (d ∷ rows) =
    ap (◌∷◌ d.drive_label) (labels-inspected safety_floor evidence rows)

-- For drives with distinct labels, candidates as modelark/candidates.py lists them, sources that can be
-- compared within each requirement, and ids that name repositories with a manifest, and short of
-- Python's recursion limit, plan_capacity returns a plan for every evidence, every set of limits and every preference. On every drive the
-- durable bytes of the tasks and their largest workspace stay together within the space that the
-- evidence of the drive admits now; a plan whose code is not FEASIBLE has no task; and one whose code
-- is FEASIBLE has a task for every requirement that is neither satisfied nor blocked.
pub plan_capacity_sound :
    (part_hash : KeyPart → ℕ) (diagnostics : SolverInput → Diagnostics)
    (safety_floor : ℕ → Bool → ℕ) (bounds : SolverBounds) (pref : Option SuccessorPreference)
    (mode : CapacityMode) (r : ReconcileResult) (evidence : Dict Evidence) (rows : List DriveRow)
    (facts : List DriveFact)
    → Distinct (map (λ d. d.drive_label) rows)
    → WellListed mode r.candidates
    → Known r.manifests r.candidates
    → is_comparable
        (build_solver_input bounds pref mode r (inspect_drives safety_floor evidence rows) facts)
      ≡ true
    → SomeSound
        (pending_of
          (build_solver_input bounds pref mode r (inspect_drives safety_floor evidence rows) facts))
        (plan_capacity part_hash diagnostics safety_floor bounds pref mode r evidence rows facts)
unfolding plan_capacity build_solver_input
plan_capacity_sound part_hash diagnostics safety_floor bounds pref mode r evidence rows facts d w k
      c =
    let drives = inspect_drives safety_floor evidence rows in
    let apart : Distinct (labels_of drives) =
      subst Distinct (sym (labels-inspected safety_floor evidence rows)) d in
    with_stale-Sound part_hash diagnostics mode r drives
      (build_solver_input bounds pref mode r drives facts) refl refl apart w k c
      (free_map-usable bounds pref mode r drives facts apart) _
