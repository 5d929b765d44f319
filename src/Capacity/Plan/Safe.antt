-- ===== src/Capacity/Plan/Safe.antt =====
-- The ledgers of a plan of modelark/capacity.py, and plan_capacity from evidence to tasks.
use modelark.Prelude.{
  ℕ, ◌+◌, ◌≤◌, ◌≡◌, refl, sym, ◌∙◌, ap, String, List, All, All-map, All-weaken, arith, map, sum_by,
  max_by, ◌==◌, if◌then◌else◌,
}
use modelark.Prelude.Dict.{Dict, count_at}
use modelark.Prelude.Sort.{Distinct, sort}
use modelark.Prelude.Fold.{
  fold_by, fold_by-sort, fold_by-map, fold_by_cong, IsFold, sum-IsFold, max-IsFold, sum_by-select,
  max_by-select, sum_by-map, max_by-map,
}
use modelark.Placement.{SolverInput, AssignmentTask, CanonicalAssignment}
use modelark.Placement.Assignment.Packed.{TasksFit, tasks_on}
use modelark.Capacity.{
  CapacityMode, guaranteed, compression_aware, CapacityDrive, usable_now, AssignedTask, TaskBudget,
  durable_for, workspace_for, budgets_on, DriveLedger, ledger_of, ledgers, required_peak,
}
use modelark.Capacity.Failures.{labels_of}
use modelark.Capacity.Tasks.{project_task, projected_tasks, task_before}
use modelark.Capacity.Plan.Spaces.{usable_at, usable_at_self}
use modelark.Capacity.Plan.Priced.{Priced}

-- The ledger shows no more than the drive offers.
abbrev pub Covered : CapacityMode → DriveLedger → Type 0
Covered mode l = required_peak mode l ≤ l.usable_now

module _ (mode : CapacityMode) (inp : SolverInput) where
  abbrev project : AssignmentTask → AssignedTask
  project = project_task inp.candidates.by_requirement

  -- What the tasks of a plan weigh on a drive, the tasks of the assignment do.
  fold_by-projected :
      {op : ℕ → ℕ → ℕ} (laws : IsFold op) (f : TaskBudget → ℕ) (g : AssignmentTask → ℕ)
      (lab : String)
      → (ts : List AssignmentTask) → All (λ t. f (project t).budget ≡ g t) ts
      → fold_by op
          (λ t. if t.target_drive == lab then f t.budget else 0)
          (sort task_before (map project ts))
        ≡ fold_by op (λ t. if t.target_drive == lab then g t else 0) ts
  unfolding project_task
  fold_by-projected {op} laws f g lab ts h =
      fold_by-sort laws task_before _ (map project ts)
      ∙ fold_by-map project op _ ts
      ∙ fold_by_cong op _ _ ts
          (All-weaken _ _ ts (λ t e. ap (λ n. if t.target_drive == lab then n else 0) e) h)

  module _ (a : CanonicalAssignment) (priced : All (Priced mode inp) a.tasks) (lab : String) where
    abbrev tasks : List AssignedTask
    tasks = projected_tasks inp.candidates.by_requirement a

    durable_total :
        sum_by (durable_for mode) (budgets_on lab tasks)
        ≡ sum_by (λ t. t.durable) (tasks_on lab a.tasks)
    unfolding projected_tasks
    durable_total =
        sum_by-map (λ t. t.budget) (durable_for mode) _
        ∙ sum_by-select (λ t. durable_for mode t.budget) (λ t. t.target_drive == lab) tasks
        ∙ fold_by-projected sum-IsFold (durable_for mode) (λ t. t.durable) lab a.tasks
            (All-weaken _ _ a.tasks (λ t p. p.durable) priced)
        ∙ sym (sum_by-select (λ t. t.durable) (λ t. t.target_drive == lab) a.tasks)

    workspace_total :
        max_by (workspace_for mode) (budgets_on lab tasks)
        ≡ max_by (λ t. t.workspace) (tasks_on lab a.tasks)
    unfolding projected_tasks
    workspace_total =
        max_by-map (λ t. t.budget) (workspace_for mode) _
        ∙ max_by-select (λ t. workspace_for mode t.budget) (λ t. t.target_drive == lab) tasks
        ∙ fold_by-projected max-IsFold (workspace_for mode) (λ t. t.workspace) lab a.tasks
            (All-weaken _ _ a.tasks (λ t p. p.workspace) priced)
        ∙ sym (max_by-select (λ t. t.workspace) (λ t. t.target_drive == lab) a.tasks)

required_peak-ledger :
    (mode : CapacityMode) (ts : List AssignedTask) (d : CapacityDrive)
    → required_peak mode (ledger_of ts d)
      ≡ sum_by (durable_for mode) (budgets_on d.drive_label ts)
        + max_by (workspace_for mode) (budgets_on d.drive_label ts)
unfolding ledger_of
required_peak-ledger guaranteed ts d = refl
required_peak-ledger compression_aware ts d = refl

usable_now-ledger :
    (ts : List AssignedTask) (d : CapacityDrive) → (ledger_of ts d).usable_now ≡ usable_now d
unfolding ledger_of
usable_now-ledger ts d = refl

-- Every drive has the room that the tasks of a packed assignment need on it.
pub ledgers-Covered :
    (mode : CapacityMode) (inp : SolverInput) (free : Dict ℕ) (drives : List CapacityDrive)
    (a : CanonicalAssignment)
    → Distinct (labels_of drives)
    → ((lab : String) → count_at lab free ≤ usable_at lab drives)
    → TasksFit free a
    → All (Priced mode inp) a.tasks
    → All (Covered mode) (ledgers drives (projected_tasks inp.candidates.by_requirement a))
unfolding ledgers
ledgers-Covered mode inp free drives a d le fit priced = All-map (Covered mode) _ drives (
    All-weaken _ _ drives
      (λ x e. omega (
        arith,
        e,
        le x.drive_label,
        fit x.drive_label,
        durable_total mode inp a priced x.drive_label,
        workspace_total mode inp a priced x.drive_label,
        required_peak-ledger mode (projected_tasks inp.candidates.by_requirement a) x,
        usable_now-ledger (projected_tasks inp.candidates.by_requirement a) x,
      ))
      (usable_at_self drives d))
