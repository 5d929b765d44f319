-- ===== src/Placement/Examples.antt =====
-- A plan of modelark/placement.py with a home copy and a replica on two drives, and what the theorems
-- say of it.
use modelark.Prelude.{
  ℕ, ◌+◌, ◌≡◌, refl, String, Option, none, some, Bool, true, false, List, [], ◌∷◌, ◌==◌,
  if◌then◌else◌, is_some, All, arith, eq_iff, ◌≤◌, is_none, leb, ◌&&◌, Bool-cases, inl, inr,
}
use modelark.Prelude.Int.{pos}
use modelark.Prelude.Dict.{Dict, get, put, count_at}
use modelark.Candidates.{
  RequirementKind, protected_home, protected_replica, TaskKind, fetch, replicate, DriveFact,
  CopyRequirement, Source, pending_home, no_source, Candidate,
}
use modelark.Placement.{SolverInput, CanonicalAssignment, DriveEvidenceFact, cands_of, as_map}
use modelark.Placement.Partial.{KeyPart, Partial, empty_partial, push, pop}
use modelark.Placement.Partial.Ledger.{empty_partial-Describes, pop-push}
use modelark.Placement.Search.Invariant.{IdsMatch}
use modelark.Placement.Assignment.{SearchResult, search}
use modelark.Placement.Assignment.Total.{search_returns}
use modelark.Placement.Assignment.Solution.{Solves, SomeSolves, search_solves, is_found}
use modelark.Placement.Structural.{structural, feasible}
use modelark.Placement.Structural.Total.{structural_total}
use modelark.Placement.Gate.{GateResult, PlacementResult, gate_b, improve, free_map}
use modelark.Placement.Gate.Feasible.{gate_b_sound, free_map_unproven, is_feasible}
use modelark.Placement.Order.{is_comparable, may_raise}
use modelark.Placement.Gate.Improve.{improve-Solves}

abbrev drive : String → String → DriveFact
drive label serial = record {
  drive_label = label;
  role = "protected";
  raid_backed = false;
  capacity_bytes = 100;
  filesystem_capacity_bytes = some 100;
  identity_epoch = 1;
  fs_uuid = none;
  annex_uuid = none;
  serial = some serial;
  lifecycle = "active";
  eligibility = "enabled";
}

abbrev need : String → RequirementKind → Option String → CopyRequirement
need rid kind home = record {
  requirement_id = rid;
  repo_id = "org/model";
  kind = kind;
  eligible_drives = "a" ∷ "b" ∷ [];
  independent_of = home;
}

abbrev offer : String → TaskKind → String → Source → Option String → Candidate
offer rid task target from home = record {
  requirement_id = rid;
  task_kind = task;
  target_drive = target;
  source = from;
  depends_on_requirement = home;
  reused_files = [];
  missing_files = "model.safetensors" ∷ [];
  budget = record {
    guaranteed_durable = 40;
    expected_durable = 30;
    workspace_peak_guaranteed = 10;
    workspace_peak_expected = 10;
    evidence = "hub";
  };
  transfer_bytes = 40;
}

abbrev evidence : String → Bool → DriveEvidenceFact
evidence label executable = record { drive_label = label; executable = executable }

abbrev home_a : Candidate
home_a = offer "home" fetch "a" no_source none

abbrev replica_b : Candidate
replica_b = offer "replica" replicate "b" (pending_home "home") (some "home")

-- Two drives, of which the second may have no proof.
abbrev plan : Bool → SolverInput
plan b_proven = record {
  desired = need "home" protected_home none ∷ need "replica" protected_replica (some "home") ∷ [];
  candidates = record {
    satisfied = [];
    by_requirement = ("home", home_a ∷ []) ∷ ("replica", replica_b ∷ []) ∷ [];
    drift = [];
    blocked = [];
  };
  drives = drive "a" "S1" ∷ drive "b" "S2" ∷ [];
  executable_budget = ("a", 60) ∷ ("b", 50) ∷ [];
  max_usable_for_epoch = ("a", some 90) ∷ ("b", some 90) ∷ [];
  drive_evidence = ("a", evidence "a" true) ∷ ("b", evidence "b" b_proven) ∷ [];
  capacity_mode = "guaranteed";
  bounds = record { feasibility_state_limit = 10; optimization_state_limit = 10 };
  preference = none;
}

abbrev hash : KeyPart → ℕ
hash k = if k.requirement_id == "home" then 1 else 2

-- The assignment that both searches end with.
abbrev placed : CanonicalAssignment
placed = record {
  tasks =
      record {
        requirement_id = "home";
        task_kind = fetch;
        target_drive = "a";
        source = none;
        depends_on_requirement = none;
        movement_cost = 40;
        durable = 40;
        workspace = 10;
        missing_files = "model.safetensors" ∷ [];
        reused_files = [];
        guaranteed_durable = 40;
        expected_durable = 30;
        workspace_peak_guaranteed = 10;
        workspace_peak_expected = 10;
        budget_evidence = "hub";
      }
      ∷ record {
        requirement_id = "replica";
        task_kind = replicate;
        target_drive = "b";
        source = some (record { drive_label = "a"; annex_key = none; orig_sha256 = none });
        depends_on_requirement = some "home";
        movement_cost = 40;
        durable = 40;
        workspace = 10;
        missing_files = "model.safetensors" ∷ [];
        reused_files = [];
        guaranteed_durable = 40;
        expected_durable = 30;
        workspace_peak_guaranteed = 10;
        workspace_peak_expected = 10;
        budget_evidence = "hub";
      }
      ∷ [];
  remaining_free = ("a", pos 10) ∷ ("b", pos 0) ∷ [];
}

abbrev answer : GateResult
answer = record {
  code = feasible;
  assignment = some placed;
  feasibility_states_visited = 3;
  relevant_unknown_drives = [];
}

gate_b_answers : gate_b hash (plan true) ≡ some (some answer)
unfolding gate_b structural modelark.Placement.Structural.sorted_reqs modelark.Prelude.Sort.sort
    modelark.Placement.blocked_of modelark.Placement.Structural.after_cycles
    modelark.Placement.Structural.visit modelark.Placement.Structural.waits_for
    modelark.Placement.req_of modelark.Placement.is_satisfied modelark.Placement.is_blocked cands_of
    get put modelark.Placement.drive_of modelark.Placement.same_failure_domain
    modelark.Placement.cand_peak modelark.Placement.cand_durable
    modelark.Placement.Assignment.conclude modelark.Placement.Assignment.materialize
    modelark.Placement.Assignment.nothing_to_place modelark.Placement.Assignment.root search
    modelark.Placement.Assignment.task_of modelark.Placement.Assignment.tasks_of
    modelark.Placement.Assignment.to_assignment free_map modelark.Placement.Order.compare_candidates
    modelark.Placement.Order.is_comparable modelark.Placement.Order.may_raise
    modelark.Placement.Order.compare_order modelark.Placement.Order.compare_score
    modelark.Placement.Order.score_partial modelark.Placement.Partial.domain_ok empty_partial
    modelark.Placement.Partial.fits modelark.Placement.Partial.home_drive
    modelark.Placement.Partial.key_of_source pop push modelark.Placement.Partial.resolve_source
    modelark.Placement.Search.admissible modelark.Placement.Search.backtrack
    modelark.Placement.Search.cand_target_list modelark.Placement.Search.descend
    modelark.Placement.Search.distinct modelark.Placement.Search.enter
    modelark.Placement.Search.expand modelark.Placement.Search.follow
    modelark.Placement.Search.go_on modelark.Placement.Search.is_complete
    modelark.Placement.Search.loop modelark.Placement.Search.order_key
    modelark.Placement.Search.ready modelark.Placement.Search.record_complete
    modelark.Placement.Search.sorted_cands modelark.Placement.Search.try_candidate
    modelark.Placement.Search.turn modelark.Placement.Search.unsat modelark.Placement.Search.width
    modelark.Placement.Structural.blocked_check modelark.Placement.Structural.cycle_check
    modelark.Placement.Structural.domain_check modelark.Placement.Structural.reference_check
    modelark.Placement.Structural.size_check as_map modelark.Placement.cand_workspace
    modelark.Placement.last_by modelark.Placement.put_all modelark.Placement.unsatisfied
    modelark.Prelude.Dict.del modelark.Prelude.Sort.insert modelark.Prelude.Sort.sort_texts
gate_b_answers = refl

ids : (proven : Bool) → IdsMatch (plan proven)
unfolding cands_of as_map get put
ids proven rid = elim (Bool-cases ("home" == rid)) [
  | inl e ↦ rw (e, cands_of, get) (ground (arith, eq_iff "home" rid), tt)
  | inr e ↦ elim (Bool-cases ("replica" == rid)) [
    | inl f ↦ rw (e, f, cands_of, get) (ground (arith, eq_iff "replica" rid), tt)
    | inr f ↦ rw (e, f, cands_of, get) tt
  ]
]

gate_b_sound_example :
    (true ≡ is_feasible feasible) × SomeSolves (plan true) (free_map (plan true)) (some placed)
gate_b_sound_example = gate_b_sound hash (plan true) answer (ids true) gate_b_answers

placed-Solves : Solves (plan true) (free_map (plan true)) placed
placed-Solves = gate_b_sound_example.1

plan_comparable : (proven : Bool) → is_comparable (plan proven) ≡ true
unfolding is_comparable may_raise cands_of as_map get put modelark.Placement.unsatisfied
    modelark.Placement.is_satisfied modelark.Placement.blocked_of modelark.Placement.is_blocked
plan_comparable true = refl
plan_comparable false = refl

-- The monitor fires at the second state, so the first feasible assignment is kept.
improve-Solves_example :
    (p : PlacementResult) × (improve hash (λ n. leb 2 n) (plan true) placed ≡ some p)
    × Solves (plan true) (free_map (plan true)) p.assignment
improve-Solves_example =
    improve-Solves hash (λ n. leb 2 n) (plan true) placed (plan_comparable true) (ids true)
      placed-Solves

free_map_unproven_example : count_at "b" (free_map (plan false)) ≡ 0
unfolding get as_map put
free_map_unproven_example = free_map_unproven (plan false) "b" (evidence "b" false) refl refl

abbrev first_result :
    (r : SearchResult) × (search (plan true) (free_map (plan true)) hash 10 true (λ n. false)
      ≡ some (some r))
first_result =
    search_returns (plan true) (free_map (plan true)) hash 10 true (λ n. false) (λ n. refl)
      (plan_comparable true)

search_solves_example :
    SomeSolves (plan true) (free_map (plan true)) first_result.0.first
    × SomeSolves (plan true) (free_map (plan true)) first_result.0.best
    × ((is_found first_result.0.kind && is_none first_result.0.first) ≡ false)
search_solves_example =
    search_solves (plan true) (free_map (plan true)) hash (ids true) 10 true (λ n. false)
      first_result.0 first_result.1

structural_total_example : is_some (structural (plan true)) ≡ true
structural_total_example = structural_total (plan true)

-- The home copy is pushed, taken back, and the node is as it was before.
pop-push_example :
    let p = empty_partial (("a", 60) ∷ []) in
    let q = pop (push hash "guaranteed" p home_a) in
    (q.assigned ≡ p.assigned)
    × (q.movement ≡ p.movement)
    × ((lab : String)
        → (count_at lab q.durable_load ≡ count_at lab p.durable_load)
          × (count_at lab q.workspace_peak ≡ count_at lab p.workspace_peak)
          × (count_at lab q.used_drives ≡ count_at lab p.used_drives))
unfolding empty_partial get
pop-push_example =
    pop-push hash "guaranteed" (empty_partial (("a", 60) ∷ [])) home_a [] refl
      (empty_partial-Describes "guaranteed" (("a", 60) ∷ []))
