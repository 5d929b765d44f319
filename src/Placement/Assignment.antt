-- ===== src/Placement/Assignment.antt =====
-- modelark/placement.py: _to_assignment, _materialize and the results of _search.
pub mod Total
pub mod Keyed
pub mod Packed
pub mod Covers
pub mod Listed
pub mod Solution
use modelark.Prelude.{
  ℕ, suc, ◌+◌, ◌*◌, String, Option, none, some, Bool, true, false, List, [], ◌∷◌, is_some, length,
  map, max_by, if◌then◌else◌,
}
use modelark.Prelude.Dict.{Dict, count_at, get, keys}
use modelark.Prelude.Int.{ℤ, sub_ℕ}
use modelark.Prelude.Sort.{sort_texts}
use modelark.Candidates.{Candidate}
use modelark.Placement.{
  SolverInput, AssignmentTask, CanonicalAssignment, cand_durable, cand_workspace, cands_of,
}
use modelark.Placement.Partial.{Partial, KeyPart, empty_partial, push, resolve_source}
use modelark.Placement.Order.{Score, score_partial, is_comparable}
use modelark.Placement.Search.{
  Node, entered, skip, exhaust, raise, Status, unsat, expand, enter, loop, width,
}

unfoldable pub task_of : String → Partial → String → Candidate → AssignmentTask
task_of mode p rid c = record {
  requirement_id = rid;
  task_kind = c.task_kind;
  target_drive = c.target_drive;
  source = resolve_source p c;
  depends_on_requirement = c.depends_on_requirement;
  movement_cost = c.transfer_bytes;
  durable = cand_durable mode c;
  workspace = cand_workspace mode c;
  missing_files = c.missing_files;
  reused_files = c.reused_files;
  guaranteed_durable = c.budget.guaranteed_durable;
  expected_durable = c.budget.expected_durable;
  workspace_peak_guaranteed = c.budget.workspace_peak_guaranteed;
  workspace_peak_expected = c.budget.workspace_peak_expected;
  budget_evidence = c.budget.evidence;
}

-- for rid in rids: c = assigned[rid]; … (a key that is missing would raise KeyError)
unfoldable pub tasks_of : String → Partial → List String → List AssignmentTask
unfolding task_of
tasks_of mode p [] = []
tasks_of mode p (rid ∷ rids) =
    let rest = tasks_of mode p rids in
    elim (get rid p.assigned) [ none ↦ rest | some c ↦ task_of mode p rid c ∷ rest ]

pub remaining_at : Partial → String → String × ℤ
remaining_at p lab = (
  lab,
  sub_ℕ (count_at lab p.free0) (count_at lab p.durable_load + count_at lab p.workspace_peak),
)

-- _to_assignment
unfoldable pub to_assignment : String → Partial → CanonicalAssignment
unfolding tasks_of remaining_at
to_assignment mode p = record {
  tasks = tasks_of mode p (sort_texts (keys p.assigned));
  remaining_free = map (remaining_at p) (sort_texts (keys p.free0));
}

-- `kind` of the results of _search
pub data SearchKind : Type 0 where
  found bound_exhausted infeasible : SearchKind

pub record SearchResult : Type 0 where
  pub kind : SearchKind
  pub first : Option CanonicalAssignment
  pub visited : ℕ
  pub best : Option CanonicalAssignment
  pub best_score : Option Score

module _ (inp : SolverInput) (free0 : Dict ℕ) (part_hash : KeyPart → ℕ) where
  -- for rid in sorted(snap): tmp.push(snap[rid], mode)
  push_some : Partial → Option Candidate → Partial
  push_some p none = p
  push_some p (some c) = push part_hash inp.capacity_mode p c

  pub push_all : Partial → Dict Candidate → List String → Partial
  unfolding push_some
  push_all p snap [] = p
  push_all p snap (rid ∷ rids) = push_all (push_some p (get rid snap)) snap rids

  -- _materialize
  unfoldable pub materialize : Option (Dict Candidate) → Option CanonicalAssignment
  unfolding push_all
  materialize none = none
  materialize (some snap) = some (
      to_assignment inp.capacity_mode
        (push_all (empty_partial free0) snap (sort_texts (keys snap))))

  -- what `_search` returns after its loop
  unfoldable pub conclude : Node → SearchResult
  conclude n =
      let first = materialize n.first_snap in
      let best = materialize n.best_snap in
      if n.exhausted
      then record {
        kind = bound_exhausted;
        first = first;
        visited = n.visited;
        best = best;
        best_score = n.best_score;
      }
      else if is_some first
      then record {
        kind = found;
        first = first;
        visited = n.visited;
        best = best;
        best_score = n.best_score;
      }
      else record {
        kind = infeasible;
        first = none;
        visited = n.visited;
        best = none;
        best_score = none;
      }

  -- the node before the first `enter`
  unfoldable pub root : Node
  root = record {
    partial = empty_partial free0;
    stack = [];
    pushed = [];
    visited = 0;
    seen = [];
    exhausted = false;
    first_snap = none;
    best_snap = none;
    best_score = none;
  }

  module _ (state_limit : ℕ) (collect_all : Bool) (emergency : ℕ → Bool) where
    abbrev pub search_fuel : ℕ
    search_fuel = suc (state_limit * (width inp free0 + 2))

    -- the result when nothing is left to place; the score is that of the empty assignment
    unfoldable pub nothing_to_place : SearchResult
    nothing_to_place =
        let asn = to_assignment inp.capacity_mode (empty_partial free0) in
        record {
          kind = found;
          first = some asn;
          visited = 1;
          best = some asn;
          best_score = some (
              score_partial inp.capacity_mode inp.preference (empty_partial free0)
                (sort_texts (keys free0)));
        }

    abbrev conclude_loop : Option (Option Node) → Option (Option SearchResult)
    conclude_loop none = none
    conclude_loop (some none) = some none
    conclude_loop (some (some n)) = some (some (conclude n))

    after_root : Status × Node → Option (Option SearchResult)
    after_root (entered, n) = conclude_loop (
        loop inp free0 part_hash state_limit collect_all emergency search_fuel
          (record n { stack = expand inp free0 n.partial ∷ [] }))
    after_root (raise, n) = some none
    after_root (_, n) = some (
        some (record {
          kind = bound_exhausted;
          first = none;
          visited = n.visited;
          best = none;
          best_score = none;
        }))

    -- _search; `some none` is EmergencyResourceLimit, and `none` is fuel that ran out or a comparison
    -- of sources that may raise TypeError
    unfoldable pub search : Option (Option SearchResult)
    unfolding after_root
    search =
        if is_comparable inp
        then elim (unsat inp free0) [
          | [] ↦ some (some nothing_to_place)
          | rid ∷ rids ↦
              after_root (enter inp free0 part_hash state_limit collect_all emergency root)
        ]
        else none
