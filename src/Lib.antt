-- ===== src/Lib.antt =====
-- A model of the planning core of ModelArk, which keeps copies of model repositories on archive
-- drives: which drive may be written to, which copies fit where, what the planner answers, and how the
-- catalog records a write to a drive.
--
-- The parts and how they interact. Evidence models modelark/capacity_evidence.py: from what is known
-- of a drive, `derive` gives a typed verdict and the bytes that may be planned. Admission models
-- modelark/admission.py, which fills the arguments of `derive` from the catalog row and from an
-- observation under the fence of the drive. Candidates holds the records of modelark/candidates.py, and
-- Planner its functions: which copies a selection requires, and which drives may take each of them.
-- Budgets models modelark/budgets.py and the output caps of modelark/compress.py: the bytes that a file
-- needs while it is written and afterwards. Placement models modelark/placement.py, which takes budgets
-- and candidates and assigns a candidate to every requirement:
--   Placement             the records, maps and budgets
--   Placement/Partial     class _Partial: the search node with push, pop and fits
--   Placement/Order       the orders of candidates, scores and requirements
--   Placement/Scored      _score, the score of an assignment
--   Placement/Search      the nested functions of _search and its loop
--   Placement/Assignment  _to_assignment, _materialize and the results of _search
--   Placement/Structural  _structural, the checks before the search
--   Placement/Gate        the ladder of gate_b, and improve
--   Placement/Examples    a plan that runs, and the theorems at that plan
-- Capacity models modelark/capacity.py, which makes the input of the solver from the evidence of the
-- drives and turns its answer into tasks, ledgers or failures:
--   Capacity              the drives, the budgets of tasks and the ledgers
--   Capacity/Preflight    preflight_file, the check of one file before it is written
--   Capacity/Failures     the failures of a plan without tasks
--   Capacity/Tasks        project_assigned_tasks and _batch_order
--   Capacity/Plan         _build_solver_input and plan_capacity
-- Mutation models modelark/drive_mutation.py over three tables of modelark/core/schema.sql: a write
-- marks its drives dirty before it, and publishes a clean anchor, which Admission reads, after it:
--   Mutation              one drive: _advance_one, _publish_anchor_locked and their tables
--   Mutation/Run          several drives: drive_mutation with its fences and transactions
--   Mutation/Admits       admission._facts, and what the tables admit
-- Session models modelark/execution_session.py: the session under which a plan is carried out, with
-- its fencing token; a command is one of its functions on one row of the catalog. Digest models
-- modelark/archive_hash.py: the digest that a stored copy is expected to have.
-- The modules below these hold their lemmas, and Examples their tests. Prelude and its children hold
-- lists, dicts as association lists, sorting, integers and folds.
--
-- Correspondence. Functions keep their names, without a leading underscore; exceptions and results
-- are options or, in Session and Mutation, replies with a refusal: of the search and of gate_b the outer
-- option is fuel, and the inner one is none where EmergencyResourceLimit is raised. The nonlocal
-- variables of _search are the fields of Node, and its stack keeps each frame in the order in which
-- candidates are tried. Where Python may compare None with a text, which raises TypeError, the search
-- has no result; an id without a colon and a repository without a manifest, IndexError and KeyError,
-- leave candidates or plan_capacity without one. Python's recursion limit, which a chain of about a
-- thousand dependencies meets in _structural, has no counterpart. The context manager drive_mutation takes its body as a function from the
-- catalog to the catalog and whether it raised.
--
-- Fuel. The loop of _search runs with `search_fuel`, a bound on the states that may be entered times
-- the widest frame; the depth-first search for cycles runs with the number of requirements and two.
-- That both are enough for every input is among the results.
--
-- The operation that session_write runs is a function of the rest of the catalog, which does not write
-- the table of sessions; `is_blank` is SQLite's trim. A command on a session is one step, although
-- claim_worker, heartbeat and terminalize read and write without a transaction around both.
--
-- Parameters: `part_hash` is the built-in hash of a tuple of texts; `emergency` is the monitor that
-- improve passes to the search; `safety_floor`, `is_legacy_serial_mismatch` and `lock_keys` are
-- functions of capacity.py, serial_identity.py and drive_identity.py that compute in floats or hash;
-- `fetch_budget` and `replica_budget` are the budgets of files of budgets.py, which round floats;
-- `estimate`, `fits_ram` and `has_zstd` are the expected size of a file, the test of the memory that a
-- codec peaks at, and whether zstandard is installed; `diagnostics` is what gate_b attaches to a
-- refusal. Of a drive mutation, `blocks` is the guard of a pending publication, `has_keys` whether the
-- keys of the fences can be computed, `session_check` the test of a live session token, `live` whether a session is live, and the fences,
-- observations and reconciliations are what the callbacks return. `strip`, `lower`, `is_hex64` and
-- `annex_digest` are methods of str and matches of patterns; `content_satisfies` in Planner is
-- archive_hash.content_satisfies, which Planner/Copies takes from Digest.
--
-- Not modelled: the SQL of the catalog, downloads, the compression itself, git-annex publication,
-- proposals, slice exports, the lifecycle of drives, the portal and the command line, which surround
-- these decisions with input and output; the legacy placement of capacity.py that plan_capacity does not
-- call; and diagnostics and messages.
pub mod Prelude
pub mod Evidence
pub mod Admission
pub mod Candidates
pub mod Session
pub mod Budgets
pub mod Mutation
pub mod Digest
pub mod Capacity
pub mod Planner
pub mod Placement
