-- ===== src/Candidates.antt =====
-- modelark/candidates.py: the immutable records of the planner. Files are kept by their names, and
-- the hash of a requirement set, which nothing here reads, is left out.
use modelark.Prelude.{ℕ, String, Option, Bool, List, ◌==◌, ◌&&◌}

pub data RequirementKind : Type 0 where
  primary protected_home protected_replica : RequirementKind

pub data TaskKind : Type 0 where
  fetch replicate : TaskKind

pub record DriveFact : Type 0 where
  pub drive_label : String
  pub role : String
  pub raid_backed : Bool
  pub capacity_bytes : ℕ
  pub filesystem_capacity_bytes : Option ℕ
  pub identity_epoch : ℕ
  pub fs_uuid : Option String
  pub annex_uuid : Option String
  pub serial : Option String
  pub lifecycle : String
  pub eligibility : String

pub record CopyRequirement : Type 0 where
  pub requirement_id : String
  pub repo_id : String
  pub kind : RequirementKind
  pub eligible_drives : List String
  pub independent_of : Option String

pub record SourceIdentity : Type 0 where
  pub drive_label : String
  pub annex_key : Option String
  pub orig_sha256 : Option String

-- SourceIdentity | PendingHome | None
pub data Source : Type 0 where
  source : SourceIdentity → Source
  pending_home : String → Source
  no_source : Source

-- CandidateBudget, without the budgets of single files
pub record CandidateBudget : Type 0 where
  pub guaranteed_durable : ℕ
  pub expected_durable : ℕ
  pub workspace_peak_guaranteed : ℕ
  pub workspace_peak_expected : ℕ
  pub evidence : String

pub record Candidate : Type 0 where
  pub requirement_id : String
  pub task_kind : TaskKind
  pub target_drive : String
  pub source : Source
  pub depends_on_requirement : Option String
  pub reused_files : List String
  pub missing_files : List String
  pub budget : CandidateBudget
  pub transfer_bytes : ℕ

-- SatisfiedCopy: the drive that holds a complete copy
pub record Satisfaction : Type 0 where
  pub requirement_id : String
  pub copies : List String

pub record DriftRow : Type 0 where
  pub requirement_id : String
  pub drive_label : String
  pub rfilename : String
  pub reason : String

pub record BlockedRequirement : Type 0 where
  pub requirement_id : String
  pub reason : String

pub record CandidateSet : Type 0 where
  pub satisfied : List Satisfaction
  pub by_requirement : List (String × List Candidate)
  pub drift : List DriftRow
  pub blocked : List BlockedRequirement

-- _is_placeable
unfoldable pub is_placeable : DriveFact → Bool
is_placeable d = (d.lifecycle == "active") && (d.eligibility == "enabled")

-- _is_satisfying
unfoldable pub is_satisfying : DriveFact → Bool
is_satisfying d = d.lifecycle == "active"
