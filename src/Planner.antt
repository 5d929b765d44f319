-- ===== src/Planner.antt =====
-- modelark/candidates.py: the input of the planner, the tiers of drives (_satisfaction_pool) and the
-- requirements of a selection (requirements). The candidates are in Planner/Generate.
pub mod Generate
pub mod Targets
pub mod Copies
mod Examples
use modelark.Prelude.{
  ℕ, zero, suc, append, ltb, any, is_some, String, Option, none, some, Bool, true, false, not, ◌&&◌,
  ◌||◌, List, [], ◌∷◌, ◌++◌, ◌==◌, if◌then◌else◌, contains, map, get_or, select, all, text_lt,
  opt_eq_ℕ, opt_eq,
}
use modelark.Prelude.Dict.{Dict, get, put}
use modelark.Prelude.Sort.{sort, sort_texts}
use modelark.Candidates.{
  RequirementKind, primary, protected_home, protected_replica, TaskKind, fetch, replicate,
  DriveFact, CopyRequirement, SourceIdentity, Source, source, pending_home, no_source, Candidate,
  CandidateBudget, Satisfaction, DriftRow, BlockedRequirement, CandidateSet, is_placeable,
  is_satisfying,
}
use modelark.Placement.{drive_of, req_of, as_map}
use modelark.Placement.Search.{distinct}

-- ManifestFile: what the planner reads of it
pub record ManifestFile : Type 0 where
  pub rfilename : String
  pub size_bytes : ℕ
  pub sha256 : Option String

pub record ArchivedFileFact : Type 0 where
  pub repo_id : String
  pub drive_label : String
  pub rfilename : String
  pub orig_sha256 : Option String
  pub orig_bytes : Option ℕ
  pub stored_bytes : Option ℕ
  pub annex_key : Option String
  pub compressed : Bool

pub record PlannerInput : Type 0 where
  pub manifests : List (String × List ManifestFile)
  pub numcopies : List (String × ℕ)
  pub drives : List DriveFact
  pub archived : List ArchivedFileFact

abbrev pub test_drive : List DriveFact → (DriveFact → Bool) → String → Bool
test_drive drives p lab = elim (drive_of drives lab) [ none ↦ false | some d ↦ p d ]

-- sorted(by_label)
abbrev pub labels : List DriveFact → List String
labels drives = sort_texts (distinct (map (λ d. d.drive_label) drives))

-- the labels, in order, whose drive passes a test
abbrev pub drives_that : List DriveFact → (DriveFact → Bool) → List String
drives_that drives p = select (test_drive drives p) (labels drives)

abbrev capacity_of : List DriveFact → String → ℕ
capacity_of drives lab = elim (drive_of drives lab) [ none ↦ 0 | some d ↦ d.capacity_bytes ]

-- key=lambda label: (-capacity_bytes, label)
abbrev larger_first : List DriveFact → String → String → Bool
larger_first drives a b =
    if ltb (capacity_of drives b) (capacity_of drives a)
    then true
    else if ltb (capacity_of drives a) (capacity_of drives b)
    then false
    else text_lt a b

abbrev first_of : List String → List String
first_of [] = []
first_of (x ∷ xs) = x ∷ []

-- (sorted(labels, key=…)[0],), and () of no label
abbrev pub largest : List DriveFact → List String → List String
largest drives labs = first_of (sort (larger_first drives) labs)

abbrev pub is_raid : DriveFact → Bool
is_raid d = d.raid_backed

-- raids or the largest
abbrev pub home_tier : List DriveFact → List String → List String
home_tier drives labs = elim (select (test_drive drives is_raid) labs) [
  | [] ↦ largest drives labs
  | r ∷ rs ↦ r ∷ rs
]

-- _satisfaction_pool
unfoldable pub satisfaction_pool : CopyRequirement → List DriveFact → List String
satisfaction_pool req drives = elim req.kind [
  | primary ↦ drives_that drives (λ d. (d.role == "primary") && is_satisfying d)
  | protected_home ↦
      home_tier drives (drives_that drives (λ d. (d.role == "primary") && is_satisfying d))
  | protected_replica ↦ drives_that drives (λ d. (d.role == "replica") && is_satisfying d)
]

-- _accepted_complete_pool, sorted
unfoldable pub accepted_complete_pool : CopyRequirement → List DriveFact → List String
accepted_complete_pool req drives =
    sort_texts (distinct (satisfaction_pool req drives ++ req.eligible_drives))

-- int(numcopies.get(repo, 1) or 1)
abbrev copies_wanted : Option ℕ → ℕ
copies_wanted none = 1
copies_wanted (some zero) = 1
copies_wanted (some (suc n)) = suc n

abbrev pub placeable_primary : List DriveFact → List String
placeable_primary drives = drives_that drives (λ d. (d.role == "primary") && is_placeable d)

abbrev pub placeable_replica : List DriveFact → List String
placeable_replica drives = drives_that drives (λ d. (d.role == "replica") && is_placeable d)

-- what one repository adds to `desired`
unfoldable pub required : PlannerInput → String → List CopyRequirement
required inp repo =
    let home_id = append "protected_home:" repo in
    if ltb (copies_wanted (get repo (as_map inp.numcopies))) 2
    then record {
      requirement_id = append "primary:" repo;
      repo_id = repo;
      kind = primary;
      eligible_drives = placeable_primary inp.drives;
      independent_of = none;
    }
      ∷ []
    else record {
      requirement_id = home_id;
      repo_id = repo;
      kind = protected_home;
      eligible_drives = home_tier inp.drives (placeable_primary inp.drives);
      independent_of = none;
    }
      ∷ record {
        requirement_id = append "protected_replica:" repo;
        repo_id = repo;
        kind = protected_replica;
        eligible_drives = placeable_replica inp.drives;
        independent_of = some home_id;
      }
      ∷ []

required_all : PlannerInput → List (String × List ManifestFile) → List CopyRequirement
required_all inp [] = []
required_all inp ((repo, manifest) ∷ rest) = required inp repo ++ required_all inp rest

-- requirements, without the hash of the set
unfoldable pub requirements : PlannerInput → List CopyRequirement
unfolding required_all
requirements inp =
    sort (λ a b. text_lt a.requirement_id b.requirement_id) (required_all inp inp.manifests)
