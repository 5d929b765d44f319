-- ===== src/Placement/Partial.antt =====
-- modelark/placement.py, class _Partial: the search node with its undo log, and the functions that
-- read it. `part_hash` is the built-in `hash` of a tuple of texts, as a 64-bit pattern; a parameter,
-- since Python does not document its values.
pub mod Ledger
use Prim.Native.Nat.{bit_xor}
use modelark.Prelude.{
  ℕ, ◌+◌, ◌-◌, max, leb, eqb, String, Option, none, some, Bool, true, false, not, List, [], ◌∷◌,
  ◌==◌, if◌then◌else◌, get_or, map,
}
use modelark.Prelude.Dict.{Dict, get, put, del, count_at, restore}
use modelark.Prelude.Sort.{sort_texts}
use modelark.Prelude.Int.{ℤ, sub_ℕ}
use modelark.Candidates.{
  RequirementKind, protected_replica, TaskKind, DriveFact, CopyRequirement, SourceIdentity, Source,
  source, pending_home, no_source, Candidate,
}
use modelark.Placement.{
  AssignmentTask, CanonicalAssignment, cand_durable, cand_workspace, same_failure_domain,
}

-- one entry of `_undo`
pub record Undo : Type 0 where
  pub requirement_id : String
  pub drive : String
  pub old_durable : ℕ
  pub old_workspace : ℕ
  pub part_hash : ℕ
  pub moved : ℕ

pub record Partial : Type 0 where
  pub assigned : Dict Candidate
  pub durable_load : Dict ℕ
  pub workspace_peak : Dict ℕ
  pub free0 : Dict ℕ
  pub undo : List Undo
  pub state_hash : ℕ
  pub movement : ℕ
  pub used_drives : Dict ℕ

-- _source_key; None stands for an absent part of the tuple
pub data SourceKey : Type 0 where
  source_key : String → Option String → Option String → SourceKey
  pending_key : String → SourceKey
  none_key : SourceKey

unfoldable pub key_of_source : Source → SourceKey
key_of_source (source s) = source_key s.drive_label s.annex_key s.orig_sha256
key_of_source (pending_home rid) = pending_key rid
key_of_source no_source = none_key

-- _Partial.__init__
unfoldable pub empty_partial : Dict ℕ → Partial
empty_partial free = record {
  assigned = [];
  durable_load = [];
  workspace_peak = [];
  free0 = free;
  undo = [];
  state_hash = 0;
  movement = 0;
  used_drives = [];
}

unfoldable pub fits : String → Partial → Candidate → Bool
fits mode p c =
    let new_d = count_at c.target_drive p.durable_load + cand_durable mode c in
    let new_w = max (count_at c.target_drive p.workspace_peak) (cand_workspace mode c) in
    leb (new_d + new_w) (count_at c.target_drive p.free0)

-- _src_key_for
src_key_for : Partial → Candidate → SourceKey
unfolding key_of_source
src_key_for p c = elim c.source [
  | source s ↦ source_key s.drive_label s.annex_key s.orig_sha256
  | pending_home rid ↦ elim (get rid p.assigned) [
    | some home ↦ source_key home.target_drive none none
    | none ↦ pending_key rid
  ]
  | no_source ↦ none_key
]

-- key_part: the tuple that is hashed
pub record KeyPart : Type 0 where
  pub requirement_id : String
  pub target_drive : String
  pub src : SourceKey
  pub task_kind : TaskKind

module _ (part_hash : KeyPart → ℕ) (mode : String) where
  unfoldable pub push : Partial → Candidate → Partial
  unfolding src_key_for
  push p c =
      let lab = c.target_drive in
      let old_d = count_at lab p.durable_load in
      let old_w = count_at lab p.workspace_peak in
      -- the assignment is made before the key is read, as in the source
      let assigned = put c.requirement_id c p.assigned in
      let h = part_hash (record {
        requirement_id = c.requirement_id;
        target_drive = lab;
        src = src_key_for (record p { assigned = assigned }) c;
        task_kind = c.task_kind;
      }) in
      record p {
        assigned = assigned;
        durable_load = put lab (old_d + cand_durable mode c) p.durable_load;
        workspace_peak = put lab (max old_w (cand_workspace mode c)) p.workspace_peak;
        undo =
            record {
              requirement_id = c.requirement_id;
              drive = lab;
              old_durable = old_d;
              old_workspace = old_w;
              part_hash = h;
              moved = c.transfer_bytes;
            }
            ∷ p.undo;
        state_hash = bit_xor p.state_hash h;
        movement = p.movement + c.transfer_bytes;
        used_drives = put lab (count_at lab p.used_drives + 1) p.used_drives;
      }

-- The undo log of a node that was pushed is not empty; Python raises IndexError otherwise.
unfoldable pub pop : Partial → Partial
pop p = elim p.undo [
  | [] ↦ p
  | u ∷ rest ↦
      let cnt = get_or (get u.drive p.used_drives) 1 - 1 in
      record p {
        assigned = del u.requirement_id p.assigned;
        durable_load = restore u.drive u.old_durable p.durable_load;
        workspace_peak = restore u.drive u.old_workspace p.workspace_peak;
        undo = rest;
        state_hash = bit_xor p.state_hash u.part_hash;
        movement = p.movement - u.moved;
        used_drives = restore u.drive cnt p.used_drives;
      }
]

-- _resolve_source
unfoldable pub resolve_source : Partial → Candidate → Option SourceIdentity
resolve_source p c = elim c.source [
  | source s ↦ some s
  | pending_home rid ↦ elim (get rid p.assigned) [
    | none ↦ none
    | some home ↦
        some (record { drive_label = home.target_drive; annex_key = none; orig_sha256 = none })
  ]
  | no_source ↦ none
]

-- the drive of the home that a replica copies from, as far as it is known
unfoldable pub home_drive : Dict Candidate → Candidate → Option String
home_drive assigned c = elim c.source [
  | source s ↦ some s.drive_label
  | pending_home rid ↦ elim (get rid assigned) [ none ↦ none | some home ↦ some home.target_drive ]
  | no_source ↦ none
]

abbrev pub is_replica_kind : RequirementKind → Bool
is_replica_kind protected_replica = true
is_replica_kind _ = false

abbrev pub is_replica : Option CopyRequirement → Bool
is_replica none = false
is_replica (some r) = is_replica_kind r.kind

abbrev pub separated : Option DriveFact → Option DriveFact → Bool
separated (some a) (some b) = not (same_failure_domain a b)
separated _ _ = true

-- _domain_ok, of the assignments of a node, with the lookups of its two maps as functions
unfoldable pub domain_ok :
    (String → Option DriveFact)
    → (String → Option CopyRequirement)
    → Dict Candidate
    → Candidate
    → Bool
unfolding home_drive
domain_ok drive req assigned c =
    if not (is_replica (req c.requirement_id)) then true else elim (home_drive assigned c) [
      | none ↦ true
      | some home ↦ separated (drive home) (drive c.target_drive)
    ]
