-- ===== src/Mutation/Examples.antt =====
-- A drive of modelark/drive_mutation.py that is written to once, and what the theorems say of it.
use modelark.Prelude.{
  ℕ, ◌≡◌, ◌+◌, refl, String, Option, none, some, Bool, true, false, [], ◌∷◌, arith,
}
use modelark.Prelude.Dict.{get, put}
use modelark.Prelude.Int.{ℤ, pos}
use modelark.Admission.{DriveFacts}
use modelark.Mutation.{
  Drive, DirtyRow, Store, Refusal, ok, Observation, drive_facts, next_generation, insert_dirty,
  anchor_at, advance_one, publish_anchor_locked, require_identity, insert_anchor,
}
use modelark.Mutation.Generations.{Bounded}
use modelark.Mutation.Bracket.{
  here, advance, publish, Reaches-Bounded, accepted, Reopened, publish_anchor-reopens,
}
use modelark.Mutation.Closes.{advance_one-closes}
use modelark.Mutation.Run.{Fences, Phase, mutation_labels, drive_mutation}
use modelark.Mutation.Outcome.{Settled, drive_mutation_settles}
use modelark.Mutation.Admits.{offline, advance-unadmitted, publish-Admitted, Admitted}

abbrev drive_at : ℕ → Drive
drive_at generation = record {
  identity_epoch = 1;
  write_generation = generation;
  fingerprint = some "fp";
  capacity = some 100;
  authority = "dedicated_local";
  fs_uuid = some "uuid";
  annex_uuid = none;
  serial = none;
}

abbrev fresh : Store
fresh = record { drives = ("a", drive_at 0) ∷ []; dirty = []; anchors = []; planner_revision = 0 }

abbrev written : DirtyRow
written = record {
  drive = "a";
  epoch = 1;
  generation = 1;
  operation_code = "fill";
  owner_session_id = none;
  owner_fencing_token = none;
}

abbrev begun : Store
begun = record {
  drives = ("a", drive_at 1) ∷ [];
  dirty = written ∷ [];
  anchors = [];
  planner_revision = 0;
}

abbrev observed : Observation
observed = record {
  identity_proven = true;
  free_bytes = some (pos 60);
  filesystem_capacity = some 100;
  fingerprint = some "fp";
  refusal_code = none;
}

abbrev closed : Store
closed = record begun {
  anchors =
      record {
        drive = "a";
        epoch = 1;
        generation = 1;
        free_bytes = some (pos 60);
        capacity = some 100;
        fingerprint = some "fp";
        authority = "dedicated_local";
      }
      ∷ [];
}

abbrev no_block : String → Bool → Option Refusal
no_block label change = none

abbrev proven : Drive → Bool
proven d = true

advanced : advance_one no_block fresh "a" "fill" none none none ≡ ok (begun, 1)
unfolding advance_one drive_facts next_generation insert_dirty get put
advanced = refl

anchored : publish_anchor_locked no_block begun "a" 1 1 observed ≡ ok closed
unfolding publish_anchor_locked drive_facts require_identity insert_anchor get
anchored = refl

fresh-Bounded : Bounded fresh
fresh-Bounded = record { dirty = tt; anchors = tt }

Reaches-Bounded_example : Bounded closed
Reaches-Bounded_example = Reaches-Bounded no_block fresh closed fresh-Bounded (
    publish fresh begun closed "a" 1 1 observed
      (advance fresh fresh begun "a" "fill" none none none 1 (here fresh) advanced) anchored)

advance_one-closes_example :
    (1 ≡ 0 + 1)
    × (get "a" begun.drives ≡ some (drive_at 1))
    × (anchor_at "a" 1 1 begun.anchors ≡ none)
    × ((again : String) (c : Option Drive) (sid : Option String) (tok : Option ℕ)
        → accepted (advance_one no_block begun "a" again c sid tok) ≡ false)
unfolding get anchor_at
advance_one-closes_example =
    advance_one-closes no_block fresh begun begun "a" "fill" none none none 1 (drive_at 0)
      fresh-Bounded refl advanced (here begun) refl

publish_anchor-reopens_example : Reopened closed "a" 1 1 observed
publish_anchor-reopens_example =
    publish_anchor-reopens no_block begun closed "a" 1 1 observed (omega arith) anchored

abbrev floor : ℕ → Bool → ℕ
floor capacity raid = 5

abbrev no_mismatch : DriveFacts → Option String → Bool
no_mismatch f o = false

advance-unadmitted_example :
    ((offline floor no_mismatch begun "a" false "now").executable ≡ false)
    × ((offline floor no_mismatch begun "a" false "now").admissible_free ≡ 0)
advance-unadmitted_example =
    advance-unadmitted floor no_mismatch no_block fresh begun "a" "fill" none none none 1
      fresh-Bounded advanced false "now"

publish-Admitted_example :
    (free : ℤ) × (some (pos 60) ≡ some free)
    × Admitted floor no_mismatch closed "a" false "now" free
publish-Admitted_example =
    publish-Admitted floor no_mismatch no_block begun closed "a" 1 1 observed anchored false "now"

abbrev no_session : String → ℕ → Option Refusal
no_session sid token = none

abbrev no_live : Phase → Bool
no_live phase = false

abbrev all_held : Fences
all_held = record { controller = true; drives = true }

abbrev idle_body : Store → Store × Bool
idle_body s = (s, false)

abbrev no_failure : String → Option Refusal
no_failure label = none

abbrev observe : String → Observation
observe label = observed

drive_mutation_settles_example :
    Settled no_block proven no_session no_live none none (mutation_labels ("a" ∷ "a" ∷ [])) (
      drive_mutation no_block proven no_session no_live none none fresh fresh fresh all_held observe
        observe no_failure idle_body "fill"
        ("a" ∷ "a" ∷ []))
drive_mutation_settles_example =
    drive_mutation_settles no_block proven no_session no_live none none idle_body (λ s k d. d)
      no_failure observe fresh fresh fresh all_held observe "fill" ("a" ∷ "a" ∷ []) fresh-Bounded
