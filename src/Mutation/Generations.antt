-- ===== src/Mutation/Generations.antt =====
-- The generations of a drive in modelark/drive_mutation.py: dirty after an advance, clean after the
-- anchor of the same generation.
use modelark.Prelude.{
  ℕ, ◌+◌, ◌≤◌, ◌≡◌, refl, sym, ◌∙◌, ap, subst, String, Option, none, some, Bool, true, false, not,
  ◌&&◌, ◌∷◌, ◌==◌, All, arith, Bool-cases, Option-cases, inl, inr, eqb, eqb_iff, any, ◌||◌, is_none,
}
use modelark.Prelude.Dict.{Dict, get, put}
use modelark.Mutation.{
  Drive, DirtyRow, AnchorRow, Store, Refusal, Reply, refused, ok, bind, unless, require,
  Observation, anchor_is, dirty_is, generation_is_clean, drive_facts, insert_dirty, next_generation,
  as_captured, is_pair, require_identity, insert_anchor, advance_one, publish_anchor_locked,
  free_in_range,
}

-- A generation of a drive's current epoch is not above the one that the drive is at.
abbrev pub Within : Dict Drive → String → ℕ → ℕ → Type 0
Within drives label epoch generation =
    (d : Drive)
    → get label drives ≡ some d
    → d.identity_epoch ≡ epoch
    → generation ≤ d.write_generation

pub record Bounded (s : Store) : Type 0 where
  pub dirty : All (λ r. Within s.drives r.drive r.epoch r.generation) s.dirty
  pub anchors : All (λ r. Within s.drives r.drive r.epoch r.generation) s.anchors

-- what an advance that goes through did
pub record Advanced (s t : Store) (label : String) (g : ℕ) : Type 0 where
  pub before : Drive
  pub here : get label s.drives ≡ some before
  pub number : g ≡ before.write_generation + 1
  pub drives : t.drives ≡ put label (record before { write_generation = g }) s.drives
  pub row : DirtyRow
  pub row_at : (row.drive ≡ label) × (row.epoch ≡ before.identity_epoch) × (row.generation ≡ g)
  pub dirty : t.dirty ≡ row ∷ s.dirty
  pub anchors : t.anchors ≡ s.anchors

-- what an anchor that is published did
pub record Published (s t : Store) (label : String) (epoch g : ℕ) (o : Observation) : Type 0 where
  pub drive : Drive
  pub here : get label s.drives ≡ some drive
  pub epoch_now : drive.identity_epoch ≡ epoch
  pub generation_now : drive.write_generation ≡ g
  pub proven : require_identity o drive ≡ none
  pub row : AnchorRow
  pub row_at :
      (row.drive ≡ label)
      × (row.epoch ≡ epoch)
      × (row.generation ≡ g)
      × (row.fingerprint ≡ o.fingerprint)
      × (row.capacity ≡ o.filesystem_capacity)
      × (row.authority ≡ drive.authority)
  pub row_free : row.free_bytes ≡ o.free_bytes
  pub in_range : free_in_range o.free_bytes o.filesystem_capacity ≡ true
  pub dedicated : (drive.authority == "dedicated_local") ≡ true
  pub anchors : t.anchors ≡ row ∷ s.anchors
  pub drives : t.drives ≡ s.drives
  pub dirty : t.dirty ≡ s.dirty

pub bind-ok :
    {A B : Type 0} (r : Reply A) (f : A → Reply B) (b : B)
    → bind r f ≡ ok b
    → (a : A) × (r ≡ ok a) × (f a ≡ ok b)
bind-ok (refused c) f b h = cc
bind-ok (ok a) f b h = (a, refl, h)

pub unless-ok :
    {A : Type 0} (o : Option Refusal) (r : Reply A) (a : A)
    → unless o r ≡ ok a
    → (o ≡ none) × (r ≡ ok a)
unless-ok none r a h = (refl, h)
unless-ok (some c) r a h = cc

pub require-ok :
    {A : Type 0} (b : Bool) (c : Refusal) (r : Reply A) (a : A)
    → require b c r ≡ ok a
    → (b ≡ true) × (r ≡ ok a)
require-ok true c r a h = (refl, h)
require-ok false c r a h = cc

drive_facts-ok :
    (s : Store) (label : String) (d : Drive)
    → drive_facts s label ≡ ok d
    → get label s.drives ≡ some d
unfolding drive_facts
drive_facts-ok s label d h = elim (Option-cases (get label s.drives)) [
  | inl e ↦ let k = rw (e, drive_facts) at h in cc
  | inr (x, e) ↦ let k = rw (e, drive_facts) at h in let g : x ≡ d = cc in e ∙ ap some g
]

next_generation-ok :
    (s : Store) (label : String) (d : Drive) (g : ℕ)
    → next_generation s label d ≡ ok g
    → g ≡ d.write_generation + 1
unfolding next_generation
next_generation-ok s label d g h = elim (Bool-cases (eqb d.write_generation 0)) [
  | inl e ↦
      let k = rw (e, next_generation) at h in
      let n : 1 ≡ g = cc in omega (arith, n, (eqb_iff d.write_generation 0).0 e)
  | inr e ↦ elim (Bool-cases (generation_is_clean s label d)) [
    | inl f ↦
        let k = rw (e, f, next_generation) at h in let n : d.write_generation + 1 ≡ g = cc in sym n
    | inr f ↦ let k = rw (e, f, next_generation) at h in cc
  ]
]

insert_dirty-Advanced :
    (s t : Store) (label operation : String) (session : Option String) (token : Option ℕ)
    (d : Drive) (g : ℕ)
    → get label s.drives ≡ some d
    → g ≡ d.write_generation + 1
    → insert_dirty s label d g operation session token ≡ ok t
    → Advanced s t label g
unfolding insert_dirty
insert_dirty-Advanced s t label operation session token d g e f k =
    let row : DirtyRow = record {
      drive = label;
      epoch = d.identity_epoch;
      generation = g;
      operation_code = operation;
      owner_session_id = session;
      owner_fencing_token = token;
    } in
    elim (Bool-cases (any (dirty_is label d.identity_epoch g) s.dirty)) [
      | inl h ↦ let r = rw (h, insert_dirty) at k in cc
      | inr h ↦
          let r = rw (h, insert_dirty) at k in
          let same : record s {
            dirty = row ∷ s.dirty;
            drives = put label (record d { write_generation = g }) s.drives;
          }
              ≡ t =
            cc in
          subst (λ u. Advanced s u label g) same
            (record {
              before = d;
              here = e;
              number = f;
              drives = refl;
              row = row;
              row_at = (refl, refl, refl);
              dirty = refl;
              anchors = refl;
            })
    ]

-- the row that an observation becomes
abbrev anchor_row : String → Drive → Observation → AnchorRow
anchor_row label d o = record {
  drive = label;
  epoch = d.identity_epoch;
  generation = d.write_generation;
  free_bytes = o.free_bytes;
  capacity = o.filesystem_capacity;
  fingerprint = o.fingerprint;
  authority = d.authority;
}

insert_anchor-Published :
    (s t : Store) (label : String) (epoch g : ℕ) (o : Observation) (d : Drive)
    → get label s.drives ≡ some d
    → d.identity_epoch ≡ epoch
    → d.write_generation ≡ g
    → require_identity o d ≡ none
    → insert_anchor s label d o ≡ ok t
    → Published s t label epoch g o
unfolding insert_anchor
insert_anchor-Published s t label epoch g o d e m n p k =
    elim (Bool-cases (
      any (anchor_is label d.identity_epoch d.write_generation) s.anchors
      || not (any (dirty_is label d.identity_epoch d.write_generation) s.dirty)
      || not (free_in_range o.free_bytes o.filesystem_capacity)
      || is_none o.fingerprint
      || not (d.authority == "dedicated_local"))) [
        | inl h ↦ let r = rw (h, insert_anchor) at k in cc
        | inr h ↦
            let r = rw (h, insert_anchor) at k in
            let same : record s { anchors = anchor_row label d o ∷ s.anchors } ≡ t = cc in
            subst (λ u. Published s u label epoch g o) same
              (record {
                drive = d;
                here = e;
                epoch_now = m;
                generation_now = n;
                proven = p;
                row = anchor_row label d o;
                row_at = (refl, m, n, refl, refl, refl);
                row_free = refl;
                in_range = ground arith;
                dedicated = ground arith;
                anchors = refl;
                drives = refl;
                dirty = refl;
              })
      ]

module _ (blocks : String → Bool → Option Refusal) where
  pub advance_one-Advanced :
      (s t : Store) (label operation : String) (captured : Option Drive) (session : Option String)
      (token : Option ℕ) (g : ℕ)
      → advance_one blocks s label operation captured session token ≡ ok (t, g)
      → Advanced s t label g
  unfolding advance_one
  advance_one-Advanced s t label operation captured session token g h =
      let (_, h1) = unless-ok (blocks label true) _ (t, g) h in
      let (d, e, h2) = bind-ok (drive_facts s label) _ (t, g) h1 in
      let (_, h3) = require-ok (as_captured d captured) _ _ (t, g) h2 in
      let (n, f, h4) = bind-ok (next_generation s label d) _ (t, g) h3 in
      let (_, h5) = require-ok (is_pair session token) _ _ (t, g) h4 in
      let (u, k, h6) = bind-ok (insert_dirty s label d n operation session token) _ (t, g) h5 in
      let same_store : u ≡ t = cc in
      let same_number : n ≡ g = cc in
      insert_dirty-Advanced s t label operation session token d g (drive_facts-ok s label d e)
        (sym same_number ∙ next_generation-ok s label d n f)
        (ap (λ m. insert_dirty s label d m operation session token) (sym same_number)
          ∙ k
          ∙ ap ok same_store)

  pub publish-Published :
      (s t : Store) (label : String) (epoch g : ℕ) (o : Observation)
      → publish_anchor_locked blocks s label epoch g o ≡ ok t
      → Published s t label epoch g o
  unfolding publish_anchor_locked
  publish-Published s t label epoch g o h =
      let (_, h1) = unless-ok (blocks label false) _ t h in
      let (d, e, h2) = bind-ok (drive_facts s label) _ t h1 in
      let (c, h3) = require-ok (eqb d.identity_epoch epoch && eqb d.write_generation g) _ _ t h2 in
      let (p, h4) = unless-ok (require_identity o d) _ t h3 in
      insert_anchor-Published s t label epoch g o d (drive_facts-ok s label d e) (ground arith)
        (ground arith) p h4
