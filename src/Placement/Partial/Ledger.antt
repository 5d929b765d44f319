-- ===== src/Placement/Partial/Ledger.antt =====
-- The search node of modelark/placement.py as a ledger: what `push` and `pop` keep of the bytes and
-- assignments on each drive.
use modelark.Prelude.{
  ℕ, ◌+◌, max, leb, String, ◌≡◌, refl, sym, subst, ap, ap₂, ◌∙◌, ◌-◌, none, List, [], ◌∷◌, ◌++◌,
  ◌==◌, eq_iff, select, sum_by, max_by, length, arith, get_or,
}
use modelark.Prelude.Dict.{
  Dict, get, del, count_at, count_at-put, count_at-restore, put_fresh, del-append,
}
use modelark.Candidates.{Candidate}
use modelark.Placement.{cand_durable, cand_workspace}
use modelark.Placement.Partial.{Partial, Undo, KeyPart, empty_partial, fits, push, pop}

-- The candidates that write to a drive.
abbrev pub on : String → List Candidate → List Candidate
on lab cs = select (λ c. c.target_drive == lab) cs

abbrev pub durable_on : String → String → List Candidate → ℕ
durable_on mode lab cs = sum_by (cand_durable mode) (on lab cs)

abbrev pub workspace_on : String → String → List Candidate → ℕ
workspace_on mode lab cs = max_by (cand_workspace mode) (on lab cs)

-- The dict of assignments after pushes, the latest first in the list.
abbrev pub keyed : List Candidate → Dict Candidate
keyed [] = []
keyed (c ∷ cs) = keyed cs ++ (c.requirement_id, c) ∷ []

-- The undo log holds the totals that each push found.
abbrev pub Logs : String → List Undo → List Candidate → Type 0
Logs mode [] [] = Unit
Logs mode (u ∷ us) (c ∷ cs) =
    (u.requirement_id ≡ c.requirement_id)
    × (u.drive ≡ c.target_drive)
    × (u.old_durable ≡ durable_on mode c.target_drive cs)
    × (u.old_workspace ≡ workspace_on mode c.target_drive cs)
    × (u.moved ≡ c.transfer_bytes)
    × Logs mode us cs
Logs mode _ _ = ⊥

-- A node is what the pushes of `cs`, the latest first, have made of an empty one.
pub record Describes (mode : String) (p : Partial) (cs : List Candidate) : Type 0 where
  pub durable : (lab : String) → count_at lab p.durable_load ≡ durable_on mode lab cs
  pub workspace : (lab : String) → count_at lab p.workspace_peak ≡ workspace_on mode lab cs
  pub assigned : p.assigned ≡ keyed cs
  pub logs : Logs mode p.undo cs
  pub movement : p.movement ≡ sum_by (λ c. c.transfer_bytes) cs
  pub used : (lab : String) → count_at lab p.used_drives ≡ length (on lab cs)

pub empty_partial-Describes :
    (mode : String) (free : Dict ℕ) → Describes mode (empty_partial free) []
unfolding empty_partial get
empty_partial-Describes mode free = record {
  durable = λ lab. refl;
  workspace = λ lab. refl;
  assigned = refl;
  logs = tt;
  movement = refl;
  used = λ lab. refl;
}

pub free0-pop : (p : Partial) → (pop p).free0 ≡ p.free0
unfolding pop
free0-pop p = ground arith

module _ (part_hash : KeyPart → ℕ) (mode : String) (p : Partial) (c : Candidate)
    (cs : List Candidate) where
  -- Pushing a candidate of a requirement that is not assigned adds it to the ledger.
  pub push-Describes :
      get c.requirement_id p.assigned ≡ none
      → Describes mode p cs
      → Describes mode (push part_hash mode p c) (c ∷ cs)
  unfolding push
  push-Describes fresh d = record {
    durable = λ lab. ground (
      arith,
      count_at-put c.target_drive lab (count_at c.target_drive p.durable_load + cand_durable mode c)
          p.durable_load,
      d.durable lab,
      d.durable c.target_drive,
      eq_iff c.target_drive lab,
    );
    workspace = λ lab. ground (
      arith,
      count_at-put c.target_drive lab
          (max (count_at c.target_drive p.workspace_peak) (cand_workspace mode c)) p.workspace_peak,
      d.workspace lab,
      d.workspace c.target_drive,
      eq_iff c.target_drive lab,
    );
    assigned =
        put_fresh c.requirement_id c p.assigned fresh
        ∙ ap (λ m. m ++ (c.requirement_id, c) ∷ []) d.assigned;
    logs = (refl, refl, d.durable c.target_drive, d.workspace c.target_drive, refl, d.logs);
    movement = omega (arith, d.movement);
    used = λ lab. ground (
      arith,
      count_at-put c.target_drive lab (count_at c.target_drive p.used_drives + 1) p.used_drives,
      d.used lab,
      d.used c.target_drive,
      eq_iff c.target_drive lab,
    );
  }

module _ (mode : String) (p : Partial) (c : Candidate) (cs : List Candidate) where
  pop_logged :
      (u : Undo) (us : List Undo)
      → p.undo ≡ u ∷ us
      → get c.requirement_id (keyed cs) ≡ none
      → Describes mode p (c ∷ cs)
      → Logs mode (u ∷ us) (c ∷ cs)
      → Describes mode (pop p) cs
  unfolding pop
  pop_logged u us e fresh d (r, l, od, ow, mv, logs) =
      rw (e, pop)
        (record {
          durable = λ lab. ground (
            arith,
            count_at-restore u.drive lab u.old_durable p.durable_load,
            d.durable lab,
            eq_iff u.drive lab,
            eq_iff c.target_drive lab,
          );
          workspace = λ lab. ground (
            arith,
            count_at-restore u.drive lab u.old_workspace p.workspace_peak,
            d.workspace lab,
            eq_iff u.drive lab,
            eq_iff c.target_drive lab,
          );
          assigned = ap₂ del r d.assigned ∙ del-append c.requirement_id c (keyed cs) fresh;
          logs = logs;
          movement = omega arith;
          used = λ lab. ground (
            arith,
            count_at-restore u.drive lab (get_or (get u.drive p.used_drives) 1 - 1) p.used_drives,
            d.used lab,
            eq_iff u.drive lab,
            eq_iff c.target_drive lab,
          );
        })

  pop_cases :
      (us : List Undo)
      → p.undo ≡ us
      → get c.requirement_id (keyed cs) ≡ none
      → Describes mode p (c ∷ cs)
      → Logs mode us (c ∷ cs)
      → Describes mode (pop p) cs
  pop_cases [] e fresh d l = absurd l
  pop_cases (u ∷ us) e fresh d l = pop_logged u us e fresh d l

  -- Taking back the latest assignment gives a node that describes the earlier ones.
  pub pop-Describes :
      get c.requirement_id (keyed cs) ≡ none → Describes mode p (c ∷ cs) → Describes mode (pop p) cs
  pop-Describes fresh d = pop_cases p.undo refl fresh d d.logs

  -- The test of `fits` is that of the ledger with the candidate in it.
  pub fits-ledger :
      Describes mode p cs
      → fits mode p c
        ≡ leb
            (durable_on mode c.target_drive (c ∷ cs) + workspace_on mode c.target_drive (c ∷ cs))
            (count_at c.target_drive p.free0)
  unfolding fits
  fits-ledger d = ground (
    arith,
    d.durable c.target_drive,
    d.workspace c.target_drive,
    eq_iff c.target_drive c.target_drive,
  )

-- On a node that describes the candidates `cs`, the push of a candidate whose requirement is not
-- assigned, and then `pop`, give back the assignments, the bytes moved, and on every drive the
-- durable load, the workspace peak and the count of uses.
pub pop-push :
    (part_hash : KeyPart → ℕ) (mode : String) (p : Partial) (c : Candidate) (cs : List Candidate)
    → get c.requirement_id p.assigned ≡ none
    → Describes mode p cs
    → let q = pop (push part_hash mode p c) in
      (q.assigned ≡ p.assigned)
      × (q.movement ≡ p.movement)
      × ((lab : String)
          → (count_at lab q.durable_load ≡ count_at lab p.durable_load)
            × (count_at lab q.workspace_peak ≡ count_at lab p.workspace_peak)
            × (count_at lab q.used_drives ≡ count_at lab p.used_drives))
pop-push part_hash mode p c cs fresh d =
    let e =
      pop-Describes mode (push part_hash mode p c) c cs
        (subst (λ m. get c.requirement_id m ≡ none) d.assigned fresh)
        (push-Describes part_hash mode p c cs fresh d) in
    (
      e.assigned ∙ sym d.assigned,
      e.movement ∙ sym d.movement,
      λ lab. (
        e.durable lab ∙ sym (d.durable lab),
        e.workspace lab ∙ sym (d.workspace lab),
        e.used lab ∙ sym (d.used lab),
      ),
    )
