-- ===== src/Capacity/Tasks/Matched.antt =====
-- The candidate that _match_candidate of modelark/capacity.py finds for a task, and its budget.
use modelark.Prelude.{
  ◌≡◌, refl, subst, String, Option, none, some, Bool, true, false, not, ◌&&◌, ◌||◌, List, [], ◌∷◌,
  ◌==◌, All, All-at, All-select, Mem-select, All-weaken, Memᴰ, arith, Bool-cases, inl, inr, eqb,
  eq_refl, opt_eq,
}
use mathlib.Core.List.Memᴰ
use modelark.Candidates.{SourceIdentity, Source, source, pending_home, no_source, Candidate}
use modelark.Placement.{cand_durable, cand_workspace}
use modelark.Placement.Partial.{Partial, resolve_source}
use modelark.Placement.Assignment.{task_of}
use modelark.Placement.{AssignmentTask}
use modelark.Capacity.Tasks.{same_source, source_matches, first_matching, pick, match_in}

-- Both copy from a known drive, and from different ones.
abbrev pub differ : Source → Source → Bool
differ (source s) (source t) = not (same_source s t)
differ _ _ = false

abbrev pub same_amounts : String → Candidate → Candidate → Bool
same_amounts mode c d =
    eqb (cand_durable mode c) (cand_durable mode d)
    && eqb (cand_workspace mode c) (cand_workspace mode d)

-- Where two candidates write to one drive, their budgets agree or their sources differ.
abbrev pub apart : String → Candidate → Candidate → Bool
apart mode c d =
    not (c.target_drive == d.target_drive) || same_amounts mode c d || differ c.source d.source

abbrev pub Separate : String → List Candidate → Type 0
Separate mode cs = All (λ c. All (λ d. apart mode c d ≡ true) cs) cs

opt_eq_refl : (o : Option String) → opt_eq o o ≡ true
opt_eq_refl none = refl
opt_eq_refl (some a) = eq_refl a

same_source_refl : (s : SourceIdentity) → same_source s s ≡ true
same_source_refl s =
    ground (arith, eq_refl s.drive_label, opt_eq_refl s.annex_key, opt_eq_refl s.orig_sha256)

first_matching-All :
    (P : Candidate → Type 0) (t : Option SourceIdentity) (d : Candidate) (ms : List Candidate)
    → P d
    → All P ms
    → P (first_matching t d ms)
unfolding first_matching
first_matching-All P t d [] q ps = q
first_matching-All P t d (c ∷ cs) q (p, ps) = elim (Bool-cases (source_matches c.source t)) [
  | inl e ↦ rw e p
  | inr e ↦ rw e (first_matching-All P t d cs q ps)
]

-- when the one that is found does not match, no member does
first_matching_none :
    (t : Option SourceIdentity) (d : Candidate) (ms : List Candidate)
    → source_matches (first_matching t d ms).source t ≡ false
    → All (λ c. source_matches c.source t ≡ false) ms
unfolding first_matching
first_matching_none t d [] h = tt
first_matching_none t d (x ∷ xs) h = elim (Bool-cases (source_matches x.source t)) [
  | inl e ↦ let g = rw (e, first_matching) at h in cc (e, g)
  | inr e ↦ (e, first_matching_none t d xs (rw (e, first_matching) at h))
]

-- from what is true of two candidates with one target to their budgets
apart-amounts :
    (mode : String) (m c : Candidate)
    → apart mode m c ≡ true
    → (m.target_drive == c.target_drive) ≡ true
    → differ m.source c.source ≡ false
    → same_amounts mode m c ≡ true
apart-amounts mode m c a t d = ground arith

pick-All :
    (P : Candidate → Type 0) (t : Option SourceIdentity) (ms : List Candidate) (m : Candidate)
    → All P ms
    → pick t ms ≡ some m
    → P m
pick-All P t [] m ps h = cc
pick-All P t (x ∷ []) m ps h = let e : x ≡ m = cc in subst P e ps.0
pick-All P t (x ∷ y ∷ ms) m ps h =
    let e : first_matching t x (x ∷ y ∷ ms) ≡ m = cc in
    subst P e (first_matching-All P t x (x ∷ y ∷ ms) ps.0 ps)

-- What holds of every candidate holds of the one that is found.
pub match_in-All :
    (P : Candidate → Type 0) (cs : List Candidate) (t : AssignmentTask) (m : Candidate)
    → All P cs
    → match_in cs t ≡ some m
    → P m
unfolding match_in
match_in-All P cs t m ps h =
    pick-All P t.source _ m
      (All-weaken _ _ _ (λ x q. q.0) (All-select (λ x. x.target_drive == t.target_drive) P cs ps)) h

module _ (mode : String) (p : Partial) (c : Candidate) where
  abbrev src : Option SourceIdentity
  src = resolve_source p c

  matched-alike :
      (m : Candidate) (s : Source)
      → c.source ≡ s
      → source_matches m.source src ≡ true
      → differ m.source s ≡ false
  unfolding resolve_source
  matched-alike m s e h =
      elim m.source as (λ k. m.source ≡ k → differ k s ≡ false) [
        | source r ↦ λ g.
            elim s as (λ s. c.source ≡ s → differ (source r) s ≡ false) [
              | source q ↦ λ e. let k = rw (g, e, resolve_source) at h in rw k refl
              | pending_home rid ↦ λ e. refl
              | no_source ↦ λ e. refl
            ]
              e
        | pending_home rid ↦ λ g. refl
        | no_source ↦ λ g. refl
      ]
        refl

  -- Among candidates that hold `c`, the one that is found never copies from another known drive.
  found-alike :
      (d : Candidate) (ms : List Candidate)
      → Memᴰ c ms
      → differ (first_matching src d ms).source c.source ≡ false
  unfolding resolve_source
  found-alike d ms m = elim (Bool-cases (source_matches (first_matching src d ms).source src)) [
    | inl e ↦ matched-alike (first_matching src d ms) c.source refl e
    | inr e ↦
        let unmatched = All-at _ ms c (first_matching_none src d ms e) m in
        elim c.source as (λ s. c.source ≡ s → differ (first_matching src d ms).source s ≡ false) [
          | source q ↦
              λ g. let k = rw (g, resolve_source) at unmatched in cc (k, same_source_refl q)
          | pending_home rid ↦ λ g.
              elim (first_matching src d ms).source as (λ s. differ s (pending_home rid) ≡ false) [
                | source q ↦ refl
                | pending_home r ↦ refl
                | no_source ↦ refl
              ]
          | no_source ↦ λ g.
              elim (first_matching src d ms).source as (λ s. differ s no_source ≡ false) [
                | source q ↦ refl
                | pending_home r ↦ refl
                | no_source ↦ refl
              ]
        ]
          refl
  ]

  same_amounts_refl : same_amounts mode c c ≡ true
  same_amounts_refl = ground arith

  pick-amounts :
      (ms : List Candidate)
      → Memᴰ c ms
      → All (λ m. (apart mode m c ≡ true) × ((m.target_drive == c.target_drive) ≡ true)) ms
      → (m : Candidate) × (pick src ms ≡ some m) × (same_amounts mode m c ≡ true)
  pick-amounts [] h ps = elim h [ ]
  pick-amounts (x ∷ []) h ps = (
    x,
    refl,
    subst (λ x. same_amounts mode x c ≡ true) (Memᴰ.eq_of_singleton h) same_amounts_refl,
  )
  pick-amounts (x ∷ y ∷ ms) h ps =
      let (a, t) = first_matching-All _ src x (x ∷ y ∷ ms) ps.0 ps in
      (_, refl, apart-amounts mode _ c a t (found-alike x (x ∷ y ∷ ms) h))

  -- Among separate candidates, the one that is found for the task of `c` has the budget of `c`.
  pub match_in-amounts :
      (cs : List Candidate) (rid : String)
      → Separate mode cs
      → Memᴰ c cs
      → (m : Candidate) × (match_in cs (task_of mode p rid c) ≡ some m)
        × (same_amounts mode m c ≡ true)
  unfolding match_in task_of
  match_in-amounts cs rid s h =
      pick-amounts _
        (Mem-select (λ m. m.target_drive == c.target_drive) c cs h (eq_refl c.target_drive))
        (All-select _ (λ m. apart mode m c ≡ true) cs
          (All-weaken _ _ cs (λ m ps. All-at _ cs c ps h) s))
