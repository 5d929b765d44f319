-- ===== src/Mutation/Outcome.antt =====
-- How a bracket of modelark/drive_mutation.py over several drives may end.
use modelark.Prelude.{
  ℕ, ◌≡◌, refl, sym, ◌∙◌, ap, subst, String, Option, Bool, List, [], ◌∷◌, All, All-weaken,
  Bool-cases, inl, inr,
}
use modelark.Prelude.Dict.{Dict, keys}
use modelark.Prelude.Sort.{Distinct, Distinct-sort}
use modelark.Prelude.Distinct.{distinct, Distinct-distinct}
use modelark.Mutation.{
  Drive, Store, Refusal, Reply, refused, ok, Observation, generation_is_clean, is_pair, bumped,
}
use modelark.Mutation.Generations.{Bounded, bind-ok, unless-ok, require-ok}
use modelark.Mutation.Invariant.{IsDirty}
use modelark.Mutation.Run.{
  Fences, capture, enter_mutation, exit_mutation, dirty_body, anchor_body, Run, not_entered, failed,
  finished, Phase, dirtying, anchoring, with_body, exited, drive_mutation, mutation_labels,
  committed, fence_identity, publish_all, advance_all, owned, require_reconciled, require_clear,
  require_fence_identities, require_facts, require_observed, token_check,
}
use modelark.Mutation.Several.{IsClean, advance_all-AllDirty, publish_all-AllClean}

Distinct-labels : (labels : List String) → Distinct (mutation_labels labels)
unfolding mutation_labels
Distinct-labels labels = Distinct-sort (distinct labels) (Distinct-distinct labels)

module _ (blocks : String → Bool → Option Refusal) (has_keys : Drive → Bool) where
  keys-capture :
      (s : Store) (labels : List String) (facts : Dict Drive)
      → capture blocks has_keys s labels ≡ ok facts
      → keys facts ≡ labels
  unfolding capture
  keys-capture s [] facts h = let e : [] ≡ facts = cc in ap keys (sym e)
  keys-capture s (label ∷ labels) facts h =
      let (d, e, h1) = bind-ok (fence_identity blocks has_keys s label) _ facts h in
      let (rest, f, h2) = bind-ok (capture blocks has_keys s labels) _ facts h1 in
      let g : (label, d) ∷ rest ≡ facts = cc in
      ap keys (sym g) ∙ ap (◌∷◌ label) (keys-capture s labels rest f)

  module _ (session_check : String → ℕ → Option Refusal) (live : Phase → Bool)
      (session : Option String) (token : Option ℕ) where
    abbrev commit : Phase → Store → Reply Store
    commit = committed blocks has_keys session_check live session token

    -- The end of a transaction changes the planner revision at most.
    committed-same :
        (P : Store → Type 0) (phase : Phase) (s t : Store)
        → (P s → P (bumped blocks s))
        → commit phase s ≡ ok t
        → P s
        → P t
    committed-same P phase s t f h p = elim (Bool-cases (owned blocks has_keys session token)) [
      | inl e ↦ let g = rw e at h in let same : s ≡ t = cc in subst P same p
      | inr e ↦ elim (Bool-cases (live phase)) [
        | inl l ↦ let g = rw (e, l) at h in cc
        | inr l ↦
            let g = rw (e, l) at h in let same : bumped blocks s ≡ t = cc in subst P same (f p)
      ]
    ]

    IsDirty-commit :
        (phase : Phase) (s t : Store) (k : String)
        → commit phase s ≡ ok t
        → IsDirty s k
        → IsDirty t k
    IsDirty-commit phase s t k h d =
        committed-same (λ u. IsDirty u k) phase s t
          (λ d. record { drive = d.drive; here = d.here; begun = d.begun; no_anchor = d.no_anchor })
          h d

    IsClean-commit :
        (phase : Phase) (s t : Store) (k : String)
        → commit phase s ≡ ok t
        → IsClean s k
        → IsClean t k
    unfolding generation_is_clean
    IsClean-commit phase s t k h c =
        committed-same (λ u. IsClean u k) phase s t
          (λ c. record { drive = c.drive; here = c.here; clean = c.clean }) h c

    -- what a bracket that is entered knows of its drives
    pub record Entered (labels : List String) (s : Store) (facts : Dict Drive)
        (generations : Dict ℕ) : Type 0 where
      pub names : keys facts ≡ labels
      pub numbers : keys generations ≡ keys facts
      pub dirty : All (IsDirty s) labels

    dirty_body-Entered :
        (now s : Store) (operation : String) (labels : List String) (facts : Dict Drive)
        (generations : Dict ℕ)
        → Bounded now
        → Distinct labels
        → keys facts ≡ labels
        → dirty_body blocks has_keys session_check live session token now operation facts
          ≡ ok (s, generations)
        → Entered labels s facts generations
    unfolding dirty_body
    dirty_body-Entered now s operation labels facts generations b d names h =
        let (_, h1) =
          unless-ok (require_fence_identities blocks has_keys now facts) _ (s, generations) h in
        let (_, h2) =
          unless-ok (token_check blocks has_keys session_check live session token session token) _
            (s, generations) h1 in
        let ((u, gs), e, h3) =
          bind-ok (advance_all blocks has_keys now operation session token facts) _ (s, generations)
            h2 in
        let (v, k, h4) = bind-ok (commit dirtying u) _ (s, generations) h3 in
        let same : v ≡ s = cc in
        let numbers : gs ≡ generations = cc in
        let (all, ks) =
          advance_all-AllDirty blocks has_keys operation session token facts now u gs b
            (subst Distinct (sym names) d) e in
        record {
          names = names;
          numbers = ap keys (sym numbers) ∙ ks;
          dirty =
              subst (λ w. All (IsDirty w) labels) same
                (All-weaken _ _ labels (λ x. IsDirty-commit dirtying u v x k)
                  (subst (All (IsDirty u)) names all.marked));
        }

    enter-Entered :
        (first fenced now : Store) (fences : Fences) (observe : String → Observation)
        (operation : String) (labels : List String) (s : Store) (facts : Dict Drive)
        (generations : Dict ℕ)
        → Bounded now
        → Distinct labels
        → enter_mutation blocks has_keys session_check live session token first fenced now fences
            observe operation labels
          ≡ ok (s, facts, generations)
        → Entered labels s facts generations
    unfolding enter_mutation
    enter-Entered first fenced now fences observe operation labels s facts generations b d h =
        let (_, h1) = unless-ok (require_clear blocks has_keys labels) _ _ h in
        let (_, h2) = require-ok (is_pair session token) _ _ _ h1 in
        let (_, h2c) = require-ok fences.controller _ _ _ h2 in
        let (fs, e, h3) = bind-ok (capture blocks has_keys first labels) _ _ h2c in
        let (_, h4) = require-ok fences.drives _ _ _ h3 in
        let (_, h5) = unless-ok (require_fence_identities blocks has_keys fenced fs) _ _ h4 in
        let (_, h6) = unless-ok (require_facts blocks has_keys fenced fs) _ _ h5 in
        let (_, h7) = unless-ok (require_observed blocks has_keys observe fs) _ _ h6 in
        let ((u, gs), f, h8) =
          bind-ok (dirty_body blocks has_keys session_check live session token now operation fs) _ _
            h7 in
        let same_store : u ≡ s = cc in
        let same_facts : fs ≡ facts = cc in
        let same_numbers : gs ≡ generations = cc in
        let entered =
          dirty_body-Entered now u operation labels fs gs b d (keys-capture first labels fs e) f in
        subst (λ x. Entered labels s x generations) same_facts
          (subst (λ x. Entered labels x fs generations) same_store
            (subst (Entered labels u fs) same_numbers entered))

    exit-AllClean :
        (s t : Store) (reconcile : String → Option Refusal) (observe : String → Observation)
        (labels : List String) (facts : Dict Drive) (generations : Dict ℕ)
        → Distinct labels
        → Entered labels s facts generations
        → (u : Store)
        → exit_mutation blocks has_keys session_check live session token u reconcile observe facts
            generations
          ≡ ok t
        → All (IsClean t) labels
    unfolding exit_mutation anchor_body
    exit-AllClean s t reconcile observe labels facts generations d e u h =
        let (_, h1) =
          unless-ok (require_reconciled blocks has_keys reconcile observe facts) _ t h in
        let (_, h2) = unless-ok (require_fence_identities blocks has_keys u facts) _ t h1 in
        let (_, h3) =
          unless-ok (token_check blocks has_keys session_check live session token session token) _ t
            h2 in
        let (v, f, h4) = bind-ok (publish_all blocks has_keys u observe facts generations) _ t h3 in
        let all =
          publish_all-AllClean blocks has_keys observe facts generations u v e.numbers
            (subst Distinct (sym e.names) d) f in
        All-weaken _ _ labels (λ x. IsClean-commit anchoring v t x h4)
          (subst (All (IsClean v)) e.names all.closed)

    -- A bracket that is not entered writes nothing; one that fails leaves every drive dirty, and one
    -- that finishes leaves every drive clean.
    abbrev pub Settled : List String → Run blocks has_keys session_check live session token → Type 0
    Settled labels (not_entered c) = Unit
    Settled labels (failed t) = All (IsDirty t) labels
    Settled labels (finished t) = All (IsClean t) labels

    module _ (body : Store → Store × Bool)
        (body_keeps : (s : Store) (k : String) → IsDirty s k → IsDirty (body s).0 k)
        (reconcile : String → Option Refusal) (observe : String → Observation) where
      exited-Settled :
          (s u : Store) (labels : List String) (facts : Dict Drive) (generations : Dict ℕ)
          (r : Reply Store)
          → Distinct labels
          → Entered labels s facts generations
          → All (IsDirty u) labels
          → exit_mutation blocks has_keys session_check live session token u reconcile observe facts
              generations
            ≡ r
          → Settled labels (exited blocks has_keys session_check live session token u r)
      exited-Settled s u labels facts generations (refused c) d e dirty h = dirty
      exited-Settled s u labels facts generations (ok t) d e dirty h =
          exit-AllClean s t reconcile observe labels facts generations d e u h

      with_body-Settled :
          (labels : List String) (r : Reply (Store × Dict Drive × Dict ℕ))
          → Distinct labels
          → ((s : Store) (facts : Dict Drive) (generations : Dict ℕ)
              → r ≡ ok (s, facts, generations)
              → Entered labels s facts generations)
          → Settled labels
              (with_body blocks has_keys session_check live session token body reconcile observe r)
      with_body-Settled labels (refused c) d f = tt
      with_body-Settled labels (ok (s, facts, generations)) d f =
          let e = f s facts generations refl in
          let dirty = All-weaken _ _ labels (λ k x. body_keeps s k x) e.dirty in
          elim (Bool-cases (body s).1) [
            | inl g ↦ rw g dirty
            | inr g ↦ rw g (exited-Settled s (body s).0 labels facts generations _ d e dirty refl)
          ]

      -- Where no dirty row and no anchor of a drive's epoch is above its generation when the drives are
      -- marked, whatever the catalog was before, whichever checks fail and whatever the body does, as
      -- long as it leaves a dirty drive dirty: drive_mutation either
      -- is refused before it writes, or fails and leaves every one of its drives dirty, or finishes and
      -- leaves every one of them clean.
      pub drive_mutation_settles :
          (first fenced now : Store) (fences : Fences) (observe_before : String → Observation)
          (operation : String) (labels : List String)
          → Bounded now
          → Settled (mutation_labels labels) (
              drive_mutation blocks has_keys session_check live session token first fenced now
                fences observe_before observe reconcile body operation labels)
      unfolding drive_mutation
      drive_mutation_settles first fenced now fences observe_before operation labels b =
          with_body-Settled (mutation_labels labels) _ (Distinct-labels labels)
            (λ s facts generations h.
              enter-Entered first fenced now fences observe_before operation
                (mutation_labels labels) s facts generations b (Distinct-labels labels) h)
