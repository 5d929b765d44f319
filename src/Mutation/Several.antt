-- ===== src/Mutation/Several.antt =====
-- The transactions of modelark/drive_mutation.py over several drives: all of them are dirty after the
-- first, and all of them are clean after the second.
use modelark.Prelude.{
  ℕ, ◌≡◌, sym, ◌∙◌, ap, subst, String, Option, none, some, Bool, true, false, List, [], ◌∷◌, ◌==◌,
  All, arith, contains,
}
use modelark.Prelude.Dict.{Dict, get, keys, get-put}
use modelark.Prelude.Sort.{Distinct}
use modelark.Mutation.{
  Drive, AnchorRow, Store, Refusal, ok, Observation, anchor_at, anchor_agrees, generation_is_clean,
  advance_one, publish_anchor_locked,
}
use modelark.Mutation.Generations.{
  Bounded, Advanced, Published, advance_one-Advanced, publish-Published, bind-ok,
}
use modelark.Mutation.Invariant.{IsDirty, advance-Bounded, advance-IsDirty}
use modelark.Mutation.Bracket.{Published-clean}
use modelark.Mutation.Run.{advance_all, publish_all}

-- The drive is at a generation that has an anchor that agrees with it.
pub record IsClean (s : Store) (label : String) : Type 0 where
  pub drive : Drive
  pub here : get label s.drives ≡ some drive
  pub clean : generation_is_clean s label drive ≡ true

apart-name :
    (label k : String) (rest : List String)
    → contains (label ∷ rest) k ≡ false
    → (label == k) ≡ false
apart-name label k rest h = ground arith

IsDirty-other :
    (s t : Store) (label k : String) (g : ℕ)
    → Advanced s t label g
    → (label == k) ≡ false
    → IsDirty s k
    → IsDirty t k
IsDirty-other s t label k g a n d = record {
  drive = d.drive;
  here =
      subst (λ q. get k q ≡ some d.drive) (sym a.drives)
        (ground
          (arith, get-put label k (record a.before { write_generation = g }) s.drives, d.here));
  begun = d.begun;
  no_anchor =
      subst (λ q. anchor_at k d.drive.identity_epoch d.drive.write_generation q ≡ none)
        (sym a.anchors) d.no_anchor;
}

anchor_at-other :
    (k : String) (epoch g : ℕ) (r : AnchorRow) (rows : List AnchorRow)
    → (r.drive == k) ≡ false
    → anchor_at k epoch g (r ∷ rows) ≡ anchor_at k epoch g rows
unfolding anchor_at
anchor_at-other k epoch g r rows h = ground arith

IsClean-other :
    (s t : Store) (label k : String) (epoch g : ℕ) (o : Observation)
    → Published s t label epoch g o
    → (label == k) ≡ false
    → IsClean s k
    → IsClean t k
unfolding generation_is_clean
IsClean-other s t label k epoch g o p n c = record {
  drive = c.drive;
  here = subst (λ q. get k q ≡ some c.drive) (sym p.drives) c.here;
  clean =
      ap (anchor_agrees c.drive) (
        ap (anchor_at k c.drive.identity_epoch c.drive.write_generation) p.anchors
        ∙ anchor_at-other k c.drive.identity_epoch c.drive.write_generation p.row s.anchors
            (subst (λ x. (x == k) ≡ false) (sym p.row_at.0) n))
      ∙ c.clean;
}

module _ (blocks : String → Bool → Option Refusal) (has_keys : Drive → Bool) where
  -- What the advances of a transaction did: the drives are dirty, and what was dirty still is.
  pub record AllDirty (s t : Store) (labels : List String) : Type 0 where
    pub bounded : Bounded t
    pub marked : All (IsDirty t) labels
    pub others : (k : String) → contains labels k ≡ false → IsDirty s k → IsDirty t k

  pub advance_all-AllDirty :
      (operation : String) (session : Option String) (token : Option ℕ) (facts : Dict Drive)
      (s t : Store) (generations : Dict ℕ)
      → Bounded s
      → Distinct (keys facts)
      → advance_all blocks has_keys s operation session token facts ≡ ok (t, generations)
      → AllDirty s t (keys facts) × (keys generations ≡ keys facts)
  unfolding advance_all
  advance_all-AllDirty operation session token [] s t generations b d h =
      let same : s ≡ t = cc in
      let none_left : [] ≡ generations = cc in
      (
        record {
          bounded = subst Bounded same b;
          marked = tt;
          others = λ k n x. subst (λ u. IsDirty u k) same x;
        },
        ap keys (sym none_left),
      )
  advance_all-AllDirty operation session token ((label, d) ∷ rest) s t generations b (n, ds) h =
      let ((u, g), e, h1) =
        bind-ok (advance_one blocks s label operation (some d) session token) _ (t, generations)
          h in
      let ((v, gs), f, h2) =
        bind-ok (advance_all blocks has_keys u operation session token rest) _ (t, generations)
          h1 in
      let same : v ≡ t = cc in
      let numbers : (label, g) ∷ gs ≡ generations = cc in
      let a = advance_one-Advanced blocks s u label operation (some d) session token g e in
      let (all, ks) =
        advance_all-AllDirty operation session token rest u v gs (advance-Bounded s u label g b a)
          ds f in
      (
        subst (λ w. AllDirty s w (label ∷ keys rest)) same
            (record {
              bounded = all.bounded;
              marked = (all.others label n (advance-IsDirty s u label g b a), all.marked);
              others = λ k m x.
                  all.others k (ground arith)
                    (IsDirty-other s u label k g a (apart-name label k (keys rest) m) x);
            }),
        ap keys (sym numbers) ∙ ap (◌∷◌ label) ks,
      )

  -- What the anchors of a transaction did: the drives are clean, and what was clean still is.
  pub record AllClean (s t : Store) (labels : List String) : Type 0 where
    pub closed : All (IsClean t) labels
    pub others : (k : String) → contains labels k ≡ false → IsClean s k → IsClean t k

  pub publish_all-AllClean :
      (observe : String → Observation) (facts : Dict Drive) (generations : Dict ℕ) (s t : Store)
      → keys generations ≡ keys facts
      → Distinct (keys facts)
      → publish_all blocks has_keys s observe facts generations ≡ ok t
      → AllClean s t (keys facts)
  unfolding publish_all
  publish_all-AllClean observe [] generations s t e d h =
      let same : s ≡ t = ground arith in
      record { closed = tt; others = λ k n x. subst (λ u. IsClean u k) same x }
  publish_all-AllClean observe ((label, d) ∷ facts) [] s t e ds h = cc
  publish_all-AllClean observe ((label, d) ∷ facts) ((j, g) ∷ gs) s t e (n, ds) h =
      let (u, f, h1) =
        bind-ok (publish_anchor_locked blocks s label d.identity_epoch g (observe label)) _ t h in
      let p = publish-Published blocks s u label d.identity_epoch g (observe label) f in
      let ks : keys gs ≡ keys facts = cc in
      let all = publish_all-AllClean observe facts gs u t ks ds h1 in
      record {
        closed = (
          all.others label n (record {
            drive = p.drive;
            here = subst (λ q. get label q ≡ some p.drive) (sym p.drives) p.here;
            clean = Published-clean s u label d.identity_epoch g (observe label) p;
          }),
          all.closed,
        );
        others = λ k m x. all.others k (ground arith) (
            IsClean-other s u label k d.identity_epoch g (observe label) p
              (apart-name label k (keys facts) m) x);
      }
