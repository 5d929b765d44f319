-- ===== src/Mutation/Invariant.antt =====
-- What every transaction of modelark/drive_mutation.py keeps of the generations, and what an advance
-- and an anchor mean for the drive.
use modelark.Prelude.{
  ℕ, ◌≤◌, ◌<◌, ◌≡◌, refl, sym, ◌∙◌, ap, subst, String, none, some, List, [], ◌∷◌, ◌==◌, All,
  All-weaken, arith, Bool-cases, inl, inr, eq_iff, eq_refl,
}
use modelark.Prelude.Dict.{Dict, get, put, get-put}
use modelark.Mutation.{Drive, AnchorRow, Store, Observation, anchor_is, anchor_at}
use modelark.Mutation.Generations.{Within, Bounded, Advanced, Published}

-- The drive is at a generation that has begun and that has no anchor.
pub record IsDirty (s : Store) (label : String) : Type 0 where
  pub drive : Drive
  pub here : get label s.drives ≡ some drive
  pub begun : 0 < drive.write_generation
  pub no_anchor : anchor_at label drive.identity_epoch drive.write_generation s.anchors ≡ none

Within-put :
    (drives : Dict Drive) (label : String) (d e : Drive) (k : String) (epoch g : ℕ)
    → get label drives ≡ some d
    → e.identity_epoch ≡ d.identity_epoch
    → d.write_generation ≤ e.write_generation
    → Within drives k epoch g
    → Within (put label e drives) k epoch g
Within-put drives label d e k epoch g h same le w f q m = elim (Bool-cases (label == k)) [
  | inl b ↦
      let there : e ≡ f = ground (arith, get-put label k e drives) in
      let name : label ≡ k = (eq_iff label k).0 b in
      let old =
        w d (subst (λ x. get x drives ≡ some d) name h)
          (sym same ∙ ap (λ x. x.identity_epoch) there ∙ m) in
      let up = ap (λ x. x.write_generation) there in omega arith
  | inr b ↦ w f (ground (arith, get-put label k e drives)) m
]

get-put_same :
    (label : String) (e : Drive) (drives : Dict Drive) (d : Drive)
    → get label (put label e drives) ≡ some d
    → e ≡ d
get-put_same label e drives d h = ground (arith, get-put label label e drives, eq_refl label)

pub advance-Bounded :
    (s t : Store) (label : String) (g : ℕ) → Bounded s → Advanced s t label g → Bounded t
advance-Bounded s t label g b a =
    let moved : Drive = record a.before { write_generation = g } in
    let keep : (k : String) (epoch n : ℕ) → Within s.drives k epoch n → Within t.drives k epoch n =
      λ k epoch n w.
        subst (λ m. Within m k epoch n) (sym a.drives)
          (Within-put s.drives label a.before moved k epoch n a.here refl (omega (arith, a.number))
            w) in
    record {
      dirty = subst (All (λ r. Within t.drives r.drive r.epoch r.generation)) (sym a.dirty) (
        λ d h m.
            let (k, e, n) = a.row_at in
            let there : moved ≡ d = get-put_same label moved s.drives d (
              subst (λ q. get label q ≡ some d) a.drives
                (subst (λ q. get q t.drives ≡ some d) k h)) in
            let up = ap (λ x. x.write_generation) there in omega (arith, n, up),
        All-weaken _ _ s.dirty (λ r w. keep r.drive r.epoch r.generation w) b.dirty,
      );
      anchors =
          subst (All (λ r. Within t.drives r.drive r.epoch r.generation)) (sym a.anchors)
            (All-weaken _ _ s.anchors (λ r w. keep r.drive r.epoch r.generation w) b.anchors);
    }

pub publish-Bounded :
    (s t : Store) (label : String) (epoch g : ℕ) (o : Observation)
    → Bounded s
    → Published s t label epoch g o
    → Bounded t
publish-Bounded s t label epoch g o b p =
    let keep : (k : String) (e n : ℕ) → Within s.drives k e n → Within t.drives k e n =
      λ k e n w. subst (λ m. Within m k e n) (sym p.drives) w in
    record {
      dirty =
          subst (All (λ r. Within t.drives r.drive r.epoch r.generation)) (sym p.dirty)
            (All-weaken _ _ s.dirty (λ r w. keep r.drive r.epoch r.generation w) b.dirty);
      anchors = subst (All (λ r. Within t.drives r.drive r.epoch r.generation)) (sym p.anchors) (
        λ d h m.
            let at = p.row_at in
            let found : some p.drive ≡ some d =
              sym p.here
              ∙ subst (λ q. get label q ≡ some d) p.drives
                  (subst (λ q. get q t.drives ≡ some d) at.0 h) in
            let there : p.drive ≡ d = cc in
            let up = ap (λ x. x.write_generation) there in
            omega (arith, at.2, p.generation_now, up),
        All-weaken _ _ s.anchors (λ r w. keep r.drive r.epoch r.generation w) b.anchors,
      );
    }

anchor_at-none :
    (label : String) (epoch g : ℕ) (rows : List AnchorRow)
    → All (λ r. r.drive ≡ label → r.epoch ≡ epoch → r.generation < g) rows
    → anchor_at label epoch g rows ≡ none
unfolding anchor_at
anchor_at-none label epoch g [] h = refl
anchor_at-none label epoch g (r ∷ rows) (p, ps) = elim (Bool-cases (anchor_is label epoch g r)) [
  | inl e ↦
      let below = p (ground (arith, eq_iff r.drive label)) (ground (arith, eq_iff r.drive label)) in
      absurd (ground (arith, eq_iff r.drive label))
  | inr e ↦ rw e (anchor_at-none label epoch g rows ps)
]

pub advance-IsDirty :
    (s t : Store) (label : String) (g : ℕ) → Bounded s → Advanced s t label g → IsDirty t label
advance-IsDirty s t label g b a = record {
  drive = record a.before { write_generation = g };
  here =
      subst (λ q. get label q ≡ some (record a.before { write_generation = g })) (sym a.drives)
        (ground (
          arith,
          get-put label label (record a.before { write_generation = g }) s.drives,
          eq_refl label,
        ));
  begun = omega (arith, a.number);
  no_anchor =
      subst (λ q. anchor_at label a.before.identity_epoch g q ≡ none) (sym a.anchors)
        (anchor_at-none label a.before.identity_epoch g s.anchors (
          All-weaken _ _ s.anchors
            (λ r w k e.
              let le =
                w a.before (subst (λ q. get q s.drives ≡ some a.before) (sym k) a.here) (sym e) in
              omega (arith, a.number, le))
            b.anchors));
}
