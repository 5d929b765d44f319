-- ===== src/Mutation/Closes.antt =====
-- What an advance of modelark/drive_mutation.py leaves behind, and what it keeps out until there is an
-- anchor.
use modelark.Prelude.{
  ℕ, ◌+◌, ◌<◌, ◌≡◌, refl, sym, ◌∙◌, ap, subst, String, Option, none, some, Bool, true, false, ◌==◌,
  arith, Bool-cases, inl, inr, ◌⊎◌, is_some, eq_iff,
}
use modelark.Prelude.Dict.{get, get-put}
use modelark.Mutation.{
  Drive, Store, Refusal, ok, Observation, anchor_is, anchor_at, advance_one, publish_anchor_locked,
}
use modelark.Mutation.Generations.{Bounded, advance_one-Advanced, publish-Published}
use modelark.Mutation.Invariant.{advance-IsDirty}
use modelark.Mutation.Bracket.{accepted, Reaches, here, advance, publish, IsDirty-refuses}

some-same : (a b : Drive) → some a ≡ some b → a ≡ b
some-same a b h = cc

module _ (blocks : String → Bool → Option Refusal) where
  -- The generation of the drive has an anchor, or the drive is still at it and it has none.
  abbrev Waits : String → Drive → Store → Type 0
  Waits label d u =
      (is_some (anchor_at label d.identity_epoch d.write_generation u.anchors) ≡ true)
      ⊎ ((get label u.drives ≡ some d)
          × (anchor_at label d.identity_epoch d.write_generation u.anchors ≡ none))

  advance-Waits :
      (t u : Store) (label : String) (d : Drive) (k : String) (g : ℕ) (operation : String)
      (captured : Option Drive) (session : Option String) (token : Option ℕ)
      → 0 < d.write_generation
      → advance_one blocks t k operation captured session token ≡ ok (u, g)
      → Waits label d t
      → Waits label d u
  advance-Waits t u label d k g operation captured session token pos h (inl a) =
      let moved = advance_one-Advanced blocks t u k operation captured session token g h in
      inl (
        subst (λ q. is_some (anchor_at label d.identity_epoch d.write_generation q) ≡ true)
          (sym moved.anchors) a)
  advance-Waits t u label d k g operation captured session token pos h (inr (e, n)) =
      let moved = advance_one-Advanced blocks t u k operation captured session token g h in
      elim (Bool-cases (k == label)) [
        | inl same ↦
            let here : get k t.drives ≡ some d =
              subst (λ i. get i t.drives ≡ some d) (sym ((eq_iff k label).0 same)) e in
            let none_at : anchor_at k d.identity_epoch d.write_generation t.anchors ≡ none =
              subst (λ i. anchor_at i d.identity_epoch d.write_generation t.anchors ≡ none)
                (sym ((eq_iff k label).0 same)) n in
            let no =
              IsDirty-refuses blocks t k operation captured session token
                (record { drive = d; here = here; begun = pos; no_anchor = none_at }) in
            let yes = rw h at no in cc
        | inr other ↦ inr (
          subst (λ q. get label q ≡ some d) (sym moved.drives)
              (ground (
                arith,
                get-put k label (record moved.before { write_generation = g }) t.drives,
                e,
              )),
          subst (λ q. anchor_at label d.identity_epoch d.write_generation q ≡ none)
              (sym moved.anchors) n,
        )
      ]

  publish-Waits :
      (t u : Store) (label : String) (d : Drive) (k : String) (epoch g : ℕ) (o : Observation)
      → publish_anchor_locked blocks t k epoch g o ≡ ok u
      → Waits label d t
      → Waits label d u
  unfolding anchor_at
  publish-Waits t u label d k epoch g o h w =
      let p = publish-Published blocks t u k epoch g o h in
      subst
        (λ q.
          (is_some (anchor_at label d.identity_epoch d.write_generation q) ≡ true)
          ⊎ ((get label u.drives ≡ some d)
              × (anchor_at label d.identity_epoch d.write_generation q ≡ none)))
        (sym p.anchors)
        (elim (Bool-cases (anchor_is label d.identity_epoch d.write_generation p.row)) [
          | inl e ↦ rw e (inl refl)
          | inr e ↦ elim w [
            | inl a ↦ rw e (inl a)
            | inr (f, n) ↦ rw e (inr (subst (λ q. get label q ≡ some d) (sym p.drives) f, n))
          ]
        ])

  Reaches-Waits :
      (t u : Store) (label : String) (d : Drive)
      → 0 < d.write_generation
      → Reaches blocks t u
      → Waits label d t
      → Waits label d u
  Reaches-Waits t u label d pos r w =
      elim r as (λ t u r. Waits label d t → Waits label d u) [
        | here s ↦ λ w. w
        | advance s t u k operation captured session token g (r → ih) e ↦
            λ w. advance-Waits t u label d k g operation captured session token pos e (ih w)
        | publish s t u k epoch g o (r → ih) e ↦ λ w. publish-Waits t u label d k epoch g o e (ih w)
      ]
        w

  refused-while :
      (u : Store) (label operation : String) (d : Drive) (captured : Option Drive)
      (session : Option String) (token : Option ℕ)
      → 0 < d.write_generation
      → anchor_at label d.identity_epoch d.write_generation u.anchors ≡ none
      → Waits label d u
      → accepted (advance_one blocks u label operation captured session token) ≡ false
  refused-while u label operation d captured session token pos n (inl a) = let b = rw n at a in cc
  refused-while u label operation d captured session token pos n (inr (e, m)) =
      IsDirty-refuses blocks u label operation captured session token
        (record { drive = d; here = e; begun = pos; no_anchor = n })

  -- In a store where no dirty row and no anchor is above the generation of its drive, an advance that
  -- goes through moves the drive to the generation after its last one and changes nothing else of it;
  -- the new generation has no anchor. And whatever advances and anchors follow, on whatever drives,
  -- every further advance on the drive is refused, whoever asks, as long as it has no anchor.
  pub advance_one-closes :
      (s t u : Store) (label operation : String) (captured : Option Drive) (session : Option String)
      (token : Option ℕ) (g : ℕ) (d : Drive)
      → Bounded s
      → get label s.drives ≡ some d
      → advance_one blocks s label operation captured session token ≡ ok (t, g)
      → Reaches blocks t u
      → anchor_at label d.identity_epoch g u.anchors ≡ none
      → (g ≡ d.write_generation + 1)
        × (get label t.drives ≡ some (record d { write_generation = g }))
        × (anchor_at label d.identity_epoch g t.anchors ≡ none)
        × ((again : String) (c : Option Drive) (sid : Option String) (tok : Option ℕ)
            → accepted (advance_one blocks u label again c sid tok) ≡ false)
  advance_one-closes s t u label operation captured session token g d b e h r n =
      let moved = advance_one-Advanced blocks s t label operation captured session token g h in
      let same : moved.before ≡ d = some-same moved.before d (sym moved.here ∙ e) in
      let dirty = advance-IsDirty s t label g b moved in
      let number : g ≡ d.write_generation + 1 = ground (arith, moved.number, same) in
      let now : Drive = record d { write_generation = g } in
      let there : get label t.drives ≡ some now =
        subst (λ q. get label q ≡ some now) (sym moved.drives)
          (ground (
            arith,
            get-put label label (record moved.before { write_generation = g }) s.drives,
            eq_iff label label,
          )
            ∙ ap {A = Drive} (λ x. some (record x { write_generation = g })) same) in
      let none_now : anchor_at label d.identity_epoch g t.anchors ≡ none =
        subst (λ x. anchor_at label x.identity_epoch x.write_generation t.anchors ≡ none)
          (some-same dirty.drive now (sym dirty.here ∙ there)) dirty.no_anchor in
      (
        number,
        there,
        none_now,
        λ again c sid tok.
            refused-while u label again now c sid tok (omega (arith, number)) n
              (Reaches-Waits t u label now (omega (arith, number)) r (inr (there, none_now))),
      )
