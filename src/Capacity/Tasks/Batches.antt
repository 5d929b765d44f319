-- ===== src/Capacity/Tasks/Batches.antt =====
-- The drives in the order that _batch_order of modelark/capacity.py gives them.
use modelark.Prelude.{
  String, ◌≡◌, refl, sym, ◌∙◌, ap, subst, List, [], ◌∷◌, map, contains, arith, ◌||◌, ◌==◌, eq_iff,
  Bool-cases, inl, inr, Option-cases, some, Bool, true, all,
}
use modelark.Prelude.Dict.{Dict, get, put, has, keys, get-put, contains-keys}
use modelark.Prelude.Sort.{Distinct, contains-map-sort, Distinct-map-sort}
use modelark.Planner.{ManifestFile}
use modelark.Capacity.{AssignedTask}
use modelark.Capacity.Tasks.{Rank, by_drive, batch_order, batch_before, least, execution_rank}

keys-map : (m : Dict Rank) → map (λ e. e.0) m ≡ keys m
keys-map [] = refl
keys-map ((k, r) ∷ m) = ap (◌∷◌ k) (keys-map m)

has-put : (k j : String) (r : Rank) (m : Dict Rank) → has j (put k r m) ≡ ((k == j) || has j m)
has-put k j r m = ground (arith, get-put k j r m)

Distinct-put :
    (k : String) (r : Rank) (m : Dict Rank) → Distinct (keys m) → Distinct (keys (put k r m))
unfolding put
Distinct-put k r [] d = (refl, tt)
Distinct-put k r ((j, v) ∷ m) (h, d) = elim (Bool-cases (j == k)) [
  | inl e ↦ rw e (h, d)
  | inr e ↦ rw e (
    contains-keys j (put k r m)
        ∙ has-put k j r m
        ∙ ground (arith, contains-keys j m, eq_iff j k, eq_iff k j),
    Distinct-put k r m d,
  )
]

module _ (manifests : Dict (List ManifestFile)) where
  -- The repository of the task has a manifest.
  abbrev pub has_manifest : AssignedTask → Bool
  has_manifest t = has t.repo_id manifests

  has-by_drive :
      (k : String) (ts : List AssignedTask) (found m : Dict Rank)
      → by_drive manifests ts found ≡ some m
      → has k m ≡ (contains (map (λ t. t.target_drive) ts) k || has k found)
  unfolding by_drive
  has-by_drive k [] found m h = let e : found ≡ m = cc in ap (has k) (sym e)
  has-by_drive k (t ∷ ts) found m h = elim (Option-cases (execution_rank manifests t)) [
    | inl e ↦ let g = rw (e, by_drive) at h in cc
    | inr (rank, e) ↦
        let r = least rank (get t.target_drive found) in
        ground (
          arith,
          has-by_drive k ts (put t.target_drive r found) m (rw (e, by_drive) at h),
          has-put t.target_drive k r found,
        )
  ]

  Distinct-by_drive :
      (ts : List AssignedTask) (found m : Dict Rank)
      → by_drive manifests ts found ≡ some m
      → Distinct (keys found)
      → Distinct (keys m)
  unfolding by_drive
  Distinct-by_drive [] found m h d = let e : found ≡ m = cc in subst (λ x. Distinct (keys x)) e d
  Distinct-by_drive (t ∷ ts) found m h d = elim (Option-cases (execution_rank manifests t)) [
    | inl e ↦ let g = rw (e, by_drive) at h in cc
    | inr (rank, e) ↦
        Distinct-by_drive ts _ m (rw (e, by_drive) at h) (Distinct-put t.target_drive _ found d)
  ]

  by_drive-some :
      (ts : List AssignedTask) (found : Dict Rank)
      → all has_manifest ts ≡ true
      → (m : Dict Rank) × (by_drive manifests ts found ≡ some m)
  unfolding by_drive execution_rank
  by_drive-some [] found h = (found, refl)
  by_drive-some (t ∷ ts) found h = elim (Option-cases (get t.repo_id manifests)) [
    | inl e ↦ let g = rw e at h in cc
    | inr (manifest, e) ↦ rw (e, execution_rank, by_drive) (by_drive-some ts _ (ground (arith, h)))
  ]

  -- Where the repository of every task has a manifest, there is a batch order; it names every drive
  -- that a task writes to, and no other, and each of them once.
  pub batch_order_exact :
      (tasks : List AssignedTask)
      → all has_manifest tasks ≡ true
      → (order : List String) × (batch_order manifests tasks ≡ some order)
        × Distinct order
        × ((lab : String) → contains order lab ≡ contains (map (λ t. t.target_drive) tasks) lab)
  unfolding batch_order get
  batch_order_exact tasks h =
      let (m, e) = by_drive-some tasks [] h in
      rw (e, batch_order)
        (
          _,
          refl,
          Distinct-map-sort batch_before (λ e. e.0) m
              (subst Distinct (sym (keys-map m)) (Distinct-by_drive tasks [] m e tt)),
          λ lab.
              contains-map-sort batch_before (λ e. e.0) lab m
              ∙ ap (λ ks. contains ks lab) (keys-map m)
              ∙ contains-keys lab m
              ∙ has-by_drive lab tasks [] m e
              ∙ ground arith,
        )
