-- ===== src/Placement/Lookup.antt =====
-- The entries of the map that _as_map of modelark/placement.py makes of pairs.
use modelark.Prelude.{
  String, ◌≡◌, some, List, [], ◌∷◌, All, arith, eq_iff, ◌==◌, subst, Bool-cases, inl, inr,
  if◌then◌else◌, ◌∙◌, refl, Option-cases,
}
use modelark.Prelude.Dict.{Dict, get, put, get-put, keys, has, contains-keys}
use modelark.Prelude.Sort.{Distinct}
use modelark.Placement.{as_map, put_all}

module _ {ℓ κ} {A : Type ℓ} (P : String → A → Type κ) where
  -- every entry of the dict
  abbrev Entries : Dict A → Type (ℓ ⊔ κ)
  Entries m = (k : String) (v : A) → get k m ≡ some v → P k v

  put-Entries : (k : String) (v : A) (m : Dict A) → P k v → Entries m → Entries (put k v m)
  put-Entries k v m p e j w h = elim (Bool-cases (k == j)) [
    | inl q ↦
        let same_key : k ≡ j = ground (arith, eq_iff k j) in
        let same_value : v ≡ w = ground (arith, get-put k j v m) in
        subst (λ x. P x w) same_key (subst (P k) same_value p)
    | inr q ↦ e j w (ground (arith, get-put k j v m))
  ]

  put_all-Entries :
      (m : Dict A) (pairs : List (String × A))
      → Entries m
      → All (λ e. P e.0 e.1) pairs
      → Entries (put_all m pairs)
  unfolding put_all
  put_all-Entries m [] e a = e
  put_all-Entries m ((k, v) ∷ rest) e (p, a) =
      put_all-Entries (put k v m) rest (put-Entries k v m p e) a

  pub as_map-Entries :
      (pairs : List (String × A)) → All (λ e. P e.0 e.1) pairs → Entries (as_map pairs)
  unfolding as_map get
  as_map-Entries pairs a = put_all-Entries [] pairs (λ k v h. ground arith) a

module _ {ℓ} {A : Type ℓ} where
  put_all-Distinct :
      (k : String) (m : Dict A) (pairs : List (String × A))
      → Distinct (keys pairs)
      → get k (put_all m pairs) ≡ (if has k pairs then get k pairs else get k m)
  unfolding put_all get
  put_all-Distinct k m [] d = refl
  put_all-Distinct k m ((j, v) ∷ rest) (h, d) = ground (
    arith,
    put_all-Distinct k (put j v m) rest d,
    get-put j k v m,
    contains-keys k rest,
    eq_iff j k,
  )

  -- Where no key is listed twice, the map has the pairs as they are.
  pub get-as_map :
      (k : String) (pairs : List (String × A))
      → Distinct (keys pairs)
      → get k (as_map pairs) ≡ get k pairs
  unfolding as_map get
  get-as_map k pairs d =
      put_all-Distinct k [] pairs d
      ∙ (elim (Option-cases (get k pairs)) [ inl e ↦ rw e refl | inr (v, e) ↦ rw e refl ])
