-- ===== src/Prelude/Dict.antt =====
-- Python's `dict` with text keys, as an association list in insertion order.
use modelark.Prelude.{
  String, ◌≡◌, refl, List, [], ◌∷◌, Option, none, some, Bool, arith, ◌==◌, eq_iff, if◌then◌else◌,
  get_or, eqb, ◌++◌, eq_refl, ℕ, contains, ap, is_some,
}

abbrev pub Dict {ℓ} : Type ℓ → Type ℓ
Dict V = List (String × V)

-- list(d)
abbrev pub keys {ℓ} : {A : Type ℓ} → Dict A → List String
keys [] = []
keys ((k, v) ∷ m) = k ∷ keys m

module _ {ℓ} {V : Type ℓ} where
  -- d.get(k)
  unfoldable pub get : String → List (String × V) → Option V
  get k [] = none
  get k ((j, v) ∷ m) = if j == k then some v else get k m

  -- k in d
  abbrev pub has : String → List (String × V) → Bool
  has k m = is_some (get k m)

  -- d[k] = v
  unfoldable pub put : String → V → List (String × V) → List (String × V)
  put k v [] = (k, v) ∷ []
  put k v ((j, w) ∷ m) = let rest = put k v m in if j == k then (j, v) ∷ m else (j, w) ∷ rest

  -- d.pop(k, None), del d[k]
  unfoldable pub del : String → List (String × V) → List (String × V)
  del k [] = []
  del k ((j, v) ∷ m) = let rest = del k m in if j == k then rest else (j, v) ∷ rest

  pub get-put :
      (k j : String) (v : V) (m : List (String × V))
      → get j (put k v m) ≡ (if k == j then some v else get j m)
  unfolding get put
  get-put k j v [] = refl
  get-put k j v ((i, w) ∷ m) = ground (arith, eq_iff k j, eq_iff i k, eq_iff i j, get-put k j v m)

  pub get-del :
      (k j : String) (m : List (String × V)) → get j (del k m) ≡ (if k == j then none else get j m)
  unfolding get del
  get-del k j [] = ground arith
  get-del k j ((i, w) ∷ m) = ground (arith, eq_iff k j, eq_iff i k, eq_iff i j, get-del k j m)

  pub put_fresh :
      (k : String) (v : V) (m : List (String × V)) → get k m ≡ none → put k v m ≡ m ++ (k, v) ∷ []
  unfolding get put
  put_fresh k v [] h = refl
  put_fresh k v ((i, w) ∷ m) h = ground (arith, put_fresh k v m)

  pub del_fresh : (k : String) (m : List (String × V)) → get k m ≡ none → del k m ≡ m
  unfolding get del
  del_fresh k [] h = refl
  del_fresh k ((i, w) ∷ m) h = ground (arith, del_fresh k m)

  -- Deleting the key that was added last gives back the dict as it was.
  pub del-append :
      (k : String) (v : V) (m : List (String × V)) → get k m ≡ none → del k (m ++ (k, v) ∷ []) ≡ m
  unfolding get del
  del-append k v [] h = simp eq_refl
  del-append k v ((i, w) ∷ m) h = ground (arith, del-append k v m)

  pub get-append :
      (k j : String) (v : V) (m : List (String × V))
      → get j (m ++ (k, v) ∷ [])
        ≡ (if is_some (get j m) then get j m else if k == j then some v else none)
  unfolding get
  get-append k j v [] = refl
  get-append k j v ((i, w) ∷ m) = ground (arith, get-append k j v m)

  pub contains-keys : (k : String) (m : List (String × V)) → contains (keys m) k ≡ has k m
  unfolding get
  contains-keys k [] = refl
  contains-keys k ((i, w) ∷ m) = ground (arith, contains-keys k m)

  pub keys-append :
      (k : String) (v : V) (m : List (String × V)) → keys (m ++ (k, v) ∷ []) ≡ keys m ++ k ∷ []
  keys-append k v [] = refl
  keys-append k v ((i, w) ∷ m) = ap (◌∷◌ i) (keys-append k v m)

-- d.get(k, 0)
abbrev pub count_at : String → Dict ℕ → ℕ
count_at k m = get_or (get k m) 0

-- d.pop(k, None) when the old value is 0, else d[k] = old
abbrev pub restore : String → ℕ → Dict ℕ → Dict ℕ
restore k old m = if eqb old 0 then del k m else put k old m

pub count_at-put :
    (k j : String) (v : ℕ) (m : Dict ℕ)
    → count_at j (put k v m) ≡ (if k == j then v else count_at j m)
count_at-put k j v m = ground (arith, get-put k j v m)

pub count_at-restore :
    (k j : String) (old : ℕ) (m : Dict ℕ)
    → count_at j (restore k old m) ≡ (if k == j then old else count_at j m)
count_at-restore k j old m = ground (arith, get-put k j old m, get-del k j m)
