-- ===== src/Placement/Assignment/Keyed.antt =====
-- The dict of assignments of a search node of modelark/placement.py: its ids, and folds over them.
use modelark.Prelude.{
  ℕ, ◌≡◌, refl, sym, ◌∙◌, ap, ap₂, String, Option, none, some, true, false, List, [], ◌∷◌, ◌++◌,
  All, arith, contains, is_some, eq_iff, ◌==◌, ◌||◌,
}
use modelark.Prelude.Dict.{Dict, get, has, keys, get-append, contains-keys, keys-append}
use modelark.Prelude.Sort.{Distinct}
use modelark.Prelude.Fold.{fold_by, fold_by_snoc, fold_by_cong, IsFold}
use modelark.Candidates.{Candidate}
use modelark.Placement.Partial.Ledger.{keyed}

-- No requirement is assigned twice.
abbrev pub Fresh : List Candidate → Type 0
Fresh [] = Unit
Fresh (c ∷ cs) = (get c.requirement_id (keyed cs) ≡ none) × Fresh cs

pub id-keyed :
    (cs : List Candidate) (rid : String) (c : Candidate)
    → get rid (keyed cs) ≡ some c
    → c.requirement_id ≡ rid
unfolding get
id-keyed [] rid c h = cc
id-keyed (d ∷ cs) rid c h = ground (
  arith,
  get-append d.requirement_id rid d (keyed cs),
  id-keyed cs rid c,
  eq_iff d.requirement_id rid,
)

All-keys :
    (m : Dict Candidate) (xs : List String)
    → ((k : String) → contains xs k ≡ true → has k m ≡ true)
    → All (λ k. has k m ≡ true) xs
All-keys m [] h = tt
All-keys m (x ∷ xs) h =
    (h x (ground (arith, eq_iff x x)), All-keys m xs (λ k e. h k (ground arith)))

pub has-keys : (m : Dict Candidate) → All (λ k. has k m ≡ true) (keys m)
has-keys m = All-keys m (keys m) (λ k e. sym (contains-keys k m) ∙ e)

contains_snoc :
    (xs : List String) (k j : String) → contains (xs ++ k ∷ []) j ≡ (contains xs j || (k == j))
contains_snoc [] k j = ground arith
contains_snoc (x ∷ xs) k j = ground (arith, contains_snoc xs k j)

Distinct_snoc :
    (xs : List String) (k : String) → contains xs k ≡ false → Distinct xs → Distinct (xs ++ k ∷ [])
Distinct_snoc [] k h d = (refl, tt)
Distinct_snoc (x ∷ xs) k h (e, d) = (
  ground (arith, contains_snoc xs k x, eq_iff x k, eq_iff k x),
  Distinct_snoc xs k (ground arith) d,
)

pub keys-keyed-Distinct : (cs : List Candidate) → Fresh cs → Distinct (keys (keyed cs))
keys-keyed-Distinct [] f = tt
keys-keyed-Distinct (c ∷ cs) (h, f) = rw (keys-append c.requirement_id c (keyed cs)) (
    Distinct_snoc (keys (keyed cs)) c.requirement_id
      (contains-keys c.requirement_id (keyed cs) ∙ ap is_some h) (keys-keyed-Distinct cs f))

module _ {op : ℕ → ℕ → ℕ} (laws : IsFold op) (h : Option Candidate → ℕ) where
  get_earlier :
      (c : Candidate) (m : Dict Candidate) (xs : List String)
      → All (λ k. has k m ≡ true) xs
      → All (λ k. h (get k (m ++ (c.requirement_id, c) ∷ [])) ≡ h (get k m)) xs
  get_earlier c m [] a = tt
  get_earlier c m (x ∷ xs) (e, a) =
      (ap h (ground (arith, get-append c.requirement_id x c m)), get_earlier c m xs a)

  -- A fold over the ids of the dict is a fold over the candidates.
  pub fold_by-keyed :
      (cs : List Candidate)
      → Fresh cs
      → fold_by op (λ k. h (get k (keyed cs))) (keys (keyed cs)) ≡ fold_by op (λ c. h (some c)) cs
  unfolding fold_by
  fold_by-keyed [] f = refl
  fold_by-keyed (c ∷ cs) (e, f) = rw (keys-append c.requirement_id c (keyed cs)) (
      fold_by_snoc laws (λ k. h (get k (keyed (c ∷ cs)))) (keys (keyed cs)) c.requirement_id
      ∙ ap₂ op
          (ap h (
            ground (
              arith,
              get-append c.requirement_id c.requirement_id c (keyed cs),
              eq_iff c.requirement_id c.requirement_id,
            )))
          (fold_by_cong op _ _ (keys (keyed cs))
              (get_earlier c (keyed cs) (keys (keyed cs)) (has-keys (keyed cs)))
            ∙ fold_by-keyed cs f))
