-- ===== src/Placement/Gate/Improve.antt =====
-- The placement that improve of modelark/placement.py returns.
use modelark.Prelude.{ℕ, ◌≡◌, refl, Option, none, some, Bool, true, is_some, get_or}
use modelark.Placement.{SolverInput, CanonicalAssignment}
use modelark.Placement.Partial.{KeyPart}
use modelark.Placement.Order.{is_comparable}
use modelark.Placement.Search.Invariant.{IdsMatch}
use modelark.Placement.Assignment.{SearchResult, search}
use modelark.Placement.Assignment.Total.{search_total}
use modelark.Placement.Assignment.Solution.{Solves, search-Solution}
use modelark.Placement.Gate.{free_map, improve, PlacementResult}

module _ (part_hash : KeyPart → ℕ) (emergency : ℕ → Bool) (inp : SolverInput)
    (first : CanonicalAssignment) where
  best-Solves :
      (r : SearchResult) (o : Option CanonicalAssignment)
      → ((a : CanonicalAssignment) → o ≡ some a → Solves inp (free_map inp) a)
      → Solves inp (free_map inp) first
      → Solves inp (free_map inp) (get_or o first)
  best-Solves r none s k = k
  best-Solves r (some a) s k = s a refl

  by_search :
      (o : Option (Option SearchResult))
      → search inp (free_map inp) part_hash inp.bounds.optimization_state_limit true emergency ≡ o
      → is_some o ≡ true
      → IdsMatch inp
      → Solves inp (free_map inp) first
      → (p : PlacementResult) × (improve part_hash emergency inp first ≡ some p)
        × Solves inp (free_map inp) p.assignment
  unfolding improve
  by_search none e t ids s = cc
  by_search (some none) e t ids s = rw (e, improve) (_, refl, s)
  by_search (some (some r)) e t ids s =
      rw (e, improve)
        (
          _,
          refl,
          best-Solves r r.best (search-Solution inp (free_map inp) part_hash ids _ _ _ r e).best s,
        )

  -- Where each candidate carries the id it is listed under and the sources of the candidates of each
  -- requirement can be compared, improve returns a placement whatever its monitor does, and it is a
  -- solution within the executable budgets when the first feasible assignment is one.
  pub improve-Solves :
      is_comparable inp ≡ true
      → IdsMatch inp
      → Solves inp (free_map inp) first
      → (p : PlacementResult) × (improve part_hash emergency inp first ≡ some p)
        × Solves inp (free_map inp) p.assignment
  improve-Solves c ids s =
      by_search _ refl (search_total inp (free_map inp) part_hash _ true emergency c) ids s
