-- ===== src/Placement/Structural/Refuses.antt =====
-- The codes of the checks of _structural in modelark/placement.py.
use modelark.Prelude.{
  ◌≡◌, refl, String, Option, none, some, Bool, true, false, List, [], ◌∷◌, arith, Option-cases, inl,
  inr,
}
use modelark.Candidates.{CopyRequirement}
use modelark.Placement.{SolverInput}
use modelark.Placement.Structural.{
  GateCode, feasible, blocked_check, reference_check, cycle_check, visit, visit_fuel, domain_check,
  size_check, or_else, after_cycles, structural, sorted_reqs,
}

-- The check does not answer that the plan is feasible.
abbrev Refuses : Option GateCode → Type 0
Refuses o = o ≡ some feasible → ⊥

or_else-Refuses : (a b : Option GateCode) → Refuses a → Refuses b → Refuses (or_else a b)
or_else-Refuses none b p q = q
or_else-Refuses (some a) b p q = p

module _ (inp : SolverInput) where
  blocked_check-Refuses : (rs : List CopyRequirement) → Refuses (blocked_check inp rs)
  unfolding blocked_check
  blocked_check-Refuses [] h = cc
  blocked_check-Refuses (r ∷ rs) h = ground (arith, blocked_check-Refuses rs)

  reference_check-Refuses : (rs : List CopyRequirement) → Refuses (reference_check inp rs)
  unfolding reference_check
  reference_check-Refuses [] h = cc
  reference_check-Refuses (r ∷ rs) h = ground (arith, reference_check-Refuses rs)

  domain_check-Refuses : (rs : List CopyRequirement) → Refuses (domain_check inp rs)
  unfolding domain_check
  domain_check-Refuses [] h = cc
  domain_check-Refuses (r ∷ rs) h = ground (arith, domain_check-Refuses rs)

  size_check-Refuses : (rs : List CopyRequirement) → Refuses (size_check inp rs)
  unfolding size_check
  size_check-Refuses [] h = cc
  size_check-Refuses (r ∷ rs) h = ground (arith, size_check-Refuses rs)

  abbrev Refuses2 : Option (Option GateCode) → Type 0
  Refuses2 o = o ≡ some (some feasible) → ⊥

  cycle_check-Refuses :
      (seen : List String) (rs : List CopyRequirement) → Refuses2 (cycle_check inp seen rs)
  unfolding cycle_check
  cycle_check-Refuses seen [] h = cc
  cycle_check-Refuses seen (r ∷ rs) h = by_visit (λ s. cycle_check-Refuses s rs) _ refl
    where
      by_visit :
          ((s : List String) → Refuses2 (cycle_check inp s rs))
          → (o : Option (Bool × List String))
          → visit inp (visit_fuel inp) [] seen r.requirement_id ≡ o
          → ⊥
      by_visit rest none e = ground (arith, e)
      by_visit rest (some (true, s)) e = ground (arith, e)
      by_visit rest (some (false, s)) e = ground (arith, e, rest s)

  by_cycles : (o : Option (Option GateCode)) → Refuses2 o → Refuses2 (after_cycles inp o)
  unfolding after_cycles
  by_cycles none p h = cc
  by_cycles (some (some c)) p h = p h
  by_cycles (some none) p h =
      or_else-Refuses _ _ (domain_check-Refuses (sorted_reqs inp))
        (size_check-Refuses (sorted_reqs inp)) cc

  -- The structural checks never answer that the plan is feasible.
  pub structural-Refuses : structural inp ≡ some (some feasible) → ⊥
  unfolding structural
  structural-Refuses h = elim (Option-cases early) [
    | inl e ↦ by_cycles _ (cycle_check-Refuses [] (sorted_reqs inp)) (ground (arith, e))
    | inr (c, e) ↦
        or_else-Refuses _ _ (blocked_check-Refuses (sorted_reqs inp))
          (reference_check-Refuses (sorted_reqs inp)) (ground (arith, e))
  ]
    where
      early : Option GateCode
      early = or_else (blocked_check inp (sorted_reqs inp)) (reference_check inp (sorted_reqs inp))
