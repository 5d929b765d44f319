-- ===== src/Capacity/Plan/Spaces.antt =====
-- The budgets that _build_solver_input of modelark/capacity.py gives to the solver.
use modelark.Prelude.{
  ℕ, ◌≤◌, ◌≡◌, sym, subst, String, Option, some, false, List, [], ◌∷◌, All, All-map, All-weaken,
  arith, Bool-cases, Option-cases, inl, inr, map, contains, if◌then◌else◌, eq_iff, eq_refl,
}
use modelark.Prelude.Dict.{Dict, get, put, count_at, count_at-put}
use modelark.Prelude.Sort.{Distinct, All-sort}
use modelark.Candidates.{DriveFact}
use modelark.Placement.{SolverBounds, SuccessorPreference, DriveEvidenceFact, as_map}
use modelark.Placement.Lookup.{as_map-Entries}
use modelark.Placement.Gate.{free_map, zero_unproven}
use modelark.Capacity.{CapacityMode, CapacityDrive, usable_now}
use modelark.Capacity.Failures.{labels_of}
use modelark.Capacity.Plan.{ReconcileResult, build_solver_input, executable_of, by_label}

-- what the drive of a label offers now
abbrev pub usable_at : String → List CapacityDrive → ℕ
usable_at lab drives = count_at lab (map (λ d. (d.drive_label, usable_now d)) drives)

zero_unproven-le :
    (free : Dict ℕ) (evs : List (String × DriveEvidenceFact)) (lab : String)
    → count_at lab (zero_unproven free evs) ≤ count_at lab free
unfolding zero_unproven
zero_unproven-le free [] lab = omega arith
zero_unproven-le free ((l, ev) ∷ evs) lab =
    let rest = zero_unproven-le (if ev.executable then free else put l 0 free) evs lab in
    elim (Bool-cases ev.executable) [
      | inl e ↦ rw e (rw e at rest)
      | inr e ↦ rw e (ground (arith, rw e at rest, count_at-put l lab 0 free))
    ]

-- Where no label is listed twice, the drive of a member's label is that member.
pub usable_at_self :
    (drives : List CapacityDrive)
    → Distinct (labels_of drives)
    → All (λ d. usable_at d.drive_label drives ≡ usable_now d) drives
unfolding get
usable_at_self [] d = tt
usable_at_self (x ∷ xs) (h, d) =
    (ground (arith, eq_refl x.drive_label), others xs (usable_at_self xs d) h)
  where
    others :
        (ys : List CapacityDrive)
        → All (λ y. usable_at y.drive_label xs ≡ usable_now y) ys
        → contains (labels_of ys) x.drive_label ≡ false
        → All (λ y. usable_at y.drive_label (x ∷ xs) ≡ usable_now y) ys
    others [] ps h = tt
    others (y ∷ ys) (p, ps) h = (
      ground (arith, p, eq_iff x.drive_label y.drive_label, eq_refl y.drive_label),
      others ys ps (ground arith),
    )

executable-le :
    (pref : Option SuccessorPreference) (d : CapacityDrive) → executable_of pref d ≤ usable_now d
unfolding executable_of
executable-le pref d = ground arith

module _ (pref : Option SuccessorPreference) (drives : List CapacityDrive) where
  abbrev Within : String → ℕ → Type 0
  Within lab n = n ≤ usable_at lab drives

  budgets-Within :
      Distinct (labels_of drives)
      → All
          (λ e. Within e.0 e.1)
          (by_label (map (λ d. (d.drive_label, executable_of pref d)) drives))
  budgets-Within d =
      All-sort _ (λ e. Within e.0 e.1) _
        (All-map (λ e. Within e.0 e.1) (λ d. (d.drive_label, executable_of pref d)) drives
          (All-weaken _ _ drives
            (λ x e. subst (λ n. executable_of pref x ≤ n) (sym e) (executable-le pref x))
            (usable_at_self drives d)))

  at-Within :
      (m : Dict ℕ) (lab : String)
      → ((k : String) (v : ℕ) → get k m ≡ some v → Within k v)
      → count_at lab m ≤ usable_at lab drives
  at-Within m lab f = elim (Option-cases (get lab m)) [
    | inl e ↦ rw e (omega arith)
    | inr (v, e) ↦ rw e (f lab v e)
  ]

-- Where no label is listed twice, no budget that the solver searches with passes what the evidence of
-- the drive offers now, and a label without a drive has none.
pub free_map-usable :
    (bounds : SolverBounds) (pref : Option SuccessorPreference) (mode : CapacityMode)
    (r : ReconcileResult) (drives : List CapacityDrive) (facts : List DriveFact)
    → Distinct (labels_of drives)
    → (lab : String)
    → count_at lab (free_map (build_solver_input bounds pref mode r drives facts))
      ≤ usable_at lab drives
unfolding free_map build_solver_input
free_map-usable bounds pref mode r drives facts d lab =
    let pairs = by_label (map (λ d. (d.drive_label, executable_of pref d)) drives) in
    let known =
      at-Within pref drives (as_map pairs) lab
        (as_map-Entries (Within pref drives) pairs (budgets-Within pref drives d)) in
    omega (arith, known, zero_unproven-le (as_map pairs) _ lab)
