-- ===== src/Prelude/Pigeonhole.antt =====
-- Distinct texts out of a list, counted.
use modelark.Prelude.{
  ◌≤◌, ◌<◌, ◌≡◌, String, true, false, not, ◌&&◌, List, [], ◌∷◌, ◌==◌, eq_iff, All, arith, contains,
  select, length,
}
use modelark.Prelude.Sort.{Distinct}

abbrev without : String → List String → List String
without x ys = select (λ y. not (y == x)) ys

contains-without :
    (x z : String) (ys : List String) → contains (without x ys) z ≡ (contains ys z && not (z == x))
contains-without x z [] = ground arith
contains-without x z (y ∷ ys) =
    ground (arith, contains-without x z ys, eq_iff y x, eq_iff z x, eq_iff y z)

without-le : (x : String) (ys : List String) → length (without x ys) ≤ length ys
without-le x [] = omega arith
without-le x (y ∷ ys) = ground (arith, without-le x ys)

without-lt :
    (x : String) (ys : List String) → contains ys x ≡ true → length (without x ys) < length ys
without-lt x [] h = cc
without-lt x (y ∷ ys) h = ground (arith, without-le x ys, without-lt x ys, eq_iff y x)

All-without :
    (x : String) (xs ys : List String)
    → contains xs x ≡ false
    → All (λ z. contains ys z ≡ true) xs
    → All (λ z. contains (without x ys) z ≡ true) xs
All-without x [] ys h a = tt
All-without x (z ∷ xs) ys h (e, a) =
    (ground (arith, contains-without x z ys, eq_iff z x), All-without x xs ys (ground arith) a)

pub length-Distinct-le :
    (xs ys : List String) → Distinct xs → All (λ z. contains ys z ≡ true) xs → length xs ≤ length ys
length-Distinct-le [] ys d a = omega arith
length-Distinct-le (x ∷ xs) ys (h, d) (e, a) =
    omega
      (arith, length-Distinct-le xs (without x ys) d (All-without x xs ys h a), without-lt x ys e)
