-- ===== src/Prelude/Text.antt =====
-- Texts are compared whole; their order is by code points, as in Python.
use Prim.Native.String.{String, compare, ◌++◌}
use mathlib.Core.Bool.{Bool, true, false, ◌||◌}
use mathlib.Core.Option.{Option, none, some}
use mathlib.Core.List.{List, [], ◌∷◌}
use text.Mathlib.Text.{◌==◌, is_lt}
pub use text.Mathlib.Text.{◌==◌}
pub use text.Mathlib.TextEquality.{eq_iff}
pub use text.Mathlib.TextPositions.{eq_refl}

-- s < t; the order of UTF-8 bytes is the order of code points
abbrev pub text_lt : String → String → Bool
text_lt s t = is_lt (compare s t)

-- == on values that may be None
abbrev pub opt_eq : Option String → Option String → Bool
opt_eq none none = true
opt_eq (some a) (some b) = a == b
opt_eq _ _ = false

-- x in xs
abbrev pub contains : List String → String → Bool
contains [] k = false
contains (x ∷ xs) k = (x == k) || contains xs k

-- s + t
abbrev pub append : String → String → String
append s t = s ++ t
