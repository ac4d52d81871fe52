-- ===== src/Base/Ids.antt =====
-- Lists of names: membership and absence of duplicates, as tests and as predicates.
use Prim.Native.String.{String}
use mathlib.Core.Path.{◌≡◌, refl}
use mathlib.Core.Bool.{Bool, false, ◌||◌}
use mathlib.Core.List.{List, [], ◌∷◌, ◌++◌}
use native.Mathlib.Omega.{arith}
use text.Mathlib.Text.{◌==◌}

-- `xs.includes(x)`, `set.has(x)`
abbrev pub elem : String → List String → Bool
elem x [] = false
elem x (y ∷ ys) = y == x || elem x ys

pub elem-append : (x : String) (ys zs : List String) → elem x (ys ++ zs) ≡ (elem x ys || elem x zs)
elem-append x [] zs = refl
elem-append x (y ∷ ys) zs = ground (arith, elem-append x ys zs)

-- No name stands twice.
abbrev pub Distinct : List String → Type 0
Distinct [] = Unit
Distinct (x ∷ xs) = (elem x xs ≡ false) × Distinct xs

-- No name of the first list stands in the second.
abbrev pub Disjoint : List String → List String → Type 0
Disjoint [] ys = Unit
Disjoint (x ∷ xs) ys = (elem x ys ≡ false) × Disjoint xs ys
