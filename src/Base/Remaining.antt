-- ===== src/Base/Remaining.antt =====
-- What a traversal has not visited yet: the measure that it ends by.
use Prim.Native.Nat.{ℕ, ◌+◌, ◌≤◌, ◌<◌}
use Prim.Native.String.{String}
use mathlib.Core.Path.{◌≡◌, refl, subst}
use mathlib.Core.Logic.{inl, inr}
use mathlib.Core.Bool.{true, false}
use mathlib.Core.List.{List, [], ◌∷◌, ◌++◌}
use native.Mathlib.Omega.{arith}
use text.Mathlib.Text.{◌==◌}
use text.Mathlib.TextEquality.{eq_iff}
use saivage.Base.Tests.{if◌then◌else◌, Bool-cases}
use saivage.Base.Lists.{All, length}
use saivage.Base.Ids.{elem, elem-append}

-- How many of the first list are not in the second.
pub remaining : List String → List String → ℕ
remaining [] expanded = 0
remaining (u ∷ us) expanded = (if elem u expanded then 0 else 1) + remaining us expanded

pub remaining-le-length : (us expanded : List String) → remaining us expanded ≤ length us
unfolding remaining
remaining-le-length [] expanded = omega arith
remaining-le-length (u ∷ us) expanded = ground (arith, remaining-le-length us expanded)

pub remaining-cons-le :
    (us : List String) (spec : String) (expanded : List String)
    → remaining us (spec ∷ expanded) ≤ remaining us expanded
unfolding remaining
remaining-cons-le [] spec expanded = omega arith
remaining-cons-le (u ∷ us) spec expanded = ground (arith, remaining-cons-le us spec expanded)

pub remaining-cons-lt :
    (us : List String) (spec : String) (expanded : List String)
    → elem spec us ≡ true
    → elem spec expanded ≡ false
    → remaining us (spec ∷ expanded) < remaining us expanded
unfolding remaining
remaining-cons-lt [] spec expanded h new = cc
remaining-cons-lt (u ∷ us) spec expanded h new = ground (
  arith,
  remaining-cons-lt us spec expanded,
  remaining-cons-le us spec expanded,
  eq_iff u spec,
  eq_iff spec u,
)

-- The order of the second list does not matter.
pub remaining-snoc :
    (us path : List String) (x : String) → remaining us (path ++ x ∷ []) ≡ remaining us (x ∷ path)
unfolding remaining
remaining-snoc [] path x = refl
remaining-snoc (u ∷ us) path x =
    ground (arith, remaining-snoc us path x, elem-append u path (x ∷ []))

pub All-elem :
    (P : String → Type 0) (xs : List String) (x : String) → All P xs → elem x xs ≡ true → P x
All-elem P [] x h m = cc
All-elem P (y ∷ ys) x (p, h) m = elim (Bool-cases (y == x)) [
  | inl same ↦ subst P ((eq_iff y x).0 same) p
  | inr other ↦ All-elem P ys x h (ground arith)
]
