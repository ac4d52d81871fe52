-- ===== src/Base/Split.antt =====
-- A text cut at the first occurrence of a character: `indexOf` and two `slice`s.
use Prim.Native.Char.{Char, code}
use Prim.Native.Nat.{ℕ}
use Prim.Native.String
use Prim.Native.String.{String, [], ◌∷◌}
use mathlib.Core.Path.{◌≡◌}
use mathlib.Core.Logic.{◌↔◌, inl, inr}
use mathlib.Core.Bool.{false}
use mathlib.Core.Option.{Option, none, some}
use native.Mathlib.Omega.{arith}
use text.Mathlib.TextLemmas.{nil-append, cons-append}
use saivage.Base.Tests.{nat_eq, if◌then◌else◌, Bool-cases}

abbrev cons_left : Char → Option (String × String) → Option (String × String)
cons_left c none = none
cons_left c (some (a, b)) = some (c ∷ a, b)

-- `none` where the character does not occur (`indexOf` is -1)
unfoldable pub split_at : ℕ → String → Option (String × String)
split_at sep [] = none
split_at sep (c ∷ s) = if nat_eq (code c) sep then some ("", s) else cons_left c (split_at sep s)

abbrev pub Lacks : ℕ → String → Type 0
Lacks sep [] = Unit
Lacks sep (c ∷ s) = (nat_eq (code c) sep ≡ false) × Lacks sep s

-- Joining two parts at a character that the first lacks, and splitting there, gives them back.
pub split_at-append :
    (c : Char) (a b : String)
    → Lacks (code c) a
    → split_at (code c) (String.◌++◌ a (c ∷ b)) ≡ some (a, b)
unfolding split_at
split_at-append c [] b l = rw nil-append (ground arith)
split_at-append c (d ∷ a) b (ne, l) = rw cons-append (ground (arith, split_at-append c a b l))

-- A text without the character is not split, and only such a text.
pub split_at-none_iff : (sep : ℕ) (s : String) → (split_at sep s ≡ none) ↔ Lacks sep s
unfolding split_at
split_at-none_iff sep [] = ground arith
split_at-none_iff sep (c ∷ s) = ground (arith, split_at-none_iff sep s)

cons_left-eq-some :
    (c : Char) (o : Option (String × String)) {a b : String}
    → cons_left c o ≡ some (a, b)
    → (a' : String) × (o ≡ some (a', b)) × (a ≡ c ∷ a')
cons_left-eq-some c none h = cc
cons_left-eq-some c (some (a', b')) {a} {b} h = (a', cc, cc)

-- The first part of a split text lacks the character.
pub split_at-Lacks :
    (sep : ℕ) (s : String) {a b : String} → split_at sep s ≡ some (a, b) → Lacks sep a
unfolding split_at
split_at-Lacks sep [] h = cc
split_at-Lacks sep (c ∷ s) {a} {b} h = elim (Bool-cases (nat_eq (code c) sep)) [
  | inl at ↦ let e : a ≡ "" = ground arith in rw e tt
  | inr past ↦
      let (a', found, e) = cons_left-eq-some c (split_at sep s) (rw past at h) in
      rw e (past, split_at-Lacks sep s found)
]
