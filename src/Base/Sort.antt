-- ===== src/Base/Sort.antt =====
-- JavaScript's `sort` by a comparison, and the last element.
use mathlib.Core.Path.{◌≡◌, refl}
use mathlib.Core.Bool.{Bool, ◌&&◌, ◌||◌}
use mathlib.Core.Option.{Option, none, some}
use mathlib.Core.List.{List, [], ◌∷◌}
use native.Mathlib.Omega.{arith}
use saivage.Base.Tests.{if◌then◌else◌}
use saivage.Base.Lists.{all, any}

-- a stable sort
abbrev pub insert : {A : Type 0} → (A → A → Bool) → A → List A → List A
insert leq a [] = a ∷ []
insert leq a (b ∷ bs) = if leq a b then a ∷ b ∷ bs else b ∷ insert leq a bs

unfoldable pub sort : {A : Type 0} → (A → A → Bool) → List A → List A
sort leq [] = []
sort leq (a ∷ rest) = insert leq a (sort leq rest)

-- `at(-1)`
unfoldable pub last : {A : Type 0} → List A → Option A
last [] = none
last (a ∷ []) = some a
last (a ∷ b ∷ bs) = last (b ∷ bs)

all-insert :
    {A : Type 0} (p : A → Bool) (leq : A → A → Bool) (x : A) (xs : List A)
    → all p (insert leq x xs) ≡ (p x && all p xs)
all-insert p leq x [] = refl
all-insert p leq x (y ∷ ys) = ground (arith, all-insert p leq x ys)

pub all-sort :
    {A : Type 0} (p : A → Bool) (leq : A → A → Bool) (xs : List A) → all p (sort leq xs) ≡ all p xs
unfolding sort
all-sort p leq [] = refl
all-sort p leq (x ∷ xs) = ground (arith, all-sort p leq xs, all-insert p leq x (sort leq xs))

any-insert :
    {A : Type 0} (p : A → Bool) (leq : A → A → Bool) (x : A) (xs : List A)
    → any p (insert leq x xs) ≡ (p x || any p xs)
any-insert p leq x [] = refl
any-insert p leq x (y ∷ ys) = ground (arith, any-insert p leq x ys)

pub any-sort :
    {A : Type 0} (p : A → Bool) (leq : A → A → Bool) (xs : List A) → any p (sort leq xs) ≡ any p xs
unfolding sort
any-sort p leq [] = refl
any-sort p leq (x ∷ xs) = ground (arith, any-sort p leq xs, any-insert p leq x (sort leq xs))
