-- ===== src/Base/MapLaws.antt =====
-- What holds of every entry of a map.
use Prim.Native.String.{String}
use mathlib.Core.Path.{◌≡◌}
use mathlib.Core.Option.{some}
use mathlib.Core.List.{List, [], ◌∷◌}
use native.Mathlib.Omega.{arith}
use text.Mathlib.TextEquality.{eq_iff}
use saivage.Base.Maps.{map_get, map_delete, map_set}

module _ {V : Type 0} (P : String → V → Type 0) where
  abbrev pub AllEntries : List (String × V) → Type 0
  AllEntries [] = Unit
  AllEntries ((k, v) ∷ m) = P k v × AllEntries m

  pub AllEntries-get :
      (m : List (String × V)) (k : String) {v : V} → AllEntries m → map_get m k ≡ some v → P k v
  AllEntries-get [] k h e = cc
  AllEntries-get ((j, w) ∷ m) k {v} (p, h) e =
      ground (arith, AllEntries-get m k {v = v} h, eq_iff j k)

  pub AllEntries-delete :
      (m : List (String × V)) (k : String) → AllEntries m → AllEntries (map_delete m k)
  AllEntries-delete [] k h = tt
  AllEntries-delete ((j, w) ∷ m) k (p, h) = ground (arith, AllEntries-delete m k h)

  pub AllEntries-set :
      (m : List (String × V)) (k : String) (v : V)
      → AllEntries m
      → P k v
      → AllEntries (map_set m k v)
  AllEntries-set m k v h p = (p, AllEntries-delete m k h)
