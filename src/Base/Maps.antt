-- ===== src/Base/Maps.antt =====
-- Maps with texts for keys: `Map` and plain objects, as lists of entries.
use Prim.Native.String.{String}
use mathlib.Core.Path.{◌≡◌}
use mathlib.Core.Option.{Option, none, some}
use mathlib.Core.List.{List, [], ◌∷◌}
use native.Mathlib.Omega.{arith}
use text.Mathlib.Text.{◌==◌}
use text.Mathlib.TextEquality.{eq_iff}
use saivage.Base.Tests.{if◌then◌else◌}

module _ {ℓ} {V : Type ℓ} where
  -- `m.get(k)`
  abbrev pub map_get : List (String × V) → String → Option V
  map_get [] k = none
  map_get ((j, v) ∷ m) k = if j == k then some v else map_get m k

  -- `m.delete(k)`
  abbrev pub map_delete : List (String × V) → String → List (String × V)
  map_delete [] k = []
  map_delete ((j, v) ∷ m) k = if j == k then map_delete m k else (j, v) ∷ map_delete m k

  -- `m.set(k, v)`; the order of the entries is not read
  abbrev pub map_set : List (String × V) → String → V → List (String × V)
  map_set m k v = (k, v) ∷ map_delete m k

  pub map_get-map_delete :
      (m : List (String × V)) (k j : String)
      → map_get (map_delete m k) j ≡ (if k == j then none else map_get m j)
  map_get-map_delete [] k j = ground arith
  map_get-map_delete ((i, v) ∷ m) k j =
      ground (arith, map_get-map_delete m k j, eq_iff i k, eq_iff i j, eq_iff k j)

  pub map_get-map_set :
      (m : List (String × V)) (k j : String) (v : V)
      → map_get (map_set m k v) j ≡ (if k == j then some v else map_get m j)
  map_get-map_set m k j v = ground (arith, map_get-map_delete m k j)
