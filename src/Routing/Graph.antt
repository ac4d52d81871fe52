-- ===== src/Routing/Graph.antt =====
-- `validateProfileGraph` of src/routing/resolver.ts.
pub mod Walks
pub mod Sound
use saivage.Base.{
  ℕ, zero, suc, String, Bool, true, false, Option, none, some, List, [], ◌∷◌, ◌++◌, map, elem,
  length, map_get, if◌then◌else◌, ◌==◌,
}
use saivage.Routing.Rule.{NormalizedRule, Profiles, truthy}

-- What the walk from one profile comes to: the names on its path, a cycle, or no fuel.
pub data Walk : Type 0 where
  visited : List String → Walk
  cycle : List String → Walk
  out_of_fuel : Walk

abbrev exists_or_none : Profiles → String → Option NormalizedRule → Option String
exists_or_none profiles next none = none
exists_or_none profiles next (some rule) = some next

abbrev next_of_rule : Profiles → Option NormalizedRule → Option String
next_of_rule profiles none = none
next_of_rule profiles (some rule) = elim (truthy rule.profile) [
  | none ↦ none
  | some next ↦ exists_or_none profiles next (map_get profiles next)
]

-- The next profile, if the name is not the empty text and there is one of that name.
unfoldable pub next_profile : Profiles → String → Option String
next_profile profiles name = next_of_rule profiles (map_get profiles name)

-- `path.slice(path.indexOf(cursor))`
abbrev from_name : String → List String → List String
from_name name [] = []
from_name name (x ∷ xs) = if x == name then x ∷ xs else from_name name xs

-- the `while` loop; `path` is also `onPath`
unfoldable pub walk : Profiles → ℕ → List String → List String → Option String → Walk
walk profiles fuel done path none = visited path
walk profiles zero done path (some cursor) = out_of_fuel
walk profiles (suc fuel) done path (some cursor) =
    let rest =
      walk profiles fuel done (path ++ cursor ∷ []) (truthy (next_profile profiles cursor)) in
    if elem cursor path
    then cycle (from_name cursor path ++ cursor ∷ [])
    else if elem cursor done
    then visited path
    else rest

pub data Verdict : Type 0 where
  acyclic : Verdict
  found_cycle : List String → Verdict
  stuck : Verdict

abbrev pub after_walk : (List String → Verdict) → List String → Walk → Verdict
after_walk rest done (visited path) = rest (path ++ done)
after_walk rest done (cycle names) = found_cycle names
after_walk rest done out_of_fuel = stuck

-- the `for` loop over the names
unfoldable pub validate_from : Profiles → ℕ → List String → List String → Verdict
validate_from profiles fuel [] done = acyclic
validate_from profiles fuel (name ∷ names) done =
    let rest = validate_from profiles fuel names in
    let walked = after_walk rest done (walk profiles fuel done [] (truthy (some name))) in
    if elem name done then rest done else walked

abbrev pub names_of : Profiles → List String
names_of = map (λ e. e.0)

-- `validateProfileGraph`, with fuel for each walk
unfoldable pub validate_profile_graph : Profiles → Verdict
unfolding validate_from walk next_profile
validate_profile_graph profiles =
    validate_from profiles (suc (suc (length profiles))) (names_of profiles) []
