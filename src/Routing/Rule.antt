-- ===== src/Routing/Rule.antt =====
-- Rules of src/routing/resolver.ts, their normal form, and the chain of profiles.
use saivage.Base.{
  ℕ, zero, suc, String, Option, none, some, List, [], ◌∷◌, map_get, if◌then◌else◌, ◌==◌,
}
use saivage.Providers.ModelId.{unique}

-- `RoutingRule`
pub record RoutingRule : Type 0 where
  pub profile : Option String
  pub model : Option String
  pub auth_profile : Option String
  pub account : Option String
  pub preferred_models : List String
  pub allowed_models : Option (List String)
  pub preferred_accounts : List String
  pub allowed_accounts : Option (List String)

-- `NormalizedRule`
pub record NormalizedRule : Type 0 where
  pub profile : Option String
  pub model : Option String
  pub auth_profile : Option String
  pub account : Option String
  pub preferred_models : List String
  pub allowed_models : Option (List String)
  pub preferred_accounts : List String
  pub allowed_accounts : Option (List String)

-- `xs?.length ? unique(xs) : undefined`
abbrev pub nonempty_unique : Option (List String) → Option (List String)
nonempty_unique none = none
nonempty_unique (some []) = none
nonempty_unique (some (x ∷ xs)) = some (unique (x ∷ xs))

-- `normalizeRule`
unfoldable pub normalize_rule : RoutingRule → NormalizedRule
normalize_rule rule = record {
  profile = rule.profile;
  model = rule.model;
  auth_profile = rule.auth_profile;
  account = rule.account;
  preferred_models = unique rule.preferred_models;
  allowed_models = nonempty_unique rule.allowed_models;
  preferred_accounts = unique rule.preferred_accounts;
  allowed_accounts = nonempty_unique rule.allowed_accounts;
}

-- `normalizeRule({})`
abbrev pub empty_rule : NormalizedRule
empty_rule = record {
  profile = none;
  model = none;
  auth_profile = none;
  account = none;
  preferred_models = [];
  allowed_models = none;
  preferred_accounts = [];
  allowed_accounts = none;
}

abbrev pub Profiles : Type 0
Profiles = List (String × NormalizedRule)

-- `a ?? b`
abbrev pub coalesce {ℓ} : {A : Type ℓ} → Option A → Option A → Option A
coalesce none b = b
coalesce (some a) b = some a

-- `xs.length ? xs : ys`
abbrev pub nonempty_or : List String → List String → List String
nonempty_or [] ys = ys
nonempty_or (x ∷ xs) ys = x ∷ xs

-- one round of the merge: what `item` says wins
abbrev pub override : NormalizedRule → NormalizedRule → NormalizedRule
override item merged = record {
  profile = coalesce item.profile merged.profile;
  model = coalesce item.model merged.model;
  auth_profile = coalesce item.auth_profile merged.auth_profile;
  account = coalesce item.account merged.account;
  preferred_models = nonempty_or item.preferred_models merged.preferred_models;
  allowed_models = coalesce item.allowed_models merged.allowed_models;
  preferred_accounts = nonempty_or item.preferred_accounts merged.preferred_accounts;
  allowed_accounts = coalesce item.allowed_accounts merged.allowed_accounts;
}

-- the loop over `stack`
unfoldable pub merge_stack : NormalizedRule → List NormalizedRule → NormalizedRule
merge_stack merged [] = merged
merge_stack merged (item ∷ stack) = merge_stack (override item merged) stack

-- a name that is there and not the empty text
abbrev pub truthy : Option String → Option String
truthy none = none
truthy (some s) = if s == "" then none else some s

abbrev pub parent : Profiles → NormalizedRule → Option NormalizedRule
parent profiles rule = elim (truthy rule.profile) [
  | none ↦ none
  | some name ↦ map_get profiles name
]

-- the `while` of `mergeRuleChain`; `none` means that the fuel ran out
unfoldable pub rule_stack :
    Profiles → ℕ → Option NormalizedRule → List NormalizedRule → Option (List NormalizedRule)
rule_stack profiles fuel none stack = some stack
rule_stack profiles zero (some rule) stack = none
rule_stack profiles (suc fuel) (some rule) stack =
    rule_stack profiles fuel (parent profiles rule) (rule ∷ stack)

-- `mergeRuleChain`
unfoldable pub merge_rule_chain : Profiles → ℕ → NormalizedRule → Option NormalizedRule
merge_rule_chain profiles fuel rule = elim (rule_stack profiles fuel (some rule) []) [
  | none ↦ none
  | some stack ↦ some (merge_stack empty_rule stack)
]
