-- ===== src/Routing/Resolver/Route.antt =====
-- `resolve` and the constructor of `ModelRoutingResolver`, src/routing/resolver.ts.
use saivage.Base.{
  ℕ, String, Bool, true, false, Option, none, some, List, [], ◌∷◌, map, map_get, split_at,
  contains_text, if◌then◌else◌, ◌||◌,
}
use saivage.Routing.Rule.{
  NormalizedRule, normalize_rule, empty_rule, truthy, coalesce, Profiles, merge_rule_chain,
}
use saivage.Routing.Graph.{Verdict, acyclic, found_cycle, stuck, validate_profile_graph}
use saivage.Routing.Resolver.{
  RuntimeRoutingConfig, ProjectRoutingConfig, RoleEntry, named, ruled, Outcome, ok, failed,
  profile_cycle, missing_model, and_then, ResolvedModelRoute, head?, resolve_runtime_default_models,
  resolve_preferred_models, resolve_preferred_account_refs, resolve_allowed_account_refs,
}

pub record ModelRoutingResolver : Type 0 where
  pub runtime : RuntimeRoutingConfig
  pub roles : List (String × RoleEntry)
  pub profiles : Profiles
  pub default_profile : Option String

abbrev pub normalized_profiles : ProjectRoutingConfig → Profiles
normalized_profiles routing = map (λ e. (e.0, normalize_rule e.1)) routing.profiles

abbrev by_verdict : ModelRoutingResolver → Verdict → Option (Outcome ModelRoutingResolver)
by_verdict resolver acyclic = some (ok resolver)
by_verdict resolver (found_cycle names) = some (failed (profile_cycle names))
by_verdict resolver stuck = none

abbrev pub resolver_of : ProjectRoutingConfig → RuntimeRoutingConfig → ModelRoutingResolver
resolver_of routing runtime = record {
  runtime = runtime;
  roles = routing.roles;
  profiles = normalized_profiles routing;
  default_profile = routing.default_profile;
}

-- the constructor; `none` would mean that a walk had run out of fuel
unfoldable pub new_resolver :
    ProjectRoutingConfig → RuntimeRoutingConfig → Option (Outcome ModelRoutingResolver)
new_resolver routing runtime =
    by_verdict (resolver_of routing runtime) (validate_profile_graph (normalized_profiles routing))

-- `normalizeRule({ model })` and `normalizeRule({ profile })`
abbrev model_rule : String → NormalizedRule
model_rule model = record empty_rule { model = some model }

abbrev profile_rule : String → NormalizedRule
profile_rule profile = record empty_rule { profile = some profile }

abbrev has_profile : Profiles → String → Bool
has_profile profiles name = elim (map_get profiles name) [ none ↦ false | some rule ↦ true ]

abbrev pub RoleRule : Type 0
RoleRule = Option String × NormalizedRule

abbrev default_rule : Profiles → Option String → RoleRule
default_rule profiles none = (none, empty_rule)
default_rule profiles (some name) =
    if has_profile profiles name then (some name, profile_rule name) else (none, empty_rule)

abbrev rule_of_entry : ModelRoutingResolver → Option RoleEntry → RoleRule
rule_of_entry r none = default_rule r.profiles (truthy r.default_profile)
rule_of_entry r (some (ruled rule)) = (rule.profile, normalize_rule rule)
rule_of_entry r (some (named entry)) =
    if contains_text entry "/"
    then (none, model_rule entry)
    else if has_profile r.profiles entry
    then (some entry, profile_rule entry)
    else (none, model_rule entry)

-- `resolveRoleRule`
unfoldable pub resolve_role_rule : ModelRoutingResolver → String → RoleRule
unfolding normalize_rule contains_text
resolve_role_rule r role =
    rule_of_entry r (coalesce (map_get r.roles role) (map_get r.roles "default"))

-- `preferredModels[0] ?? this.resolveRuntimeDefaultModels(role)[0]`, and the test that follows
abbrev pub candidate_of : RuntimeRoutingConfig → String → List String → Outcome String
candidate_of runtime role (model ∷ models) = elim (truthy (some model)) [
  | none ↦ failed (missing_model role)
  | some spec ↦ ok spec
]
candidate_of runtime role [] = and_then (resolve_runtime_default_models runtime role) (λ models.
    elim (truthy (head? models)) [ none ↦ failed (missing_model role) | some spec ↦ ok spec ])

abbrev pub spec_provider : Option (String × String) → Option String
spec_provider none = none
spec_provider (some (provider, model)) = some provider

abbrev spec_model : String → Option (String × String) → String
spec_model spec none = spec
spec_model spec (some (provider, model)) = model

-- `parseModelSpec` and `tryParseModelSpec`: a text without "/" has no parts
unfoldable pub try_parse_model_spec : String → Option (String × String)
unfolding split_at
try_parse_model_spec = split_at b'/'

abbrev is_some {ℓ} : {A : Type ℓ} → Option A → Bool
is_some none = false
is_some (some a) = true

abbrev has_some {ℓ} : {A : Type ℓ} → List A → Bool
has_some [] = false
has_some (x ∷ xs) = true

abbrev has_any {ℓ} : {A : Type ℓ} → Option (List A) → Bool
has_any none = false
has_any (some xs) = has_some xs

-- `resolveSource`: whether it is "routing"
unfoldable pub resolve_source : NormalizedRule → Bool
resolve_source rule =
    is_some (truthy rule.model)
    || has_some rule.preferred_models
    || has_any rule.allowed_models
    || is_some (truthy rule.profile)

-- the object that `resolve` returns
abbrev pub route_with :
    String
    → Option String
    → NormalizedRule
    → List String
    → String
    → List String
    → ResolvedModelRoute
route_with role profile_name merged models spec accounts =
    let provider = spec_provider (try_parse_model_spec spec) in
    record {
      role = role;
      model_spec = spec;
      provider = provider;
      model = spec_model spec (try_parse_model_spec spec);
      auth_profile = merged.auth_profile;
      account_ref = head? accounts;
      preferred_account_refs = accounts;
      allowed_account_refs = resolve_allowed_account_refs provider merged;
      preferred_models = models;
      from_routing = resolve_source merged;
      profile_name = profile_name;
    }

-- `resolve` from the chosen model on
abbrev pub route_from_spec :
    RuntimeRoutingConfig
    → String
    → Option String
    → NormalizedRule
    → List String
    → String
    → Outcome ResolvedModelRoute
route_from_spec runtime role profile_name merged models spec =
    and_then
      (resolve_preferred_account_refs runtime role (spec_provider (try_parse_model_spec spec))
        merged)
      (λ accounts. ok (route_with role profile_name merged models spec accounts))

-- `resolve` from the preferred models on
abbrev pub route_from_models :
    RuntimeRoutingConfig
    → String
    → Option String
    → NormalizedRule
    → List String
    → Outcome ResolvedModelRoute
route_from_models runtime role profile_name merged models =
    and_then (candidate_of runtime role models)
      (route_from_spec runtime role profile_name merged models)

-- `resolve` from the merged rule on
unfoldable pub resolve_merged :
    RuntimeRoutingConfig → String → Option String → NormalizedRule → Outcome ResolvedModelRoute
unfolding try_parse_model_spec resolve_source
resolve_merged runtime role profile_name merged =
    and_then (resolve_preferred_models runtime role merged)
      (route_from_models runtime role profile_name merged)

-- `resolve`, with fuel for the merge
unfoldable pub resolve : ModelRoutingResolver → ℕ → String → Option (Outcome ResolvedModelRoute)
unfolding resolve_merged
resolve r fuel role =
    let (profile_name, rule) = resolve_role_rule r role in
    elim (merge_rule_chain r.profiles fuel rule) [
      | none ↦ none
      | some merged ↦ some (resolve_merged r.runtime role profile_name merged)
    ]
