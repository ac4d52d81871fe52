-- ===== src/Routing/Samples.antt =====
-- The theorems on src/routing/resolver.ts at concrete inputs.
use saivage.Base.{◌≡◌, refl, ◌⊎◌, some, none, true, elem, String, List, [], ◌∷◌}
use saivage.Routing.Rule.{NormalizedRule, Profiles, empty_rule}
use saivage.Providers.ModelId.{unique}
use saivage.Routing.Rule.{RoutingRule, normalize_rule, rule_stack, merge_stack, merge_rule_chain}
use saivage.Routing.Resolver.{
  resolve_preferred_models, resolve_preferred_account_refs, resolve_allowed_account_refs,
  RuntimeRoutingConfig, ProjectRoutingConfig, ruled, ok, ResolvedModelRoute,
}
use saivage.Routing.Resolver.Route.{
  resolver_of, new_resolver, resolve_role_rule, resolve, ModelRoutingResolver,
}
use saivage.Routing.Resolver.Allowed.{Among, resolve-allowed_models}
use saivage.Routing.Graph.{acyclic, found_cycle, validate_profile_graph}
use saivage.Routing.Graph.Sound.{Merges, NeverMerges, validate_decides}

abbrev based_on : String → NormalizedRule
based_on name = record empty_rule { profile = some name }

-- `fast` and `deep` lead to each other, `base` leads to `fast`
abbrev looped : Profiles
looped = ("base", based_on "fast") ∷ ("fast", based_on "deep") ∷ ("deep", based_on "fast") ∷ []

abbrev layered : Profiles
layered = ("base", empty_rule) ∷ ("fast", based_on "base") ∷ ("deep", based_on "fast") ∷ []

looped_found : validate_profile_graph looped ≡ found_cycle ("fast" ∷ "deep" ∷ "fast" ∷ [])
unfolding validate_profile_graph
looped_found = refl

layered_passes : validate_profile_graph layered ≡ acyclic
unfolding validate_profile_graph
layered_passes = refl

validate_decides_example :
    ((validate_profile_graph looped ≡ acyclic) × ((rule : NormalizedRule) → Merges looped rule))
    ⊎ ((names : List String) × (name : String) × (validate_profile_graph looped ≡ found_cycle names)
        × NeverMerges looped name)
validate_decides_example = validate_decides looped

abbrev coder_rule : RoutingRule
coder_rule = record {
  profile = some "team";
  model = none;
  auth_profile = none;
  account = some "work";
  preferred_models = "open/large" ∷ "own/small" ∷ [];
  allowed_models = some ("own/small" ∷ "own/tiny" ∷ []);
  preferred_accounts = "own.spare" ∷ [];
  allowed_accounts = none;
}

abbrev team_rule : RoutingRule
team_rule = record {
  profile = none;
  model = none;
  auth_profile = none;
  account = none;
  preferred_models = [];
  allowed_models = none;
  preferred_accounts = [];
  allowed_accounts = some ("spare" ∷ []);
}

abbrev routing : ProjectRoutingConfig
routing = record {
  default_profile = none;
  profiles = ("team", team_rule) ∷ [];
  roles = ("coder", ruled coder_rule) ∷ [];
}

abbrev runtime : RuntimeRoutingConfig
runtime = record { models = []; providers = []; supervisor_model = none }

abbrev resolver : ModelRoutingResolver
resolver = resolver_of routing runtime

abbrev coder_merged : NormalizedRule
coder_merged = record {
  profile = some "team";
  model = none;
  auth_profile = none;
  account = some "work";
  preferred_models = "open/large" ∷ "own/small" ∷ [];
  allowed_models = some ("own/small" ∷ "own/tiny" ∷ []);
  preferred_accounts = "own.spare" ∷ [];
  allowed_accounts = some ("spare" ∷ []);
}

abbrev coder_route : ResolvedModelRoute
coder_route = record {
  role = "coder";
  model_spec = "own/small";
  provider = some "own";
  model = "small";
  auth_profile = none;
  account_ref = some "own.spare";
  preferred_account_refs = "own.spare" ∷ [];
  allowed_account_refs = some ("own.spare" ∷ []);
  preferred_models = "own/small" ∷ [];
  from_routing = true;
  profile_name = some "team";
}

routing_passes : new_resolver routing runtime ≡ some (ok resolver)
unfolding new_resolver validate_profile_graph normalize_rule
routing_passes = refl

coder_merges :
    merge_rule_chain resolver.profiles 2 (resolve_role_rule resolver "coder").1 ≡ some coder_merged
unfolding merge_rule_chain resolve_role_rule rule_stack merge_stack unique
coder_merges = refl

coder_resolves : resolve resolver 2 "coder" ≡ some (ok coder_route)
unfolding resolve merge_rule_chain rule_stack merge_stack resolve_role_rule resolve_preferred_models
    resolve_preferred_account_refs resolve_allowed_account_refs unique
coder_resolves = refl

resolve-allowed_models_example :
    (elem "own/small" ("own/small" ∷ "own/tiny" ∷ []) ≡ true)
    × Among ("own/small" ∷ []) ("own/small" ∷ "own/tiny" ∷ [])
unfolding unique
resolve-allowed_models_example =
    resolve-allowed_models resolver 2 "coder" coder_merged coder_route coder_merges coder_resolves
      "own/small" ("own/tiny" ∷ []) refl
