-- ===== src/Routing/Resolver.antt =====
-- `ModelRoutingResolver` of src/routing/resolver.ts: the route of a role. The table of model keys is
-- that of the roster in src/agents/roster.ts.
pub mod Route
pub mod Allowed
use saivage.Base.{
  ℕ, String, Bool, true, false, Option, none, some, List, [], ◌∷◌, ◌++◌, map, filter, elem, map_get,
  split_at, contains_text, if◌then◌else◌, ◌==◌, ◌||◌,
}
use saivage.Providers.ModelId.{unique}
use saivage.Routing.Rule.{
  RoutingRule, NormalizedRule, normalize_rule, empty_rule, nonempty_unique, coalesce, truthy,
  Profiles, merge_rule_chain,
}
use saivage.Routing.Graph.{Verdict, acyclic, found_cycle, stuck, validate_profile_graph}
use Prim.Native.String

-- `string | string[]`
pub data ModelSetting : Type 0 where
  one : String → ModelSetting
  many : List String → ModelSetting

-- A provider stands for its `defaultAccount`, the one field that `resolve` reads.
pub record RuntimeRoutingConfig : Type 0 where
  pub models : List (String × ModelSetting)
  pub providers : List (String × Option String)
  pub supervisor_model : Option String

-- an entry of `roles`: a text or a rule
pub data RoleEntry : Type 0 where
  named : String → RoleEntry
  ruled : RoutingRule → RoleEntry

pub record ProjectRoutingConfig : Type 0 where
  pub default_profile : Option String
  pub profiles : List (String × RoutingRule)
  pub roles : List (String × RoleEntry)

pub data RouteError : Type 0 where
  profile_cycle : List String → RouteError
  missing_model : String → RouteError
  no_allowed_model no_allowed_account : String → List String → List String → RouteError

-- a value, or the error that is thrown
pub data Outcome {ℓ} (A : Type ℓ) : Type ℓ where
  ok : A → Outcome A
  failed : RouteError → Outcome A

abbrev pub and_then {ℓ} : {A B : Type ℓ} → Outcome A → (A → Outcome B) → Outcome B
and_then (ok a) f = f a
and_then (failed e) f = failed e

pub record ResolvedModelRoute : Type 0 where
  pub role : String
  pub model_spec : String
  pub provider : Option String
  pub model : String
  pub auth_profile : Option String
  pub account_ref : Option String
  pub preferred_account_refs : List String
  pub allowed_account_refs : Option (List String)
  pub preferred_models : List String
  pub from_routing : Bool
  pub profile_name : Option String

-- `ROUTING_ROLE_TO_MODEL_KEY`
abbrev role_to_model_key : List (String × String)
role_to_model_key =
    ("planner", "orchestrator")
    ∷ ("manager", "orchestrator")
    ∷ ("coder", "coder")
    ∷ ("researcher", "researcher")
    ∷ ("data_agent", "data_agent")
    ∷ ("reviewer", "reviewer")
    ∷ ("designer", "designer")
    ∷ ("critic", "critic")
    ∷ ("inspector", "orchestrator")
    ∷ ("chat", "chat")
    ∷ ("librarian", "orchestrator")
    ∷ ("supervisor", "supervisor")
    ∷ ("default", "default")
    ∷ []

abbrev model_key : String → String
model_key role = elim (map_get role_to_model_key role) [ none ↦ role | some key ↦ key ]

-- `normalizeModelList`
unfoldable pub normalize_model_list : Option ModelSetting → List String
normalize_model_list none = []
normalize_model_list (some (one model)) = if model == "" then [] else model ∷ []
normalize_model_list (some (many models)) = unique models

abbrev pub to_list {ℓ} : {A : Type ℓ} → Option A → List A
to_list none = []
to_list (some a) = a ∷ []

abbrev pub head? : List String → Option String
head? [] = none
head? (x ∷ xs) = some x

abbrev pub nonempty_or_missing : String → List String → Outcome (List String)
nonempty_or_missing role [] = failed (missing_model role)
nonempty_or_missing role (x ∷ xs) = ok (x ∷ xs)

abbrev as_setting : Option String → Option ModelSetting
as_setting none = none
as_setting (some model) = some (one model)

-- `resolveRuntimeDefaultModels`
unfoldable pub resolve_runtime_default_models :
    RuntimeRoutingConfig → String → Outcome (List String)
unfolding normalize_model_list
resolve_runtime_default_models runtime role =
    if role == "supervisor"
    then nonempty_or_missing role (normalize_model_list (as_setting runtime.supervisor_model))
    else nonempty_or_missing role (
        normalize_model_list
          (coalesce (map_get runtime.models (model_key role)) (map_get runtime.models "default")))

-- the candidates among the allowed ones, or the error that there are none
abbrev pub among_or : RouteError → List String → List String → Outcome (List String)
among_or error allowed candidates = elim (filter (λ c. elem c allowed) candidates) [
  | [] ↦ failed error
  | x ∷ xs ↦ ok (x ∷ xs)
]

-- the choice of `resolvePreferredModels`, by `allowed` and by `candidates`
abbrev pub choose_models :
    RuntimeRoutingConfig → String → Option (List String) → List String → Outcome (List String)
choose_models runtime role none [] = resolve_runtime_default_models runtime role
choose_models runtime role none (c ∷ cs) = ok (c ∷ cs)
choose_models runtime role (some allowed) [] = ok allowed
choose_models runtime role (some allowed) (c ∷ cs) =
    among_or (no_allowed_model role (c ∷ cs) allowed) allowed (c ∷ cs)

-- `resolvePreferredModels`
unfoldable pub resolve_preferred_models :
    RuntimeRoutingConfig → String → NormalizedRule → Outcome (List String)
resolve_preferred_models runtime role rule =
    choose_models runtime role (nonempty_unique rule.allowed_models)
      (unique (to_list (truthy rule.model) ++ rule.preferred_models))

-- `normalizeAccountRef`
unfoldable pub normalize_account_ref : String → String → String
unfolding contains_text
normalize_account_ref provider ref =
    if contains_text ref "." then ref else String.◌++◌ provider (String.◌++◌ "." ref)

abbrev pub default_account : RuntimeRoutingConfig → String → Option String
default_account runtime provider = elim (map_get runtime.providers provider) [
  | none ↦ none
  | some account ↦ elim (truthy account) [
    | none ↦ none
    | some ref ↦ some (normalize_account_ref provider ref)
  ]
]

abbrev nonempty_or_default : List String → Option String → List String
nonempty_or_default [] account = to_list account
nonempty_or_default (x ∷ xs) account = x ∷ xs

abbrev pub default_among : RouteError → List String → Option String → Outcome (List String)
default_among error allowed none = failed error
default_among error allowed (some ref) = if elem ref allowed then ok (ref ∷ []) else failed error

-- the choice of `resolvePreferredAccountRefs`, by `allowed`, `explicit`, the default and `candidates`
abbrev pub choose_accounts :
    String
    → Option (List String)
    → List String
    → Option String
    → List String
    → Outcome (List String)
choose_accounts role none explicit account candidates = ok (nonempty_or_default explicit account)
choose_accounts role (some allowed) explicit account [] = ok allowed
choose_accounts role (some allowed) explicit account (c ∷ cs) =
    elim (filter (λ ref. elem ref allowed) explicit) [
      | [] ↦ default_among (no_allowed_account role (c ∷ cs) allowed) allowed account
      | x ∷ xs ↦ ok (x ∷ xs)
    ]

-- `xs?.length ? unique(xs.map((entry) => normalizeAccountRef(provider, entry))) : undefined`
abbrev pub allowed_refs : String → Option (List String) → Option (List String)
allowed_refs provider none = none
allowed_refs provider (some []) = none
allowed_refs provider (some (x ∷ xs)) =
    some (unique (map (normalize_account_ref provider) (x ∷ xs)))

abbrev accounts_of_provider :
    RuntimeRoutingConfig → String → NormalizedRule → Option String → Outcome (List String)
accounts_of_provider runtime role rule none =
    ok (unique (to_list (truthy rule.account) ++ rule.preferred_accounts))
accounts_of_provider runtime role rule (some provider) =
    let explicit = unique (
      map (normalize_account_ref provider)
        (to_list (truthy rule.account) ++ rule.preferred_accounts)) in
    let account = default_account runtime provider in
    choose_accounts role (allowed_refs provider rule.allowed_accounts) explicit account
      (unique (explicit ++ to_list account))

-- `resolvePreferredAccountRefs`; a provider that is the empty text counts as none
unfoldable pub resolve_preferred_account_refs :
    RuntimeRoutingConfig → String → Option String → NormalizedRule → Outcome (List String)
unfolding normalize_account_ref
resolve_preferred_account_refs runtime role provider rule = elim (truthy rule.auth_profile) [
  | none ↦ accounts_of_provider runtime role rule (truthy provider)
  | some profile ↦ ok []
]

abbrev allowed_of_provider : Option (List String) → Option String → Option (List String)
allowed_of_provider allowed none = nonempty_unique allowed
allowed_of_provider allowed (some provider) = allowed_refs provider allowed

-- `resolveAllowedAccountRefs`
unfoldable pub resolve_allowed_account_refs : Option String → NormalizedRule → Option (List String)
unfolding normalize_account_ref
resolve_allowed_account_refs provider rule = elim (truthy rule.auth_profile) [
  | none ↦ allowed_of_provider rule.allowed_accounts (truthy provider)
  | some profile ↦ none
]
