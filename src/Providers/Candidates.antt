-- ===== src/Providers/Candidates.antt =====
-- The candidate chain of a model spec: src/providers/candidate-planner.ts.
-- The traversal takes fuel; `Termination` shows which fuel is enough.
pub mod Termination
pub mod Coverage
pub mod Origin
use saivage.Base.{
  ℕ, zero, suc, String, Bool, true, false, not, ◌&&◌, ◌||◌, Option, none, some, List, [], ◌∷◌, ◌++◌,
  map, ltb, any, filter, elem, map_get, if◌then◌else◌, ◌==◌,
}
use saivage.Providers.ModelId.{ModelId, parse_model_id, join_spec}

pub record ChatCandidate : Type 0 where
  pub spec : String
  pub account_ref : Option String
  pub health_key : String

-- `StickyFailoverPlan`
pub record Sticky : Type 0 where
  pub spec : String
  pub next_primary_retry_at : ℕ

-- `BuildCandidateChainOptions`. The functions are the router's; `provider_before a b` is
-- `compareProviderOrder(a, b) <= 0`, and `expand` has the request in it.
pub record Options : Type 0 where
  pub sticky : Option Sticky
  pub now : ℕ
  pub failover_chains : List (String × List String)
  pub model_equivalents : List (String × List String)
  pub provider_names : List String
  pub provider_can_serve_model : String → String → Bool
  pub provider_before : String → String → Bool
  pub expand : String → String → List ChatCandidate
  pub is_provider_name : String → Bool

abbrev pub Chain : Type 0
Chain = List ChatCandidate

-- `Array.prototype.sort` is stable.
insert_by : (String → String → Bool) → String → List String → List String
insert_by before x [] = x ∷ []
insert_by before x (y ∷ ys) = if before x y then x ∷ y ∷ ys else y ∷ insert_by before x ys

unfoldable pub sort_by : (String → String → Bool) → List String → List String
unfolding insert_by
sort_by before [] = []
sort_by before (x ∷ xs) = insert_by before x (sort_by before xs)

abbrev flat_map : (String → Chain) → List String → Chain
flat_map f [] = []
flat_map f (x ∷ xs) = f x ++ flat_map f xs

abbrev pub has_key : String → Chain → Bool
has_key key = any (λ c. c.health_key == key)

abbrev pub push_one : Chain → ChatCandidate → Chain
push_one chain c = if has_key c.health_key chain then chain else chain ++ c ∷ []

-- `if (chain.some(…)) continue; chain.push(candidate)`
unfoldable pub push_new : Chain → Chain → Chain
push_new chain [] = chain
push_new chain (c ∷ cs) = push_new (push_one chain c) cs

-- The chain and `expanded`.
abbrev pub Traversal : Type 0
Traversal = Chain × List String

abbrev pub visit_all :
    (String → Traversal → Option Traversal) → List String → Traversal → Option Traversal
visit_all go [] t = some t
visit_all go (x ∷ xs) t = elim (go x t) [ none ↦ none | some t' ↦ visit_all go xs t' ]

module _ (o : Options) where
  -- `expandProviderIndependentCandidates`
  abbrev pub independent_candidates : String → Chain
  independent_candidates model =
      flat_map (λ provider. o.expand provider model)
        (sort_by o.provider_before
          (filter (λ provider. o.provider_can_serve_model provider model) o.provider_names))

  abbrev pub parsed_candidates : String → Option ModelId → Chain
  parsed_candidates spec none = independent_candidates spec
  parsed_candidates spec (some id) = o.expand id.provider id.model

  -- the candidates that one spec stands for
  unfoldable pub candidates_of : String → Chain
  unfolding parse_model_id sort_by
  candidates_of spec = parsed_candidates spec (parse_model_id spec)

  -- `appendCandidatesForModelSpec`
  unfoldable pub append_candidates : String → Chain → Chain
  unfolding push_new
  append_candidates spec chain = push_new chain (candidates_of spec)

  abbrev equivalents_of : String → List String
  equivalents_of spec = elim (map_get o.model_equivalents spec) [ none ↦ [] | some es ↦ es ]

  abbrev has_equivalents : String → Bool
  has_equivalents spec = elim (map_get o.model_equivalents spec) [ none ↦ false | some es ↦ true ]

  -- `a ?? b`
  abbrev or_else : Option (List String) → Option (List String) → Option (List String)
  or_else none b = b
  or_else (some a) b = some a

  abbrev listed : Option (List String) → List String
  listed none = []
  listed (some xs) = xs

  -- `providerName ? failoverChains[providerName] : undefined`
  abbrev by_provider : String → Option (List String)
  by_provider provider = if provider == "" then none else map_get o.failover_chains provider

  -- the failovers of a full spec: by spec, by model, by provider
  abbrev failovers_of : String → Option ModelId → List String
  failovers_of spec none =
      listed (or_else (map_get o.failover_chains spec) (map_get o.failover_chains spec))
  failovers_of spec (some id) = listed (
      or_else (map_get o.failover_chains spec)
        (or_else (map_get o.failover_chains id.model) (by_provider id.provider)))

  -- a provider-only entry stands for that provider with the same model
  abbrev next_spec : Option ModelId → String → String
  next_spec none fallback = fallback
  next_spec (some id) fallback =
      if o.is_provider_name fallback then join_spec fallback id.model else fallback

  abbrev is_full : String → Bool
  is_full fallback = elim (parse_model_id fallback) [ none ↦ false | some id ↦ true ]

  -- `if (parsed && !fallback.includes("/") && modelEquivalents.has(modelSpec)) continue`
  abbrev is_taken : String → Option ModelId → String → Bool
  is_taken spec none fallback = true
  is_taken spec (some id) fallback = is_full fallback || not (has_equivalents spec)

  -- the specs to which `appendFailoverChain` goes on, in their order
  unfoldable pub successors : String → List String
  unfolding parse_model_id
  successors spec =
      let id = parse_model_id spec in
      equivalents_of spec ++ map (next_spec id) (filter (is_taken spec id) (failovers_of spec id))

  -- `appendFailoverChain`; `none` means that the fuel ran out
  unfoldable pub visit : ℕ → String → Traversal → Option Traversal
  visit zero spec t = none
  visit (suc fuel) spec (chain, expanded) =
      let chain' = append_candidates spec chain in
      let rest = visit_all (visit fuel) (successors spec) (chain', spec ∷ expanded) in
      if elem spec expanded then some (chain', expanded) else rest

  -- the sticky spec's candidates come first until the primary is to be tried again
  abbrev pub sticky_start : String → Option Sticky → Chain
  sticky_start spec none = []
  sticky_start spec (some sticky) =
      if not (sticky.spec == spec) && ltb o.now sticky.next_primary_retry_at
      then append_candidates sticky.spec []
      else []

  -- `buildCandidateChain`
  unfoldable pub build_chain : ℕ → String → Option Chain
  unfolding visit
  build_chain fuel spec = elim (visit fuel spec (sticky_start spec o.sticky, [])) [
    | none ↦ none
    | some t ↦ some t.0
  ]
