-- ===== src/Routing/Resolver/Allowed.antt =====
-- The allowed models and accounts of a rule, src/routing/resolver.ts.
use saivage.Base.{
  ℕ, String, ◌≡◌, ◌≢◌, refl, sym, ap, ◌∙◌, subst, true, Option, none, some, List, [], ◌∷◌, arith,
  inl, inr, Bool-cases, Option-cases, All, filter, elem, eq_refl, ◌==◌,
}
use saivage.Routing.Rule.{NormalizedRule, merge_rule_chain, nonempty_unique, truthy}
use saivage.Routing.Graph.Sound.{Merges, validate_decides}
use saivage.Routing.Resolver.{
  Outcome, ok, failed, RouteError, and_then, RuntimeRoutingConfig, ProjectRoutingConfig,
  ResolvedModelRoute, choose_models, choose_accounts, default_among, allowed_refs,
  resolve_preferred_models, resolve_preferred_account_refs, resolve_allowed_account_refs,
}
use saivage.Routing.Resolver.Route.{
  ModelRoutingResolver, new_resolver, resolve_role_rule, candidate_of, resolve_merged, resolve,
  route_with, route_from_spec, route_from_models, spec_provider, try_parse_model_spec, resolver_of,
  normalized_profiles,
}

-- The names of the first list are among those of the second.
abbrev pub Among : List String → List String → Type 0
Among xs ys = All (λ x. elem x ys ≡ true) xs

Among-filter : (allowed xs : List String) → Among (filter (λ x. elem x allowed) xs) allowed
Among-filter allowed [] = tt
Among-filter allowed (x ∷ xs) = elim (Bool-cases (elem x allowed)) [
  | inl e ↦ rw e (e, Among-filter allowed xs)
  | inr e ↦ rw e (Among-filter allowed xs)
]

Among-cons : (x : String) (xs ys : List String) → Among xs ys → Among xs (x ∷ ys)
Among-cons x [] ys h = tt
Among-cons x (z ∷ xs) ys (p, h) = (ground arith, Among-cons x xs ys h)

Among-self : (xs : List String) → Among xs xs
Among-self [] = tt
Among-self (x ∷ xs) = (ground (arith, eq_refl x), Among-cons x xs xs (Among-self xs))

abbrev value_or {ℓ} : {A : Type ℓ} → A → Outcome A → A
value_or d (ok a) = a
value_or d (failed e) = d

and_then-eq-ok :
    {A B : Type 0} (o : Outcome A) (f : A → Outcome B) (b : B)
    → and_then o f ≡ ok b
    → (a : A) × (o ≡ ok a) × (f a ≡ ok b)
and_then-eq-ok (ok a) f b h = (a, refl, h)
and_then-eq-ok (failed e) f b h = cc

filtered-Among :
    (error : RouteError) (allowed xs models : List String)
    → Among xs allowed
    → elim xs [ [] ↦ failed error | y ∷ ys ↦ ok (y ∷ ys) ] ≡ ok models
    → Among models allowed
filtered-Among error allowed [] models h e = cc
filtered-Among error allowed (x ∷ xs) models h e =
    subst (λ m. Among m allowed) (ap (value_or []) e) h

choose_models-Among :
    (runtime : RuntimeRoutingConfig) (role : String) (allowed candidates models : List String)
    → choose_models runtime role (some allowed) candidates ≡ ok models
    → Among models allowed
choose_models-Among runtime role allowed [] models e =
    subst (λ m. Among m allowed) (ap (value_or []) e) (Among-self allowed)
choose_models-Among runtime role allowed (c ∷ cs) models e =
    filtered-Among _ allowed (filter (λ x. elem x allowed) (c ∷ cs)) models
      (Among-filter allowed (c ∷ cs)) e

default_among-Among :
    (error : RouteError) (allowed : List String) (account : Option String) (refs : List String)
    → default_among error allowed account ≡ ok refs
    → Among refs allowed
default_among-Among error allowed none refs e = cc
default_among-Among error allowed (some ref) refs e = elim (Bool-cases (elem ref allowed)) [
  | inl m ↦ subst (λ r. Among r allowed) (ap (value_or []) (rw m at e)) (m, tt)
  | inr m ↦ absurd (ground arith)
]

filtered_or_default-Among :
    (error : RouteError) (allowed : List String) (account : Option String) (xs refs : List String)
    → Among xs allowed
    → elim xs [ [] ↦ default_among error allowed account | y ∷ ys ↦ ok (y ∷ ys) ] ≡ ok refs
    → Among refs allowed
filtered_or_default-Among error allowed account [] refs h e =
    default_among-Among error allowed account refs e
filtered_or_default-Among error allowed account (x ∷ xs) refs h e =
    subst (λ r. Among r allowed) (ap (value_or []) e) h

choose_accounts-Among :
    (role : String) (allowed explicit : List String) (account : Option String)
    (candidates refs : List String)
    → choose_accounts role (some allowed) explicit account candidates ≡ ok refs
    → Among refs allowed
choose_accounts-Among role allowed explicit account [] refs e =
    subst (λ r. Among r allowed) (ap (value_or []) e) (Among-self allowed)
choose_accounts-Among role allowed explicit account (c ∷ cs) refs e =
    filtered_or_default-Among _ allowed account (filter (λ x. elem x allowed) explicit) refs
      (Among-filter allowed explicit) e

module _ (runtime : RuntimeRoutingConfig) (role : String) (name : Option String)
    (merged : NormalizedRule) where
  -- What `resolve` has computed on the way to a route.
  record Computed (route : ResolvedModelRoute) : Type 0 where
    models_ok : resolve_preferred_models runtime role merged ≡ ok route.preferred_models
    spec_ok : candidate_of runtime role route.preferred_models ≡ ok route.model_spec
    accounts_ok :
        resolve_preferred_account_refs runtime role route.provider merged
        ≡ ok route.preferred_account_refs
    allowed_ok : route.allowed_account_refs ≡ resolve_allowed_account_refs route.provider merged

  Computed-resolve_merged :
      (route : ResolvedModelRoute)
      → resolve_merged runtime role name merged ≡ ok route
      → Computed route
  unfolding resolve_merged
  Computed-resolve_merged route h =
      let (models, e1, h1) =
        and_then-eq-ok (resolve_preferred_models runtime role merged)
          (route_from_models runtime role name merged) route h in
      let (spec, e2, h2) =
        and_then-eq-ok (candidate_of runtime role models)
          (route_from_spec runtime role name merged models) route h1 in
      let (accounts, e3, h3) =
        and_then-eq-ok
          (resolve_preferred_account_refs runtime role (spec_provider (try_parse_model_spec spec))
            merged)
          (λ accounts. ok (route_with role name merged models spec accounts)) route h2 in
      subst Computed (ap (value_or route) h3)
        (record { models_ok = e1; spec_ok = e2; accounts_ok = e3; allowed_ok = refl })

candidate_of-eq-ok :
    (runtime : RuntimeRoutingConfig) (role x spec : String) (xs : List String)
    → candidate_of runtime role (x ∷ xs) ≡ ok spec
    → x ≡ spec
candidate_of-eq-ok runtime role x spec xs h = elim (Bool-cases (x == "")) [
  | inl b ↦ absurd (ground arith)
  | inr b ↦ ap (value_or x) (rw (b, candidate_of) at h)
]

filtered_nonempty :
    (error : RouteError) (xs : List String)
    → elim xs [ [] ↦ failed error | y ∷ ys ↦ ok (y ∷ ys) ] ≢ ok []
filtered_nonempty error [] = λ e. cc
filtered_nonempty error (x ∷ xs) = λ e. cc

choose_models_nonempty :
    (runtime : RuntimeRoutingConfig) (role a : String) (allowed candidates : List String)
    → choose_models runtime role (some (a ∷ allowed)) candidates ≢ ok []
choose_models_nonempty runtime role a allowed [] = λ e. cc
choose_models_nonempty runtime role a allowed (c ∷ cs) =
    filtered_nonempty _ (filter (λ x. elem x (a ∷ allowed)) (c ∷ cs))

candidate-Among :
    (runtime : RuntimeRoutingConfig) (role spec : String) (models allowed : List String)
    → models ≢ []
    → Among models allowed
    → candidate_of runtime role models ≡ ok spec
    → elem spec allowed ≡ true
candidate-Among runtime role spec [] allowed ne h e = absurd (ne refl)
candidate-Among runtime role spec (x ∷ xs) allowed ne (p, h) e =
    subst (λ s. elem s allowed ≡ true) (candidate_of-eq-ok runtime role x spec xs e) p

module _ (r : ModelRoutingResolver) (fuel : ℕ) (role : String) (merged : NormalizedRule)
    (route : ResolvedModelRoute)
    (m : merge_rule_chain r.profiles fuel (resolve_role_rule r role).1 ≡ some merged)
    (h : resolve r fuel role ≡ some (ok route)) where
  Computed-resolve : Computed r.runtime role (resolve_role_rule r role).0 merged route
  unfolding resolve
  Computed-resolve =
      Computed-resolve_merged r.runtime role (resolve_role_rule r role).0 merged route
        (ground arith)

  -- If the merged rule has allowed models, the model of a route is one of them, and so are all its
  -- preferred models.
  pub resolve-allowed_models :
      (a : String) (allowed : List String)
      → nonempty_unique merged.allowed_models ≡ some (a ∷ allowed)
      → (elem route.model_spec (a ∷ allowed) ≡ true) × Among route.preferred_models (a ∷ allowed)
  unfolding resolve_preferred_models
  resolve-allowed_models a allowed e =
      let c = Computed-resolve in
      let chosen = rw e at c.models_ok in
      let inside =
        choose_models-Among r.runtime role (a ∷ allowed) _ route.preferred_models chosen in
      let nonempty : route.preferred_models ≢ [] =
        λ z. choose_models_nonempty r.runtime role a allowed _ (rw z at chosen) in
      (
        candidate-Among r.runtime role route.model_spec _ (a ∷ allowed) nonempty inside c.spec_ok,
        inside,
      )

  -- If a route has a provider and allowed accounts, its accounts are among the allowed ones.
  pub resolve-allowed_accounts :
      (provider : String) (allowed : List String)
      → truthy route.provider ≡ some provider
      → route.allowed_account_refs ≡ some allowed
      → Among route.preferred_account_refs allowed
  unfolding resolve_preferred_account_refs resolve_allowed_account_refs
  resolve-allowed_accounts provider allowed p e = elim (Option-cases (truthy merged.auth_profile)) [
    | inl n ↦
        let c = Computed-resolve in
        let kept : allowed_refs provider merged.allowed_accounts ≡ some allowed =
          sym (rw (n, p, resolve_allowed_account_refs) at c.allowed_ok) ∙ e in
        let given = rw (n, p, kept, resolve_preferred_account_refs) at c.accounts_ok in
        choose_accounts-Among role allowed _ _ _ route.preferred_account_refs given
    | inr (profile, s) ↦ absurd (ground (arith, Computed-resolve.allowed_ok))
  ]

ends_of_Merges :
    (r : ModelRoutingResolver) (role : String)
    → Merges r.profiles (resolve_role_rule r role).1
    → (fuel : ℕ) × (outcome : Outcome ResolvedModelRoute) × (resolve r fuel role ≡ some outcome)
unfolding resolve
ends_of_Merges r role (fuel, merged, e) =
    (fuel, resolve_merged r.runtime role (resolve_role_rule r role).0 merged, ground arith)

-- A resolver that has been constructed resolves each role, to a route or to an error.
pub resolve_ends :
    (routing : ProjectRoutingConfig) (runtime : RuntimeRoutingConfig) (r : ModelRoutingResolver)
    → new_resolver routing runtime ≡ some (ok r)
    → (role : String)
    → (fuel : ℕ) × (outcome : Outcome ResolvedModelRoute) × (resolve r fuel role ≡ some outcome)
unfolding new_resolver resolve
resolve_ends routing runtime r e role = elim (validate_decides (normalized_profiles routing)) [
  | inl (v, merges) ↦
      let same : resolver_of routing runtime ≡ r = ground arith in
      subst
        (λ r.
          (fuel : ℕ) × (outcome : Outcome ResolvedModelRoute) × (resolve r fuel role
            ≡ some outcome))
        same (ends_of_Merges (resolver_of routing runtime) role (merges _))
  | inr (names, name, v, never) ↦ absurd (ground arith)
]
