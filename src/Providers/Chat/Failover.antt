-- ===== src/Providers/Chat/Failover.antt =====
-- The rounds of `ModelRouter.chat`, src/providers/router.ts, and the candidates that they answer from.
use mathlib.Core.List.{Memᴰ}
use saivage.Base.{
  String, ◌≡◌, refl, sym, ◌∙◌, subst, Bool, true, false, not, ◌&&◌, ◌||◌, Option, none, [], ◌∷◌,
  arith, ◌==◌, eq_iff, ltb, map_get, map_get-map_delete, if◌then◌else◌, elem, Distinct,
  Option-cases, inl, inr,
}
use saivage.Providers.Errors.{ErrorKind}
use saivage.Providers.Candidates.{ChatCandidate, Chain}
use saivage.Providers.Candidates.Coverage.{keys}
use saivage.Providers.Health.{
  ModelHealth, HealthMap, or_fresh, get_health, record_failure, reset_health,
}
use saivage.Providers.Chat.{
  RouterState, CallResult, ok, failed, Probe, ChatRequest, Outcome, answered, raised, broken,
  is_non_retryable, is_full, Round, stop, go_on, settle, round, after_round, chat_loop, chat,
}

-- The health that the code reads for a key.
abbrev pub health_of : RouterState → String → ModelHealth
health_of s key = or_fresh (map_get s.health key)

health_of-get_health :
    (m : HealthMap) (key other : String)
    → or_fresh (map_get (get_health m key).1 other) ≡ or_fresh (map_get m other)
unfolding get_health
health_of-get_health m key other = elim (Option-cases (map_get m key)) [
  | inl absent ↦ ground (arith, map_get-map_delete m key other, eq_iff key other)
  | inr (h, found) ↦ rw found refl
]

module _ {R : Type 0} (req : ChatRequest) (world : ChatCandidate → Probe R) where
  -- No exception and no final error comes from the candidate.
  abbrev pub SafeResult : CallResult R → Type 0
  SafeResult (ok r) = Unit
  SafeResult (failed kind) = is_non_retryable kind ≡ false

  pub record IsHarmless (c : ChatCandidate) : Type 0 where
    pub full : is_full c.spec ≡ true
    pub key : (world c).key_fails ≡ false
    pub result : SafeResult (world c).result

  -- The router calls the candidate, and its provider answers `r`.
  pub record IsUsable (s : RouterState) (c : ChatCandidate) (r : R) : Type 0 where
    pub rested : ltb (world c).now (health_of s c.health_key).disabled_until ≡ false
    pub full : is_full c.spec ≡ true
    pub registered : (world c).registered ≡ true
    pub images : (req.needs_images && not (world c).supports_images) ≡ false
    pub key : (world c).key_fails ≡ false
    pub limited : (world c).limited ≡ false
    pub result : (world c).result ≡ ok r

  -- What one round may come to, from state `s`.
  abbrev pub Fits : RouterState → ChatCandidate → Round R → Type 0
  Fits s c (stop (answered d r) s') =
      (d ≡ c) × IsUsable s c r × (map_get s'.health c.health_key ≡ none)
  Fits s c (stop outcome s') = Unit
  Fits s c (go_on attempted last s') =
      (key : String) → (c.health_key == key) ≡ false → health_of s' key ≡ health_of s key

  Fits-if :
      (s : RouterState) (c : ChatCandidate) (b : Bool) (x y : Round R)
      → (b ≡ true → Fits s c x)
      → (b ≡ false → Fits s c y)
      → Fits s c (if b then x else y)
  Fits-if s c true x y hx hy = hx refl
  Fits-if s c false x y hx hy = hy refl

  -- the state after `getHealth`
  abbrev pub looked_up : RouterState → ChatCandidate → RouterState
  looked_up s c = record s { health = (get_health s.health c.health_key).1 }

  settle-Fits :
      (c : ChatCandidate) (attempted : Bool) (s : RouterState) (result : CallResult R)
      → ((r : R) → result ≡ ok r → IsUsable s c r)
      → Fits s c
          (settle req world c result attempted (get_health s.health c.health_key).0 (looked_up s c))
  unfolding settle
  settle-Fits c attempted s (ok r) usable = (
    refl,
    usable r refl,
    (unfold reset_health in
        ground (
          arith,
          map_get-map_delete (get_health s.health c.health_key).1 c.health_key c.health_key,
          eq_iff c.health_key c.health_key,
        )),
  )
  settle-Fits c attempted s (failed kind) usable =
      Fits-if s c (is_non_retryable kind) _ _ (λ final. tt)
        (λ next key other.
          (unfold record_failure in
            ground (
              arith,
              map_get-map_delete (get_health s.health c.health_key).1 c.health_key key,
              health_of-get_health s.health c.health_key key,
            )))

  pub round-Fits :
      (c : ChatCandidate) (attempted : Bool) (last : Option ErrorKind) (s : RouterState)
      → Fits s c (round req world c attempted last s)
  unfolding round
  round-Fits c attempted last s =
      let same = λ (key : String) (other : (c.health_key == key) ≡ false).
        health_of-get_health s.health c.health_key key in
      Fits-if s c (ltb (world c).now (get_health s.health c.health_key).0.disabled_until) _ _
        (λ resting. same)
        (λ rested.
          Fits-if s c (not (is_full c.spec)) _ _ (λ e. tt)
            (λ full.
              Fits-if s c (not (world c).registered) _ _ (λ e. same)
                (λ registered.
                  Fits-if s c (req.needs_images && not (world c).supports_images) _ _ (λ e. same)
                    (λ images.
                      Fits-if s c (world c).key_fails _ _ (λ e. tt)
                        (λ key.
                          Fits-if s c (world c).limited _ _ (λ e. same)
                            (λ limited.
                              settle-Fits c (attempted || c.spec == req.model_spec) s
                                (world c).result
                                (λ r result. record {
                                  rested = unfold get_health in rested;
                                  full = ground arith;
                                  registered = ground arith;
                                  images = images;
                                  key = key;
                                  limited = limited;
                                  result = result;
                                })))))))

  -- What the answer of a chat says of the chain and of the state before.
  abbrev AnswerFits : RouterState → Chain → Outcome R × RouterState → Type 0
  AnswerFits s chain (answered c r, s') =
      Memᴰ c chain × IsUsable s c r × (map_get s'.health c.health_key ≡ none)
  AnswerFits s chain (outcome, s') = Unit

  abbrev pub SameHealth : RouterState → RouterState → Chain → Type 0
  SameHealth s s' chain =
      (key : String) → elem key (keys chain) ≡ true → health_of s' key ≡ health_of s key

  pub IsUsable-same :
      (s s' : RouterState) (c : ChatCandidate) (r : R)
      → health_of s' c.health_key ≡ health_of s c.health_key
      → IsUsable s' c r
      → IsUsable s c r
  IsUsable-same s s' c r e u = record {
    rested = rw (← e) u.rested;
    full = u.full;
    registered = u.registered;
    images = u.images;
    key = u.key;
    limited = u.limited;
    result = u.result;
  }

  AnswerFits-tail :
      (s : RouterState) (c : ChatCandidate) (cs : Chain) (o : Outcome R × RouterState)
      → AnswerFits s cs o
      → AnswerFits s (c ∷ cs) o
  AnswerFits-tail s c cs (answered d r, s') (m, u, h) = (Memᴰ.tail m, u, h)
  AnswerFits-tail s c cs (raised k, s') h = tt
  AnswerFits-tail s c cs (broken, s') h = tt

  after_round-Fits :
      (s0 s : RouterState) (c : ChatCandidate) (cs : Chain)
      (rest : Bool → Option ErrorKind → RouterState → Outcome R × RouterState)
      → SameHealth s0 s (c ∷ cs)
      → elem c.health_key (keys cs) ≡ false
      → ((attempted : Bool) (last : Option ErrorKind) (s' : RouterState)
          → SameHealth s0 s' cs
          → AnswerFits s0 cs (rest attempted last s'))
      → (r : Round R) → Fits s c r
      → AnswerFits s0 (c ∷ cs) (after_round rest r)
  after_round-Fits s0 s c cs rest same new later (stop (answered d r) s') (e, u, gone) =
      subst (λ (x : ChatCandidate). AnswerFits s0 (c ∷ cs) (answered x r, s')) (sym e)
        (
          Memᴰ.head refl,
          IsUsable-same s0 s c r
              (same c.health_key (ground (arith, eq_iff c.health_key c.health_key))) u,
          gone,
        )
  after_round-Fits s0 s c cs rest same new later (stop (raised k) s') f = tt
  after_round-Fits s0 s c cs rest same new later (stop broken s') f = tt
  after_round-Fits s0 s c cs rest same new later (go_on attempted last s') f =
      AnswerFits-tail s0 c cs (rest attempted last s')
        (later attempted last s' (λ key m. f key (other key m) ∙ same key (ground arith)))
    where
      other : (key : String) → elem key (keys cs) ≡ true → (c.health_key == key) ≡ false
      other key m = ground (arith, eq_iff c.health_key key)

  chat_loop-fits :
      (s0 : RouterState) (chain : Chain) (attempted : Bool) (last : Option ErrorKind)
      (s : RouterState)
      → Distinct (keys chain)
      → SameHealth s0 s chain
      → AnswerFits s0 chain (chat_loop req world chain attempted last s)
  unfolding chat_loop
  chat_loop-fits s0 [] attempted last s d same = tt
  chat_loop-fits s0 (c ∷ cs) attempted last s (new, d) same =
      after_round-Fits s0 s c cs (chat_loop req world cs) same new
        (λ attempted' last' s'. chat_loop-fits s0 cs attempted' last' s' d)
        (round req world c attempted last s) (round-Fits c attempted last s)

  -- Over a chain without repeated health keys, a chat that answers does so with the answer of a
  -- candidate of the chain that was not cooling down and whose provider is registered, not limited
  -- and fit for the request, and it clears the health of that candidate.
  pub chat_answer :
      (chain : Chain) (s s' : RouterState) (c : ChatCandidate) (r : R)
      → Distinct (keys chain)
      → chat req world chain s ≡ (answered c r, s')
      → Memᴰ c chain × IsUsable s c r × (map_get s'.health c.health_key ≡ none)
  unfolding chat
  chat_answer chain s s' c r d e =
      subst (AnswerFits s chain) e (chat_loop-fits s chain false none s d (λ key m. refl))
