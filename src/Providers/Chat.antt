-- ===== src/Providers/Chat.antt =====
-- `ModelRouter.chat` of src/providers/router.ts over a candidate chain, one call from start to end.
-- What the loop meets outside (the clock, the provider of a candidate, the provider's answer) is a
-- `Probe` of the candidate; the answer's type is a parameter.
pub mod Invariant
pub mod Failover
pub mod Liveness
pub mod Window
use saivage.Base.{
  ℕ, ◌+◌, min, String, Bool, true, false, not, ◌&&◌, ◌||◌, Option, none, some, List, [], ◌∷◌, ltb,
  map_get, map_set, map_delete, if◌then◌else◌, ◌==◌,
}
use saivage.Providers.ModelId.{ModelId, parse_model_id}
use saivage.Providers.Errors.{ErrorKind, context_overflow, non_retryable, transient}
use saivage.Providers.Candidates.{ChatCandidate, Chain}
use saivage.Providers.Health.{
  ms, times_1_5, ModelHealth, HealthMap, get_health, record_failure, reset_health,
}

-- `StickyFailoverState`
pub record StickyFailover : Type 0 where
  pub spec : String
  pub retry_delay : ℕ
  pub next_primary_retry_at : ℕ

pub record RouterState : Type 0 where
  pub health : HealthMap
  pub sticky : List (String × StickyFailover)

-- `ProviderCaller.call`: an answer, or the kind of the classified error
pub data CallResult (R : Type 0) : Type 0 where
  ok : R → CallResult R
  failed : ErrorKind → CallResult R

-- `now` is the clock at the cooldown test, `answered_at` and `failed_at` after the call. `key_fails`:
-- the provider takes a key and `resolveApiKey` rejects.
pub record Probe (R : Type 0) : Type 0 where
  pub now : ℕ
  pub registered : Bool
  pub supports_images : Bool
  pub key_fails : Bool
  pub limited : Bool
  pub result : CallResult R
  pub answered_at : ℕ
  pub failed_at : ℕ

pub record ChatRequest : Type 0 where
  pub model_spec : String
  pub needs_images : Bool

-- `raised` is a `ProviderError` of that kind; `broken` another exception.
pub data Outcome (R : Type 0) : Type 0 where
  answered : ChatCandidate → R → Outcome R
  raised : ErrorKind → Outcome R
  broken : Outcome R

abbrev pub primary_retry_base : ℕ
primary_retry_base = ms 30000

abbrev pub primary_retry_max : ℕ
primary_retry_max = ms 1200000

-- `result.nonRetryable`
abbrev pub is_non_retryable : ErrorKind → Bool
is_non_retryable non_retryable = true
is_non_retryable context_overflow = true
is_non_retryable kind = false

abbrev pub is_full : String → Bool
is_full spec = elim (parse_model_id spec) [ none ↦ false | some id ↦ true ]

abbrev pub is_none {ℓ} : {A : Type ℓ} → Option A → Bool
is_none none = true
is_none (some a) = false

abbrev pub retry_delay : Option StickyFailover → ℕ
retry_delay none = primary_retry_base
retry_delay (some s) =
    min (if ltb 0 s.retry_delay then times_1_5 s.retry_delay else primary_retry_base)
      primary_retry_max

-- the sticky failovers after an answer from a candidate of `spec`
unfoldable pub stick :
    String → String → Bool → ℕ → List (String × StickyFailover) → List (String × StickyFailover)
stick model_spec spec attempted_primary now m =
    let sticky = map_get m model_spec in
    let delay = retry_delay sticky in
    if spec == model_spec
    then map_delete m model_spec
    else if is_full model_spec && (attempted_primary || is_none sticky)
    then map_set m model_spec
        (record { spec = spec; retry_delay = delay; next_primary_retry_at = now + delay })
    else m

-- What one round of the loop comes to: the call ends, or the loop goes on with the flag
-- `attemptedPrimary`, the kind of `lastError` and the state.
pub data Round (R : Type 0) : Type 0 where
  stop : Outcome R → RouterState → Round R
  go_on : Bool → Option ErrorKind → RouterState → Round R

abbrev pub after_round :
    {R : Type 0}
    → (Bool → Option ErrorKind → RouterState → Outcome R × RouterState)
    → Round R
    → Outcome R × RouterState
after_round rest (stop outcome s) = (outcome, s)
after_round rest (go_on attempted last s) = rest attempted last s

module _ {R : Type 0} (req : ChatRequest) (world : ChatCandidate → Probe R) where
  -- the branches after the provider's answer
  unfoldable pub settle : ChatCandidate → CallResult R → Bool → ModelHealth → RouterState → Round R
  settle c (ok r) attempted h s = stop (answered c r) (record {
    health = reset_health s.health c.health_key;
    sticky = stick req.model_spec c.spec attempted (world c).answered_at s.sticky;
  })
  settle c (failed kind) attempted h s =
      if is_non_retryable kind
      then stop (raised kind) s
      else go_on attempted (some kind)
          (record s { health = record_failure s.health c.health_key (world c).failed_at h })

  unfoldable pub round : ChatCandidate → Bool → Option ErrorKind → RouterState → Round R
  round c attempted last s =
      let p = world c in
      let h = (get_health s.health c.health_key).0 in
      let s' : RouterState = record s { health = (get_health s.health c.health_key).1 } in
      if ltb p.now h.disabled_until
      then go_on attempted last s'
      else if not (is_full c.spec)
      then stop broken s'
      else if not p.registered
      then go_on attempted last s'
      else if req.needs_images && not p.supports_images
      then go_on attempted (some transient) s'
      else if p.key_fails
      then stop broken s'
      else if p.limited
      then go_on attempted last s'
      else settle c p.result (attempted || c.spec == req.model_spec) h s'

  unfoldable pub chat_loop : Chain → Bool → Option ErrorKind → RouterState → Outcome R × RouterState
  chat_loop [] attempted last s = (raised (elim last [ none ↦ transient | some k ↦ k ]), s)
  chat_loop (c ∷ cs) attempted last s = after_round (chat_loop cs) (round c attempted last s)

  -- `chat` on the chain that `buildCandidateChain` has made
  unfoldable pub chat : Chain → RouterState → Outcome R × RouterState
  chat chain s = chat_loop chain false none s
