-- ===== src/Agents/RetryPolicy.antt =====
-- `RetryPolicy` of src/agents/retry-policy.ts, with times in milliseconds. The texts are left out.
pub mod Laws
use saivage.Base.{
  ℕ, suc, Bool, true, false, Option, none, some, List, [], ◌∷◌, ltb, leb, min, max, if◌then◌else◌,
}
use saivage.Providers.Errors.{
  ErrorKind, context_overflow, orphaned_tool_result, throttling, non_retryable, transient,
}

-- `growth attempt` is baseSeconds * Math.pow(multiplier, attempt), in milliseconds.
pub record RetryPolicy : Type 0 where
  pub transient_cap : ℕ
  pub growth : ℕ → ℕ
  pub max_delay : ℕ
  pub non_throttle_attempts : ℕ

-- a `ProviderError`: its kind and `retryAfterMs`
pub record Failed : Type 0 where
  pub kind : ErrorKind
  pub retry_after : Option ℕ

pub data RetryDecision : Type 0 where
  repair_context : ErrorKind → RetryDecision
  throw : ErrorKind → RetryDecision
  retry : (delay attempt_number : ℕ) → (throttled : Bool) → RetryDecision

-- `pe.retryAfterMs ? … : 0`
abbrev pub or_zero : Option ℕ → ℕ
or_zero none = 0
or_zero (some ms) = ms

abbrev pub delay_of : RetryPolicy → Option ℕ → ℕ → ℕ
delay_of p retry_after attempt =
    min (max (min (p.growth attempt) p.max_delay) (or_zero retry_after)) p.max_delay

abbrev retried : RetryPolicy → Option ℕ → ℕ → Bool → RetryDecision
retried p retry_after attempt throttled =
    retry (delay_of p retry_after attempt) (suc attempt) throttled

-- the branch of errors that are neither repaired nor thrown
abbrev by_throttling : RetryPolicy → Option ℕ → ℕ → Bool → RetryDecision × RetryPolicy
by_throttling p retry_after attempt true = (retried p retry_after attempt true, p)
by_throttling p retry_after attempt false =
    let counted = record p { non_throttle_attempts = suc p.non_throttle_attempts } in
    if leb p.transient_cap (suc p.non_throttle_attempts)
    then (throw transient, counted)
    else (retried p retry_after attempt false, counted)

abbrev by_kind : RetryPolicy → ErrorKind → Option ℕ → ℕ → RetryDecision × RetryPolicy
by_kind p context_overflow retry_after attempt = (repair_context context_overflow, p)
by_kind p orphaned_tool_result retry_after attempt = (repair_context orphaned_tool_result, p)
by_kind p non_retryable retry_after attempt = (throw non_retryable, p)
by_kind p throttling retry_after attempt = by_throttling p retry_after attempt true
by_kind p transient retry_after attempt = by_throttling p retry_after attempt false

-- `decide`
unfoldable pub decide : RetryPolicy → Failed → ℕ → RetryDecision × RetryPolicy
decide p err attempt = by_kind p err.kind err.retry_after attempt

abbrev pub is_retry : RetryDecision → Bool
is_retry (retry delay n throttled) = true
is_retry decision = false

-- A policy asked about one failure after another, as an agent does while it retries: whether it
-- retries each of them.
unfoldable pub retries_all : RetryPolicy → ℕ → List Failed → Bool
unfolding decide
retries_all p attempt [] = true
retries_all p attempt (err ∷ errs) =
    let rest = retries_all (decide p err attempt).1 (suc attempt) errs in
    if is_retry (decide p err attempt).0 then rest else false
