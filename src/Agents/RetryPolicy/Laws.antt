-- ===== src/Agents/RetryPolicy/Laws.antt =====
-- The delays and attempts of `RetryPolicy`, src/agents/retry-policy.ts.
use saivage.Base.{ℕ, suc, ◌+◌, ◌≤◌, ◌<◌, ◌≡◌, ◌↔◌, ◌⊎◌, Bool, true, List, [], ◌∷◌, arith, min, All}
use saivage.Providers.Errors.{ErrorKind, throttling, transient}
use saivage.Agents.RetryPolicy.{RetryPolicy, Failed, retry, decide, retries_all, or_zero}

abbrev pub Retryable : Failed → Type 0
Retryable err = (err.kind ≡ throttling) ⊎ (err.kind ≡ transient)

one_if_transient : ErrorKind → ℕ
one_if_transient transient = 1
one_if_transient kind = 0

-- how many of the failures are transient
pub transients : List Failed → ℕ
transients [] = 0
transients (err ∷ errs) = one_if_transient err.kind + transients errs

-- When the policy retries, it waits at most its longest delay, at least as long as the provider asks
-- for or that longest delay, at least as long as the attempt's growth or that longest delay, and
-- counts the attempt.
pub decide-delay :
    (p : RetryPolicy) (err : Failed) (attempt delay n : ℕ) (throttled : Bool)
    → (decide p err attempt).0 ≡ retry delay n throttled
    → (delay ≤ p.max_delay)
      × (min (or_zero err.retry_after) p.max_delay ≤ delay)
      × (min (p.growth attempt) p.max_delay ≤ delay)
      × (n ≡ suc attempt)
unfolding decide
decide-delay p err attempt delay n throttled h = ground arith

-- The policy retries a series of failures exactly if each is transient or a throttling, and there is
-- no transient one or the transient ones, with those counted before, stay below the cap.
pub retries_all_iff :
    (p : RetryPolicy) (attempt : ℕ) (errs : List Failed)
    → (retries_all p attempt errs ≡ true) ↔ (
        All Retryable errs
        × ((transients errs ≡ 0) ⊎ (p.non_throttle_attempts + transients errs < p.transient_cap)))
unfolding retries_all decide transients one_if_transient
retries_all_iff p attempt [] = ground arith
retries_all_iff p attempt (err ∷ errs) =
    ground (arith, retries_all_iff (decide p err attempt).1 (suc attempt) errs)
