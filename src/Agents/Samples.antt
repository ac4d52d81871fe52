-- ===== src/Agents/Samples.antt =====
-- The theorems on src/agents at concrete inputs.
use saivage.Base.{◌*◌, ◌+◌, ◌≡◌, true, false, some, none, List, [], ◌∷◌, refl}
use saivage.Providers.Errors.{throttling, transient}
use saivage.Agents.RetryPolicy.{RetryPolicy, Failed, retry, decide, retries_all}

-- a cap of two, and delays that grow by a second
abbrev policy : RetryPolicy
policy = record {
  transient_cap = 2;
  growth = λ n. 30000 + n * 1000;
  max_delay = 40000;
  non_throttle_attempts = 0;
}

abbrev slow_down : Failed
slow_down = record { kind = throttling; retry_after = some 35000 }

abbrev hiccup : Failed
hiccup = record { kind = transient; retry_after = none }

abbrev series : List Failed
series = slow_down ∷ hiccup ∷ slow_down ∷ []

series_retried : retries_all policy 0 series ≡ true
unfolding retries_all
series_retried = refl

second_hiccup_thrown : retries_all policy 0 (hiccup ∷ hiccup ∷ []) ≡ false
unfolding retries_all
second_hiccup_thrown = refl

slow_down_retried : (decide policy slow_down 3).0 ≡ retry 35000 4 true
unfolding decide
slow_down_retried = refl
