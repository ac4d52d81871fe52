-- ===== src/Providers/Chat/Invariant.antt =====
-- The delays that a chat stores: `ModelRouter.chat` of src/providers/router.ts.
use saivage.Base.{
  ℕ, ◌≤◌, String, ◌≢◌, Bool, true, false, Option, none, List, [], ◌∷◌, arith, ◌==◌, eq_iff, map_get,
  AllEntries, AllEntries-get, AllEntries-delete, AllEntries-set, Option-cases, inl, inr, ltb,
  Bool-cases, ◌||◌, ◌&&◌, if◌then◌else◌, not,
}
use saivage.Providers.Errors.{ErrorKind}
use saivage.Providers.Candidates.{ChatCandidate, Chain}
use saivage.Providers.Health.{
  ModelHealth, HealthMap, initial_backoff, max_backoff, fresh_health, get_health, after_failure,
  record_failure, reset_health,
}
use saivage.Providers.Chat.{
  StickyFailover, RouterState, ok, failed, Probe, ChatRequest, Outcome, primary_retry_base,
  primary_retry_max, retry_delay, stick, Round, stop, go_on, settle, round, after_round, chat_loop,
  chat, CallResult, is_non_retryable, is_full,
}

-- 15 s ≤ the next delay ≤ 10 min.
abbrev pub InBackoffRange : String → ModelHealth → Type 0
InBackoffRange key h = (initial_backoff ≤ h.backoff) × (h.backoff ≤ max_backoff)

-- 30 s ≤ the delay before the primary's next try ≤ 20 min, and the failover is another spec.
abbrev pub InRetryRange : String → StickyFailover → Type 0
InRetryRange model_spec s =
    (primary_retry_base ≤ s.retry_delay)
    × (s.retry_delay ≤ primary_retry_max)
    × (s.spec ≢ model_spec)

pub record IsSound (s : RouterState) : Type 0 where
  pub health : AllEntries InBackoffRange s.health
  pub sticky : AllEntries InRetryRange s.sticky

get_health-range :
    (m : HealthMap) (key : String)
    → AllEntries InBackoffRange m
    → InBackoffRange key (get_health m key).0 × AllEntries InBackoffRange (get_health m key).1
unfolding get_health
get_health-range m key h = elim (Option-cases (map_get m key)) [
  | inl absent ↦ rw absent (
    (omega arith, omega arith),
    AllEntries-set InBackoffRange m key fresh_health h (omega arith, omega arith),
  )
  | inr (v, found) ↦ rw found (AllEntries-get InBackoffRange m key h found, h)
]

record_failure-range :
    (m : HealthMap) (key : String) (now : ℕ) (h : ModelHealth)
    → AllEntries InBackoffRange m
    → InBackoffRange key h
    → AllEntries InBackoffRange (record_failure m key now h)
unfolding record_failure
record_failure-range m key now h all (lo, hi) =
    AllEntries-set InBackoffRange m key (after_failure now h) all
      (unfold after_failure in (omega arith, omega arith))

retry_delay_range :
    (m : List (String × StickyFailover)) (model_spec : String)
    → AllEntries InRetryRange m
    → (primary_retry_base ≤ retry_delay (map_get m model_spec))
      × (retry_delay (map_get m model_spec) ≤ primary_retry_max)
retry_delay_range m model_spec h = elim (Option-cases (map_get m model_spec)) [
  | inl absent ↦ rw absent (omega arith, omega arith)
  | inr (s, found) ↦
      let (lo, hi, ne) = AllEntries-get InRetryRange m model_spec h found in
      rw found (ground arith, ground arith)
]

stick-range :
    (model_spec spec : String) (attempted : Bool) (now : ℕ) (m : List (String × StickyFailover))
    → AllEntries InRetryRange m
    → AllEntries InRetryRange (stick model_spec spec attempted now m)
unfolding stick
stick-range model_spec spec attempted now m h =
    let (lo, hi) = retry_delay_range m model_spec h in
    ground (
      arith,
      AllEntries-delete InRetryRange m model_spec h,
      AllEntries-delete InRetryRange m model_spec h,
      eq_iff spec model_spec,
    )

module _ {R : Type 0} (req : ChatRequest) (world : ChatCandidate → Probe R) where
  abbrev StaysSound : Round R → Type 0
  StaysSound (stop outcome s) = IsSound s
  StaysSound (go_on attempted last s) = IsSound s

  StaysSound-if :
      (b : Bool) (x y : Round R) → StaysSound x → StaysSound y → StaysSound (if b then x else y)
  StaysSound-if true x y hx hy = hx
  StaysSound-if false x y hx hy = hy

  settle-IsSound :
      (c : ChatCandidate) (attempted : Bool) (h : ModelHealth) (s : RouterState)
      → InBackoffRange c.health_key h
      → IsSound s
      → StaysSound (settle req world c (world c).result attempted h s)
  unfolding settle
  settle-IsSound c attempted h s range v = go (world c).result
    where
      go : (r : CallResult R) → StaysSound (settle req world c r attempted h s)
      go (ok r) = record {
        health =
            unfold reset_health in AllEntries-delete InBackoffRange s.health c.health_key v.health;
        sticky =
            stick-range req.model_spec c.spec attempted (world c).answered_at s.sticky v.sticky;
      }
      go (failed kind) =
          let worse =
            record_failure-range s.health c.health_key (world c).failed_at h v.health range in
          elim (Bool-cases (is_non_retryable kind)) [
            | inl final ↦ rw final v
            | inr next ↦ rw next (record { health = worse; sticky = v.sticky })
          ]

  round-IsSound :
      (c : ChatCandidate) (attempted : Bool) (last : Option ErrorKind) (s : RouterState)
      → IsSound s
      → StaysSound (round req world c attempted last s)
  unfolding round
  round-IsSound c attempted last s v =
      let (range, all) = get_health-range s.health c.health_key v.health in
      let s' : RouterState = record s { health = (get_health s.health c.health_key).1 } in
      let v' : IsSound s' = record { health = all; sticky = v.sticky } in
      let settled =
        settle-IsSound c (attempted || c.spec == req.model_spec)
          (get_health s.health c.health_key).0 s' range v' in
      StaysSound-if (ltb (world c).now (get_health s.health c.health_key).0.disabled_until) _ _ v' (
        StaysSound-if (not (is_full c.spec)) _ _ v' (
          StaysSound-if (not (world c).registered) _ _ v' (
            StaysSound-if (req.needs_images && not (world c).supports_images) _ _ v' (
              StaysSound-if (world c).key_fails _ _ v'
                (StaysSound-if (world c).limited _ _ v' settled)))))

  after_round-IsSound :
      (rest : Bool → Option ErrorKind → RouterState → Outcome R × RouterState)
      → ((attempted : Bool) (last : Option ErrorKind) (s : RouterState)
          → IsSound s
          → IsSound (rest attempted last s).1)
      → (r : Round R) → StaysSound r
      → IsSound (after_round rest r).1
  after_round-IsSound rest keep (stop outcome s) h = h
  after_round-IsSound rest keep (go_on attempted last s) h = keep attempted last s h

  chat_loop-IsSound :
      (chain : Chain) (attempted : Bool) (last : Option ErrorKind) (s : RouterState)
      → IsSound s
      → IsSound (chat_loop req world chain attempted last s).1
  unfolding chat_loop
  chat_loop-IsSound [] attempted last s v = v
  chat_loop-IsSound (c ∷ cs) attempted last s v =
      after_round-IsSound (chat_loop req world cs)
        (λ attempted' last' s'. chat_loop-IsSound cs attempted' last' s')
        (round req world c attempted last s) (round-IsSound c attempted last s v)

-- Whatever the providers answer, if it held before: each stored backoffMs stays between 15 s and
-- 10 min, each stored retryDelayMs between 30 s and 20 min, and no spec is its own sticky
-- failover.
pub chat-IsSound :
    {R : Type 0} (req : ChatRequest) (world : ChatCandidate → Probe R) (chain : Chain)
    (s : RouterState)
    → IsSound s
    → IsSound (chat req world chain s).1
unfolding chat
chat-IsSound req world chain s v = chat_loop-IsSound req world chain false none s v
