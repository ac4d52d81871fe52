-- ===== src/Providers/Health.antt =====
-- `ModelHealthTracker` of src/providers/health-tracker.ts. Times are counted in 1/128 ms: the
-- delays are 15000 and 30000 ms times powers of 1.5 up to the tenth, which are whole in that unit.
pub mod Backoff
use saivage.Base.{
  ℕ, ◌+◌, ◌*◌, ◌/◌, min, String, Option, none, some, List, [], ◌∷◌, map_get, map_set, map_delete,
}
use saivage.Providers.Candidates.{ChatCandidate}

-- A time of so many milliseconds.
abbrev pub ms : ℕ → ℕ
ms n = n * 128

pub record ModelHealth : Type 0 where
  pub consecutive_failures : ℕ
  pub disabled_until : ℕ
  pub backoff : ℕ

abbrev pub initial_backoff : ℕ
initial_backoff = ms 15000

abbrev pub max_backoff : ℕ
max_backoff = ms 600000

-- `b * 1.5`
abbrev pub times_1_5 : ℕ → ℕ
times_1_5 b = b * 3 / 2

abbrev pub HealthMap : Type 0
HealthMap = List (String × ModelHealth)

abbrev pub fresh_health : ModelHealth
fresh_health = record { consecutive_failures = 0; disabled_until = 0; backoff = initial_backoff }

abbrev pub or_fresh : Option ModelHealth → ModelHealth
or_fresh none = fresh_health
or_fresh (some h) = h

abbrev pub keep_fresh : HealthMap → String → Option ModelHealth → HealthMap
keep_fresh m key none = map_set m key fresh_health
keep_fresh m key (some h) = m

-- `getHealth`: an absent entry is made
unfoldable pub get_health : HealthMap → String → ModelHealth × HealthMap
get_health m key = (or_fresh (map_get m key), keep_fresh m key (map_get m key))

-- what `recordFailure` leaves in the entry; `now` is the clock at that moment
unfoldable pub after_failure : ℕ → ModelHealth → ModelHealth
after_failure now h = record {
  consecutive_failures = h.consecutive_failures + 1;
  disabled_until = now + h.backoff;
  backoff = min (times_1_5 h.backoff) max_backoff;
}

-- `recordFailure` on the entry of a key
unfoldable pub record_failure : HealthMap → String → ℕ → ModelHealth → HealthMap
record_failure m key now h = map_set m key (after_failure now h)

-- `resetHealth`
unfoldable pub reset_health : HealthMap → String → HealthMap
reset_health m key = map_delete m key

-- `resetModelHealth`
unfoldable pub reset_model_health : HealthMap → List ChatCandidate → HealthMap
reset_model_health m [] = m
reset_model_health m (c ∷ cs) = reset_model_health (reset_health m c.health_key) cs
