-- ===== src/Providers/Health/Backoff.antt =====
-- `ModelHealthTracker` of src/providers/health-tracker.ts: the cooldown after failures in a row.
use saivage.Base.{ℕ, suc, ◌+◌, ◌≡◌, refl, arith, String, List, [], ◌∷◌, map_get-map_delete, eq_refl}
use saivage.Providers.Growth.{nth_delay, nth_delay-zero, nth_delay-suc, IsNth, backoff-IsNth}
use saivage.Providers.Health.{
  ModelHealth, HealthMap, fresh_health, initial_backoff, max_backoff, get_health, after_failure,
  record_failure, reset_health,
}

-- The tracker after a success of a model and then failures at the given times, the last one first, as
-- the router calls it.
unfoldable pub fail_all : String → List ℕ → HealthMap → HealthMap
unfolding get_health record_failure reset_health
fail_all key [] m = reset_health m key
fail_all key (now ∷ earlier) m =
    let before = get_health (fail_all key earlier m) key in record_failure before.1 key now before.0

unfoldable pub health_after : String → List ℕ → HealthMap → ModelHealth
unfolding fail_all
health_after key times m = (get_health (fail_all key times m) key).0

abbrev pub length : List ℕ → ℕ
length [] = 0
length (x ∷ xs) = suc (length xs)

health_after-reset : (key : String) (m : HealthMap) → health_after key [] m ≡ fresh_health
unfolding health_after
health_after-reset key m = ground (arith, map_get-map_delete m key key, eq_refl key)

health_after-failure :
    (key : String) (now : ℕ) (earlier : List ℕ) (m : HealthMap)
    → health_after key (now ∷ earlier) m ≡ after_failure now (health_after key earlier m)
unfolding health_after
health_after-failure key now earlier m = ground (arith, eq_refl key)

backoff-health_after :
    (key : String) (times : List ℕ) (m : HealthMap)
    → ((health_after key times m).backoff ≡ nth_delay initial_backoff max_backoff (length times))
      × ((health_after key times m).consecutive_failures ≡ length times)
unfolding after_failure
backoff-health_after key [] m = rw (health_after-reset key m, nth_delay-zero) (refl, refl)
backoff-health_after key (now ∷ earlier) m =
    let (delay, count) = backoff-health_after key earlier m in
    rw (health_after-failure key now earlier m) (
      rw (nth_delay-suc initial_backoff max_backoff (length earlier), delay) refl,
      omega (arith, count),
    )

-- After a success of a model and then failures of it in a row, n of them before the last,
-- getHealth gives the model as disabled until 15 s times 1.5 to the n after the last failure, with
-- nothing rounded, while n is below ten, and until ten minutes after it from then on, never for
-- less than 15 s nor for more than ten minutes; and n + 1 failures are counted.
pub fail_all-cooldown :
    (key : String) (now : ℕ) (earlier : List ℕ) (m : HealthMap)
    → (delay : ℕ) × ((health_after key (now ∷ earlier) m).disabled_until ≡ now + delay)
      × IsNth initial_backoff max_backoff (length earlier) delay
      × ((health_after key (now ∷ earlier) m).consecutive_failures ≡ length earlier + 1)
unfolding after_failure
fail_all-cooldown key now earlier m =
    let (delay, count) = backoff-health_after key earlier m in
    (
      nth_delay initial_backoff max_backoff (length earlier),
      rw (health_after-failure key now earlier m, delay) refl,
      backoff-IsNth (length earlier),
      rw (health_after-failure key now earlier m, count) refl,
    )
