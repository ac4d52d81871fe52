-- ===== src/Providers/Growth.antt =====
-- A delay that grows by 1.5 up to a cap, as in src/providers/health-tracker.ts and router.ts. Both
-- reach their cap, forty times the first delay, at the tenth growth.
use saivage.Base.{
  ℕ, zero, suc, ◌+◌, ◌*◌, ◌^◌, ◌-◌, ◌≤◌, ◌<◌, min, ◌≡◌, refl, ap, arith, inl, inr, Bool, true, ◌&&◌,
  ltb, nat_eq, nat_eq→eq, Bool-cases, if◌then◌else◌,
}
use saivage.Providers.Health.{times_1_5}

-- The delay after so many growths.
pub nth_delay : ℕ → ℕ → ℕ → ℕ
nth_delay first cap zero = first
nth_delay first cap (suc n) = min (times_1_5 (nth_delay first cap n)) cap

pub nth_delay-zero : (first cap : ℕ) → nth_delay first cap 0 ≡ first
unfolding nth_delay
nth_delay-zero first cap = refl

pub nth_delay-suc :
    (first cap n : ℕ) → nth_delay first cap (suc n) ≡ min (times_1_5 (nth_delay first cap n)) cap
unfolding nth_delay
nth_delay-suc first cap n = refl

-- No rounding in the first growths, so many of them.
is_exact : ℕ → ℕ → ℕ → Bool
unfolding nth_delay
is_exact first cap zero = true
is_exact first cap (suc n) =
    nat_eq (nth_delay first cap n * 2 ^ n) (first * 3 ^ n) && is_exact first cap n

exact_below :
    (first cap k n : ℕ)
    → is_exact first cap k ≡ true
    → n < k
    → nth_delay first cap n * 2 ^ n ≡ first * 3 ^ n
unfolding is_exact
exact_below first cap zero n h lt = absurd (omega arith)
exact_below first cap (suc k) n h lt =
    ground
      (arith, exact_below first cap k n, nat_eq→eq (nth_delay first cap n * 2 ^ n) (first * 3 ^ n))

-- Once the cap is reached the delay stays there.
capped :
    (first cap k n : ℕ) → nth_delay first cap 10 ≡ cap → n ≡ k + 10 → nth_delay first cap n ≡ cap
unfolding nth_delay
capped first cap zero n ten e = rw e ten
capped first cap (suc k) zero ten e = absurd (omega arith)
capped first cap (suc k) (suc n) ten e = omega (arith, capped first cap k n ten (omega arith))

-- The delay is first · 1.5 to the n, with nothing rounded, and the cap from the tenth growth on.
abbrev pub IsNth : ℕ → ℕ → ℕ → ℕ → Type 0
IsNth first cap n delay =
    (delay * 2 ^ n ≡ (if ltb n 10 then first * 3 ^ n else cap * 2 ^ n))
    × (first ≤ delay)
    × (delay ≤ cap)

module _ (first cap : ℕ) (fits : first ≤ cap) where
  pub nth_delay_bounds : (n : ℕ) → (first ≤ nth_delay first cap n) × (nth_delay first cap n ≤ cap)
  unfolding nth_delay
  nth_delay_bounds zero = (omega arith, fits)
  nth_delay_bounds (suc n) = omega (arith, nth_delay_bounds n, fits)

  nth_delay-IsNth :
      is_exact first cap 10 ≡ true
      → nth_delay first cap 10 ≡ cap
      → (n : ℕ) → IsNth first cap n (nth_delay first cap n)
  nth_delay-IsNth exact ten n =
      let (lo, hi) = nth_delay_bounds n in
      elim (Bool-cases (ltb n 10)) [
        | inl below ↦ (rw below (exact_below first cap 10 n exact (ground arith)), lo, hi)
        | inr above ↦ (
          rw above (ap (λ b. b * 2 ^ n) (capped first cap (n - 10) n ten (ground arith))),
          lo,
          hi,
        )
      ]

-- From 15 s to 10 min, in 1/128 ms: `initial_backoff` and `max_backoff`.
pub backoff-IsNth : (n : ℕ) → IsNth 1920000 76800000 n (nth_delay 1920000 76800000 n)
unfolding is_exact nth_delay
backoff-IsNth n = nth_delay-IsNth 1920000 76800000 (omega arith) refl refl n

-- From 30 s to 20 min: `primary_retry_base` and `primary_retry_max`.
pub retry-IsNth : (n : ℕ) → IsNth 3840000 153600000 n (nth_delay 3840000 153600000 n)
unfolding is_exact nth_delay
retry-IsNth n = nth_delay-IsNth 3840000 153600000 (omega arith) refl refl n
