-- ===== src/Providers/Chat/Window.antt =====
-- The sticky failovers of `ModelRouter.chat`, src/providers/router.ts: the window before the primary is
-- tried again.
use saivage.Base.{
  ℕ, suc, ◌+◌, ◌≤◌, ◌<◌, ◌≡◌, refl, arith, String, Bool, true, false, not, ◌||◌, ◌⊎◌, Option, none,
  some, List, [], ◌∷◌, all, nat_eq, map_get, map_get-map_set, eq_refl, ◌==◌, Bool-cases, inl, inr,
  if◌then◌else◌,
}
use saivage.Providers.Growth.{
  nth_delay, nth_delay-zero, nth_delay-suc, nth_delay_bounds, IsNth, retry-IsNth,
}
use saivage.Providers.Chat.{
  StickyFailover, primary_retry_base, primary_retry_max, is_full, is_none, retry_delay, stick,
}

-- An answer to a request from a candidate of `spec`; whether the primary had been tried before it.
pub record Answer : Type 0 where
  pub spec : String
  pub attempted_primary : Bool
  pub at : ℕ

-- The sticky failovers after answers to requests of one model spec, the last one first.
pub stick_all :
    String → List Answer → List (String × StickyFailover) → List (String × StickyFailover)
unfolding stick
stick_all model_spec [] m = m
stick_all model_spec (a ∷ earlier) m =
    stick model_spec a.spec a.attempted_primary a.at (stick_all model_spec earlier m)

-- Whether an answer opens a new window, after so many before it.
abbrev pub opens : Answer → ℕ → Bool
opens a n = a.attempted_primary || nat_eq n 0

-- How many of the answers have opened a window: the first one, and those after a try of the primary.
pub windows : List Answer → ℕ
windows [] = 0
windows (a ∷ earlier) = let n = windows earlier in if opens a n then suc n else n

abbrev pub FailsOver : String → List Answer → Type 0
FailsOver model_spec answers = all (λ (a : Answer). not (a.spec == model_spec)) answers ≡ true

abbrev nth_retry : ℕ → ℕ
nth_retry n = nth_delay primary_retry_base primary_retry_max n

nth_retry_bounds : (n : ℕ) → (0 < nth_retry n) × (nth_retry n ≤ primary_retry_max)
nth_retry_bounds n =
    omega (arith, nth_delay_bounds primary_retry_base primary_retry_max (omega arith) n)

abbrev entry : String → ℕ → ℕ → StickyFailover
entry spec delay now = record {
  spec = spec;
  retry_delay = delay;
  next_primary_retry_at = now + delay;
}

retry_delay-entry :
    (spec : String) (n now : ℕ)
    → retry_delay (some (entry spec (nth_retry n) now)) ≡ nth_retry (suc n)
retry_delay-entry spec n now =
    ground (arith, nth_delay-suc primary_retry_base primary_retry_max n, nth_retry_bounds n)

-- What `stick` does to the entry of the model spec.
stick_opens :
    (model_spec : String) (a : Answer) (m : List (String × StickyFailover))
    → is_full model_spec ≡ true
    → (a.spec == model_spec) ≡ false
    → map_get (stick model_spec a.spec a.attempted_primary a.at m) model_spec ≡ (
        if a.attempted_primary || is_none (map_get m model_spec)
        then some (entry a.spec (retry_delay (map_get m model_spec)) a.at)
        else map_get m model_spec)
unfolding stick
stick_opens model_spec a m full other = ground (
  arith,
  map_get-map_set m model_spec model_spec (entry a.spec (retry_delay (map_get m model_spec)) a.at),
  eq_refl model_spec,
)

module _ (model_spec : String) (m : List (String × StickyFailover))
    (full : is_full model_spec ≡ true) (fresh : map_get m model_spec ≡ none) where
  abbrev now_sticky : List Answer → Option StickyFailover
  now_sticky answers = map_get (stick_all model_spec answers m) model_spec

  now_sticky-next :
      (a : Answer) (earlier : List Answer)
      → (a.spec == model_spec) ≡ false
      → is_none (now_sticky earlier) ≡ nat_eq (windows earlier) 0
      → now_sticky (a ∷ earlier) ≡ (
          if opens a (windows earlier)
          then some (entry a.spec (retry_delay (now_sticky earlier)) a.at)
          else now_sticky earlier)
  unfolding stick_all
  now_sticky-next a earlier other n =
      rw (← n) (stick_opens model_spec a (stick_all model_spec earlier m) full other)

  now_sticky-delay :
      (answers : List Answer)
      → FailsOver model_spec answers
      → (retry_delay (now_sticky answers) ≡ nth_retry (windows answers))
        × (is_none (now_sticky answers) ≡ nat_eq (windows answers) 0)
  unfolding windows
  now_sticky-delay [] over =
      unfold stick_all in
      rw fresh (rw (nth_delay-zero primary_retry_base primary_retry_max) refl, refl)
  now_sticky-delay (a ∷ earlier) over =
      let (delay, absent) = now_sticky-delay earlier (ground arith) in
      let next = now_sticky-next a earlier (ground arith) absent in
      elim (Bool-cases (opens a (windows earlier))) [
        | inl new ↦
            rw (next, new, delay) (retry_delay-entry a.spec (windows earlier) a.at, ground arith)
        | inr old ↦ rw (next, old) (delay, absent)
      ]

  -- Where a full model spec has no sticky failover, and is then answered from other specs only:
  -- either the last answer is the first one or came after a try of the primary, and then its spec
  -- is the sticky failover and the primary's next try is due 30 s times 1.5 to the n after it,
  -- with nothing rounded, while n, the number of such answers before, is below ten, and twenty
  -- minutes after it from then on; or it is neither, and the sticky failover and its window stay
  -- as they were.
  pub stick_all-window :
      (a : Answer) (earlier : List Answer)
      → FailsOver model_spec (a ∷ earlier)
      → ((opens a (windows earlier) ≡ true)
          × ((delay : ℕ) × (map_get (stick_all model_spec (a ∷ earlier) m) model_spec
                ≡ some (record {
                  spec = a.spec;
                  retry_delay = delay;
                  next_primary_retry_at = a.at + delay;
                }))
              × IsNth primary_retry_base primary_retry_max (windows earlier) delay))
        ⊎ ((opens a (windows earlier) ≡ false)
            × (map_get (stick_all model_spec (a ∷ earlier) m) model_spec
                ≡ map_get (stick_all model_spec earlier m) model_spec))
  stick_all-window a earlier over =
      let (delay, absent) = now_sticky-delay earlier (ground arith) in
      let next = now_sticky-next a earlier (ground arith) absent in
      elim (Bool-cases (opens a (windows earlier))) [
        | inl new ↦ inl (
          new,
          (nth_retry (windows earlier), rw (next, new, delay) refl, retry-IsNth (windows earlier)),
        )
        | inr old ↦ inr (old, rw (next, old) refl)
      ]
