-- ===== src/Runtime/Supervisor/Cancels.antt =====
-- The cancels of `RuntimeSupervisor`, src/runtime/supervisor.ts, counted.
use native.Mathlib.Nat.{mul-add}
use saivage.Base.{
  if◌then◌else◌, ℕ, suc, ◌+◌, ◌*◌, ◌≤◌, List, [], ◌∷◌, arith, inl, inr, Bool-cases, Option-cases,
  leb, not, ◌||◌, ◌&&◌, any, elem, ◌==◌,
}
use saivage.Runtime.Supervisor.{
  SupervisorConfig, Supervisor, Event, tick, verdict, start, stop, parse_verdict, check_fails,
  delay_over, Cancel, nobody, cancel, again, supervise, watch, select_abort_target, initial,
}

-- the agents that are cancelled for the first time
abbrev pub is_first : Cancel → ℕ
is_first nobody = 0
is_first (cancel id) = 1
is_first (again id) = 0

abbrev pub count_cancels : List Cancel → ℕ
count_cancels [] = 0
count_cancels (c ∷ cs) = is_first c + count_cancels cs

-- the verdicts that the system is stuck, an unreadable answer among them
abbrev pub is_stuck : Event → ℕ
is_stuck (verdict answer registry) = if parse_verdict answer then 1 else 0
is_stuck e = 0

abbrev pub count_stuck : List Event → ℕ
count_stuck [] = 0
count_stuck (e ∷ es) = is_stuck e + count_stuck es

supervise-cost :
    (config : SupervisorConfig) (s : Supervisor) (e : Event)
    → config.threshold * is_first (supervise config s e).1
        + (supervise config s e).0.consecutive_stuck
      ≤ s.consecutive_stuck + is_stuck e
unfolding supervise
supervise-cost config s start =
    elim (Bool-cases (not config.enabled || s.timer || not config.has_model)) [
      | inl e ↦ ground arith
      | inr e ↦ ground arith
    ]
supervise-cost config s stop = ground arith
supervise-cost config s tick = elim (Bool-cases (not s.timer || s.running || not config.enabled)) [
  | inl e ↦ ground arith
  | inr e ↦ ground arith
]
supervise-cost config s (verdict answer registry) = elim (Bool-cases s.running) [
  | inr idle ↦ ground arith
  | inl busy ↦ elim (Bool-cases (parse_verdict answer)) [
    | inr fine ↦ ground arith
    | inl bad ↦ elim (Bool-cases (leb config.threshold (suc s.consecutive_stuck))) [
      | inr below ↦ ground arith
      | inl reached ↦ elim (Option-cases (select_abort_target registry)) [
        | inl no_target ↦ ground arith
        | inr (c, target) ↦ ground arith
      ]
    ]
  ]
]
supervise-cost config s check_fails = ground arith
supervise-cost config s (delay_over id registry) =
    elim (Bool-cases (elem id s.scheduled && any (λ a. a.agent_id == id) registry)) [
      | inl e ↦ ground arith
      | inr e ↦ ground arith
    ]

watch-cost :
    (config : SupervisorConfig) (s : Supervisor) (es : List Event)
    → config.threshold * count_cancels (watch config s es) ≤ s.consecutive_stuck + count_stuck es
unfolding watch
watch-cost config s [] = omega arith
watch-cost config s (e ∷ es) =
    let next = (supervise config s e).0 in
    omega (
      arith,
      mul-add config.threshold (is_first (supervise config s e).1)
          (count_cancels (watch config next es)),
      supervise-cost config s e,
      watch-cost config next es,
    )

-- From the start, whatever happens: the agents that the supervisor cancels for the first time, times the
-- threshold, are no more than the verdicts that the system is stuck, unreadable answers among them.
pub watch-cancels :
    (config : SupervisorConfig) (es : List Event)
    → config.threshold * count_cancels (watch config initial es) ≤ count_stuck es
watch-cancels config es = omega (arith, watch-cost config initial es)
