-- ===== src/Providers/Samples.antt =====
-- A router with two providers: runs, and the theorems at such inputs.
use mathlib.Core.List.{Memᴰ}
use saivage.Base.{
  ℕ, ◌+◌, ◌⊎◌, String, ◌≡◌, refl, Bool, true, false, none, some, List, [], ◌∷◌, arith, elem, All,
  Distinct, if◌then◌else◌, map_get,
}
use saivage.Providers.ModelId.{parse_model_id, join_spec}
use saivage.Providers.Candidates.{
  ChatCandidate, Options, Chain, has_key, candidates_of, append_candidates, successors, build_chain,
}
use saivage.Providers.Candidates.Termination.{IsClosed, build_chain_total}
use saivage.Providers.Candidates.Coverage.{keys, Reaches, here, next, build_chain_complete}
use saivage.Providers.Candidates.Origin.{HasOrigin, build_chain_sound}
use saivage.Providers.Health.{
  ms, initial_backoff, max_backoff, get_health, record_failure, reset_health, after_failure,
}
use saivage.Providers.Health.Backoff.{health_after, fail_all-cooldown}
use saivage.Providers.Growth.{IsNth}
use saivage.Providers.Chat.Window.{Answer, opens, windows, stick_all, stick_all-window}
use saivage.Providers.Errors.{Failure, throttling}
use saivage.Providers.Chat.{
  RouterState, ok, failed, Probe, ChatRequest, answered, chat_loop, round, settle, stick, chat,
  primary_retry_base, primary_retry_max, is_full,
}
use saivage.Providers.Chat.Invariant.{IsSound, chat-IsSound}
use saivage.Providers.Chat.Failover.{IsHarmless, IsUsable, chat_answer}
use saivage.Providers.Chat.Liveness.{WasAnswered, chat_fails_over}

abbrev candidate : String → String → ChatCandidate
candidate provider model = record {
  spec = join_spec provider model;
  account_ref = none;
  health_key = join_spec provider model;
}

abbrev options : Options
options = record {
  sticky = some (record { spec = "b/m"; next_primary_retry_at = 100 });
  now = 50;
  failover_chains = ("a", "b" ∷ []) ∷ ("b", "a" ∷ "c/k" ∷ []) ∷ [];
  model_equivalents = [];
  provider_names = "a" ∷ "b" ∷ [];
  provider_can_serve_model = λ p m. true;
  provider_before = λ p q. true;
  expand = λ p m. candidate p m ∷ [];
  is_provider_name = λ p. elem p ("a" ∷ "b" ∷ "c" ∷ []);
}

abbrev specs : List String
specs = "a/m" ∷ "b/m" ∷ "c/k" ∷ []

successors_a : successors options "a/m" ≡ "b/m" ∷ []
unfolding successors
successors_a = refl

chain_of_a :
    build_chain options 4 "a/m"
    ≡ some (candidate "b" "m" ∷ candidate "a" "m" ∷ candidate "c" "k" ∷ [])
unfolding build_chain append_candidates candidates_of successors
chain_of_a = refl

specs_closed : IsClosed options specs
unfolding successors
specs_closed = ((refl, tt), ((refl, (refl, tt)), (tt, tt)))

build_chain_total_example : (chain : Chain) × (build_chain options 4 "a/m" ≡ some chain)
build_chain_total_example = build_chain_total options specs specs_closed 4 "a/m" refl (omega arith)

Reaches-c : Reaches options "a/m" "c/k"
unfolding successors
Reaches-c = next {y = "b/m"} (next {y = "a/m"} here refl) refl

abbrev chain : Chain
chain = candidate "b" "m" ∷ candidate "a" "m" ∷ candidate "c" "k" ∷ []

build_chain_complete_example :
    All (λ c. has_key c.health_key chain ≡ true) (candidates_of options "c/k")
build_chain_complete_example = build_chain_complete options 4 "a/m" "c/k" chain chain_of_a Reaches-c

build_chain_sound_example : All (HasOrigin options "a/m") chain
build_chain_sound_example = build_chain_sound options 4 "a/m" chain chain_of_a

fail_all-cooldown_example :
    (delay : ℕ) × ((health_after "a/m" (9 ∷ 7 ∷ 3 ∷ []) []).disabled_until ≡ 9 + delay)
    × IsNth initial_backoff max_backoff 2 delay
    × ((health_after "a/m" (9 ∷ 7 ∷ 3 ∷ []) []).consecutive_failures ≡ 2 + 1)
fail_all-cooldown_example = fail_all-cooldown "a/m" 9 (7 ∷ 3 ∷ []) []

-- The first failure disables a model for 15 s, the third for 33.75 s.
first_cooldown : (health_after "a/m" (0 ∷ []) []).disabled_until ≡ ms 15000
unfolding health_after after_failure
first_cooldown = refl

third_cooldown : (health_after "a/m" (0 ∷ 0 ∷ 0 ∷ []) []).disabled_until ≡ ms 33750
unfolding health_after after_failure
third_cooldown = refl

abbrev first_answer : Answer
first_answer = record { spec = "b/m"; attempted_primary = true; at = 5 }

abbrev second_answer : Answer
second_answer = record { spec = "c/k"; attempted_primary = true; at = 8 }

a-is_full : is_full "a/m" ≡ true
unfolding parse_model_id
a-is_full = refl

stick_all-window_example :
    ((opens second_answer (windows (first_answer ∷ [])) ≡ true)
      × ((delay : ℕ) × (map_get (stick_all "a/m" (second_answer ∷ first_answer ∷ []) []) "a/m"
            ≡ some
                (record { spec = "c/k"; retry_delay = delay; next_primary_retry_at = 8 + delay }))
          × IsNth primary_retry_base primary_retry_max (windows (first_answer ∷ [])) delay))
    ⊎ ((opens second_answer (windows (first_answer ∷ [])) ≡ false)
        × (map_get (stick_all "a/m" (second_answer ∷ first_answer ∷ []) []) "a/m"
            ≡ map_get (stick_all "a/m" (first_answer ∷ []) []) "a/m"))
stick_all-window_example =
    stick_all-window "a/m" [] a-is_full refl second_answer (first_answer ∷ []) refl

abbrev not_found : Failure
not_found = record {
  context_re = false;
  orphan_re = false;
  api_type = none;
  code = some "odd";
  type_field = some "tokens";
  codex_status = none;
  status = some 404;
}

-- Provider "b" is throttled, "a" answers.
abbrev probe_of : Bool → Probe ℕ
probe_of good = record {
  now = 10;
  registered = true;
  supports_images = false;
  key_fails = false;
  limited = false;
  result = if good then ok 42 else failed throttling;
  answered_at = 20;
  failed_at = 20;
}

abbrev world : ChatCandidate → Probe ℕ
world c = probe_of (elem c.spec ("a/m" ∷ []))

abbrev request : ChatRequest
request = record { model_spec = "a/m"; needs_images = false }

abbrev start : RouterState
start = record { health = []; sticky = [] }

start-IsSound : IsSound start
start-IsSound = record { health = tt; sticky = tt }

chat-IsSound_example : IsSound (chat request world chain start).1
chat-IsSound_example = chat-IsSound request world chain start start-IsSound

chat_result :
    chat request world chain start
    ≡ (answered (candidate "a" "m") 42, (chat request world chain start).1)
unfolding chat chat_loop round settle stick get_health record_failure reset_health after_failure
    parse_model_id
chat_result = refl

chain-Distinct : Distinct (keys chain)
chain-Distinct = (refl, (refl, (refl, tt)))

chat_answer_example :
    Memᴰ (candidate "a" "m") chain
    × IsUsable request world start (candidate "a" "m") 42
    × (map_get (chat request world chain start).1.health "a/m" ≡ none)
chat_answer_example =
    chat_answer request world chain start (chat request world chain start).1 (candidate "a" "m") 42
      chain-Distinct chat_result

chain-IsHarmless : All (IsHarmless request world) chain
unfolding parse_model_id
chain-IsHarmless = (
  record { full = refl; key = refl; result = refl },
  (
    record { full = refl; key = refl; result = tt },
    (record { full = refl; key = refl; result = refl }, tt),
  ),
)

a-IsUsable : IsUsable request world start (candidate "a" "m") 42
unfolding parse_model_id
a-IsUsable = record {
  rested = refl;
  full = refl;
  registered = refl;
  images = refl;
  key = refl;
  limited = refl;
  result = refl;
}

chat_fails_over_example : WasAnswered (chat request world chain start).0
chat_fails_over_example =
    chat_fails_over request world chain start (candidate "a" "m") 42 chain-Distinct chain-IsHarmless
      (Memᴰ.tail (Memᴰ.head refl)) a-IsUsable
