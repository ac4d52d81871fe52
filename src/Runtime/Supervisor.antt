-- ===== src/Runtime/Supervisor.antt =====
-- `RuntimeSupervisor` of src/runtime/supervisor.ts: its timer, the answers of the model and the second
-- cancel as events. The prompt is left out, and the model's text is read already: it is JSON of the schema
-- or not.
pub mod Cancels
pub mod Target
use saivage.Base.{
  ℕ, zero, suc, ◌+◌, ◌≤◌, String, Bool, true, false, not, ◌||◌, ◌&&◌, Option, none, some, List, [],
  ◌∷◌, ◌++◌, any, elem, leb, if◌then◌else◌, ◌==◌,
}
use saivage.Runtime.Roster.{get_abort_priority}

-- an entry of `agentRegistry`
pub record Agent : Type 0 where
  pub agent_id : String
  pub role : String

pub record Candidate : Type 0 where
  pub agent_id : String
  pub priority : ℕ

abbrev with_priority : Agent → Option ℕ → List Candidate → List Candidate
with_priority a none cs = cs
with_priority a (some p) cs = record { agent_id = a.agent_id; priority = p } ∷ cs

-- the agents that have an abort priority
unfoldable pub candidates : List Agent → List Candidate
unfolding get_abort_priority
candidates [] = []
candidates (a ∷ agents) = with_priority a (get_abort_priority a.role) (candidates agents)

unfoldable pub insert_by_priority : Candidate → List Candidate → List Candidate
insert_by_priority c [] = c ∷ []
insert_by_priority c (d ∷ ds) =
    if leb c.priority d.priority then c ∷ d ∷ ds else d ∷ insert_by_priority c ds

-- the stable sort by rising priority
unfoldable pub by_priority : List Candidate → List Candidate
unfolding insert_by_priority
by_priority [] = []
by_priority (c ∷ cs) = insert_by_priority c (by_priority cs)

abbrev pub first {ℓ} : {A : Type ℓ} → List A → Option A
first [] = none
first (x ∷ xs) = some x

-- `selectAbortTarget`
unfoldable pub select_abort_target : List Agent → Option Candidate
unfolding candidates by_priority
select_abort_target registry = first (by_priority (candidates registry))

pub record SupervisorConfig : Type 0 where
  pub enabled : Bool
  pub has_model : Bool
  pub threshold : ℕ

-- the fields, with the ids for which a second cancel is scheduled
pub record Supervisor : Type 0 where
  pub timer : Bool
  pub running : Bool
  pub consecutive_stuck : ℕ
  pub scheduled : List String

abbrev pub initial : Supervisor
initial = record { timer = false; running = false; consecutive_stuck = 0; scheduled = [] }

-- what `parseLlmJsonAs` makes of the model's text: the field `stuck`, if it is given, or no such JSON
pub data Answer : Type 0 where
  parsed : Option Bool → Answer
  unreadable : Answer

-- `parseVerdict(…).stuck`
unfoldable pub parse_verdict : Answer → Bool
parse_verdict (parsed none) = false
parse_verdict (parsed (some stuck)) = stuck
parse_verdict unreadable = true

-- calls of `start` and `stop`; the timer fires; the model has answered, with the registry at that time, or
-- the request has failed; the delay of a second cancel is over
pub data Event : Type 0 where
  start stop tick check_fails : Event
  verdict : Answer → (registry : List Agent) → Event
  delay_over : (agent_id : String) → (registry : List Agent) → Event

-- which agent a step cancels, and whether for the first time
pub data Cancel : Type 0 where
  nobody : Cancel
  cancel again : (agent_id : String) → Cancel

-- `selectAbortTarget` and what follows at the threshold
abbrev pub abort : Supervisor → Option Candidate → Supervisor × Cancel
abort s none = (record s { running = false }, nobody)
abort s (some c) = (
  record s { running = false; consecutive_stuck = 0; scheduled = c.agent_id ∷ s.scheduled },
  cancel c.agent_id,
)

-- a step: `start`, `stop`, `checkOnce` up to its await, its continuation, and the callback of `setTimeout`
unfoldable pub supervise : SupervisorConfig → Supervisor → Event → Supervisor × Cancel
unfolding select_abort_target parse_verdict
supervise config s start = (
  if not config.enabled || s.timer || not config.has_model then s else record s { timer = true },
  nobody,
)
supervise config s stop = (record s { timer = false }, nobody)
supervise config s tick = (
  if not s.timer || s.running || not config.enabled then s else record s { running = true },
  nobody,
)
supervise config s (verdict answer registry) =
    if not s.running
    then (s, nobody)
    else (if not (parse_verdict answer)
        then (record s { running = false; consecutive_stuck = 0 }, nobody)
        else (if leb config.threshold (suc s.consecutive_stuck)
            then abort (record s { consecutive_stuck = suc s.consecutive_stuck })
                (select_abort_target registry)
            else (
              record s { running = false; consecutive_stuck = suc s.consecutive_stuck },
              nobody,
            )))
supervise config s check_fails = (record s { running = false }, nobody)
supervise config s (delay_over id registry) =
    (s, if elem id s.scheduled && any (λ a. a.agent_id == id) registry then again id else nobody)

-- what a series of events cancels, in order
unfoldable pub watch : SupervisorConfig → Supervisor → List Event → List Cancel
unfolding supervise
watch config s [] = []
watch config s (e ∷ es) = (supervise config s e).1 ∷ watch config (supervise config s e).0 es
