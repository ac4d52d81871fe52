-- ===== src/Mcp/Tools/Services.antt =====
-- `InProcessServiceRegistry`, `ExternalMcpRuntime` and `McpRuntime` of src/mcp: the registration of services, their
-- start and stop, the cooling down after failures, and the calls. The health checks by timer are left out.
use saivage.Base.{
  ℕ, String, Bool, true, false, not, ◌+◌, Option, none, some, List, [], ◌∷◌, ◌++◌, filter, length,
  leb, if◌then◌else◌, ◌==◌, map_get, map_set, map_delete,
}
use saivage.Mcp.Tools.{Caller, Authorization, granted, authorize_tool_call}

-- an external service: its tools, by name, and whether its client is connected
pub record ManagedService : Type 0 where
  pub tools : List String
  pub connected : Bool

-- `ExternalFailureState`
pub record FailureState : Type 0 where
  pub failures : List ℕ
  pub cooldown_until : ℕ

-- `ExternalMcpRuntimeOptions`
pub record CrashOptions : Type 0 where
  pub threshold : ℕ
  pub window_ms : ℕ
  pub cooldown_ms : ℕ

pub record McpRuntime : Type 0 where
  pub in_process : List (String × List String)
  pub services : List (String × ManagedService)
  pub failures : List (String × FailureState)

-- `set` of a `Map`, whose entries keep their order
abbrev pub replace : {V : Type 0} → List (String × V) → String → V → List (String × V)
replace [] k v = (k, v) ∷ []
replace ((j, w) ∷ m) k v = if j == k then (k, v) ∷ m else (j, w) ∷ replace m k v

-- `InProcessServiceRegistry.register`
unfoldable pub register : String → List String → McpRuntime → McpRuntime
register name tools s = record s { in_process = replace s.in_process name tools }

-- `assertNotCoolingDown`: whether it returns, and the map after it
abbrev check_cooldown :
    ℕ
    → String
    → Option FailureState
    → List (String × FailureState)
    → Bool × List (String × FailureState)
check_cooldown now name none failures = (true, failures)
check_cooldown now name (some f) failures =
    if leb f.cooldown_until 0
    then (true, failures)
    else if leb f.cooldown_until now
    then (true, map_delete failures name)
    else (false, failures)

unfoldable pub assert_not_cooling_down : ℕ → String → McpRuntime → Bool × McpRuntime
assert_not_cooling_down now name s =
    let (clear, failures) = check_cooldown now name (map_get s.failures name) s.failures in
    (clear, record s { failures = failures })

abbrev state_or_new : Option FailureState → FailureState
state_or_new none = record { failures = []; cooldown_until = 0 }
state_or_new (some f) = f

-- `recordExternalFailure`: whether the service cools down now
unfoldable pub record_external_failure : CrashOptions → ℕ → String → McpRuntime → Bool × McpRuntime
record_external_failure options now name s =
    let old = state_or_new (map_get s.failures name) in
    let recent = filter (λ t. leb now (t + options.window_ms)) old.failures ++ now ∷ [] in
    let cools = leb options.threshold (length recent) in
    let new : FailureState =
      if cools
      then record { failures = []; cooldown_until = now + options.cooldown_ms }
      else record { failures = recent; cooldown_until = old.cooldown_until } in
    (cools, record s { failures = map_set s.failures name new })

pub data StartOutcome : Type 0 where
  started start_cooling_down connect_failed : StartOutcome

-- `startFromEntry`: the clock at its two readings, and the tools of the client that connects, or none
unfoldable pub start_from_entry :
    CrashOptions → ℕ → ℕ → String → Option (List String) → McpRuntime → StartOutcome × McpRuntime
unfolding assert_not_cooling_down record_external_failure
start_from_entry options now later name connection s =
    let (clear, s') = assert_not_cooling_down now name s in
    if not clear then (start_cooling_down, s') else elim connection [
      | none ↦
          let (cools, s'') = record_external_failure options later name s' in (connect_failed, s'')
      | some tools ↦ (
        started,
        record s' {
          services = replace s'.services name (record { tools = tools; connected = true });
          failures = map_delete s'.failures name;
        },
      )
    ]

-- `stopService`, where the client's `disconnect` returns
unfoldable pub stop_service : String → McpRuntime → McpRuntime
stop_service name s = record s { services = map_delete s.services name }

-- what a handler or a client answers in the time that it has
pub data HandlerReply (A : Type 0) : Type 0 where
  content : A → HandlerReply A
  error_result rejected timed_out : HandlerReply A

-- how a call ends: before a handler or client is reached, or with what that answers
pub data CallEnd (A : Type 0) : Type 0 where
  refused : Authorization → CallEnd A
  cooling_down not_running : CallEnd A
  reached : HandlerReply A → CallEnd A

module _ {A : Type 0} where
  abbrev pub authorized : Authorization → HandlerReply A → CallEnd A
  authorized granted reply = reached reply
  authorized other reply = refused other

  abbrev pub client_call :
      Option ManagedService → String → Option Caller → HandlerReply A → CallEnd A
  client_call none tool caller reply = not_running
  client_call (some service) tool caller reply =
      if service.connected
      then authorized (authorize_tool_call service.tools tool caller) reply
      else not_running

  -- `ExternalMcpRuntime.callTool`
  unfoldable pub call_external :
      ℕ → String → String → Option Caller → HandlerReply A → McpRuntime → CallEnd A × McpRuntime
  unfolding assert_not_cooling_down authorize_tool_call
  call_external now service tool caller reply s =
      let (clear, s') = assert_not_cooling_down now service s in
      if not clear
      then (cooling_down, s')
      else (client_call (map_get s'.services service) tool caller reply, s')

  -- `McpRuntime.callTool`: an in-process service, else an external one
  unfoldable pub call_tool :
      ℕ → String → String → Option Caller → HandlerReply A → McpRuntime → CallEnd A × McpRuntime
  unfolding call_external authorize_tool_call
  call_tool now service tool caller reply s = elim (map_get s.in_process service) [
    | some tools ↦ (authorized (authorize_tool_call tools tool caller) reply, s)
    | none ↦ call_external now service tool caller reply s
  ]
