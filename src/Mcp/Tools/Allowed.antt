-- ===== src/Mcp/Tools/Allowed.antt =====
-- The filters and the authorization of tool calls, src/mcp and src/agents/tool-filters.ts.
use saivage.Base.{
  ℕ, String, ◌≡◌, ◌⊎◌, refl, Bool, true, false, not, ◌||◌, Option, none, some, List, [], ◌∷◌, arith,
  elem, all, find?, inl, inr, Bool-cases, Option-cases, ◌==◌, eq_iff, eq_of_test, map_get,
}
use saivage.Mcp.Tools.{
  ToolFilterKind, planner, worker, reviewer, inspector, chat, librarian, plan_tools,
  apply_tool_filter, get_tool_filter, role_filters, Caller, Authorization, granted,
  authorize_tool_call, filtered,
}
use saivage.Mcp.Tools.Services.{
  McpRuntime, ManagedService, HandlerReply, CallEnd, reached, authorized, client_call,
  call_external, call_tool, assert_not_cooling_down,
}

-- The role has a filter, and it lets the tool through.
abbrev pub MayCall : String → String → Type 0
MayCall role tool =
    (kind : ToolFilterKind) × (get_tool_filter role ≡ some kind)
    × (apply_tool_filter kind tool ≡ true)

abbrev pub agent : String → Option Caller
agent role = some (record { role = role; operator = false })

filtered-MayCall :
    (role tool : String) → filtered (get_tool_filter role) tool ≡ granted → MayCall role tool
filtered-MayCall role tool h = elim (Option-cases (get_tool_filter role)) [
  | inl unknown ↦ ground (arith, h, unknown)
  | inr (kind, found) ↦ (kind, found, ground (arith, h, found))
]

granted-MayCall :
    (tools : List String) (role tool : String)
    → authorize_tool_call tools tool (agent role) ≡ granted
    → (elem tool tools ≡ true) × MayCall role tool
unfolding authorize_tool_call
granted-MayCall tools role tool h = elim (Bool-cases (elem tool tools)) [
  | inl declared ↦ (declared, filtered-MayCall role tool (ground (arith, h, declared)))
  | inr undeclared ↦ ground (arith, h, undeclared)
]

module _ {A : Type 0} where
  authorized-granted :
      (a : Authorization) (reply : HandlerReply A) {r : HandlerReply A}
      → authorized a reply ≡ reached r
      → a ≡ granted
  authorized-granted granted reply h = refl
  authorized-granted Authorization.unknown_tool reply h = cc h
  authorized-granted Authorization.unknown_role reply h = cc h
  authorized-granted Authorization.unauthorized reply h = cc h

  client_call-MayCall :
      (service : Option ManagedService) (role tool : String) (reply : HandlerReply A)
      {r : HandlerReply A}
      → client_call service tool (agent role) reply ≡ reached r
      → MayCall role tool
  client_call-MayCall none role tool reply {r} h = cc h
  client_call-MayCall (some service) role tool reply {r} h = elim (Bool-cases service.connected) [
    | inl up ↦
        (granted-MayCall service.tools role tool
          (authorized-granted _ reply {r = r} (cc (h, up)))).1
    | inr down ↦ cc (h, down)
  ]

  call_external-MayCall :
      (now : ℕ) (service role tool : String) (reply : HandlerReply A) (s : McpRuntime)
      {r : HandlerReply A}
      → (call_external now service tool (agent role) reply s).0 ≡ reached r
      → MayCall role tool
  unfolding call_external
  call_external-MayCall now service role tool reply s {r} h =
      elim (Bool-cases (assert_not_cooling_down now service s).0) [
        | inl clear ↦
            client_call-MayCall (map_get (assert_not_cooling_down now service s).1.services service)
              role tool reply {r = r} (cc (h, clear))
        | inr cooling ↦ cc (h, cooling)
      ]

  call_tool-MayCall :
      (now : ℕ) (service role tool : String) (reply r : HandlerReply A) (s : McpRuntime)
      → (call_tool now service tool (agent role) reply s).0 ≡ reached r
      → MayCall role tool
  unfolding call_tool
  call_tool-MayCall now service role tool reply r s h =
      elim (Option-cases (map_get s.in_process service)) [
        | inl external ↦
            call_external-MayCall now service role tool reply s {r = r} (cc (h, external))
        | inr (tools, here) ↦
            (granted-MayCall tools role tool (authorized-granted _ reply {r = r} (cc (h, here)))).1
      ]

all-elem :
    (p : String → Bool) (xs : List String) (x : String)
    → all p xs ≡ true
    → elem x xs ≡ true
    → p x ≡ true
all-elem p [] x h m = cc m
all-elem p (y ∷ ys) x h m = ground (arith, all-elem p ys x, eq_iff y x)

-- the filters other than the planner's
abbrev other_filters : String → Bool
other_filters tool =
    apply_tool_filter worker tool
    || apply_tool_filter reviewer tool
    || apply_tool_filter inspector tool
    || apply_tool_filter chat tool
    || apply_tool_filter librarian tool

plan_tools-other_filters : all (λ tool. not (other_filters tool)) plan_tools ≡ true
unfolding apply_tool_filter
plan_tools-other_filters = refl

find?-all :
    {B : Type 0} (p q : B → Bool) (xs : List B) {x : B}
    → all q xs ≡ true
    → find? p xs ≡ some x
    → (p x ≡ true) × (q x ≡ true)
find?-all p q [] h e = cc e
find?-all p q (y ∷ ys) {x} h e = elim (Bool-cases (p y)) [
  | inl found ↦
      let same : y ≡ x = cc (e, found) in
      let first : q y ≡ true = ground (arith, h) in (cc (found, same), cc (same, first))
  | inr passed ↦ find?-all p q ys (ground (arith, h)) (cc (e, passed))
]

abbrev is_planner : ToolFilterKind → Bool
is_planner planner = true
is_planner _ = false

abbrev planner_only : String × ToolFilterKind → Bool
planner_only (role, kind) = not (is_planner kind) || role == "planner"

get_tool_filter-planner : (role : String) → get_tool_filter role ≡ some planner → role ≡ "planner"
unfolding get_tool_filter
get_tool_filter-planner role h =
    elim (Option-cases (find? (λ entry. entry.0 == role) role_filters)) [
      | inl unknown ↦ cc (h, unknown)
      | inr (entry, found) ↦
          let (named, only) =
            find?-all (λ entry. entry.0 == role) planner_only role_filters refl found in
          let kind : entry.1 ≡ planner = cc (h, found) in
          let name : entry.0 ≡ "planner" =
            eq_of_test entry.0 "planner" (ground (arith, only, kind)) in
          cc (name, eq_of_test entry.0 role named)
    ]

only_planner :
    (kind : ToolFilterKind) (tool : String)
    → not (other_filters tool) ≡ true
    → apply_tool_filter kind tool ≡ true
    → kind ≡ planner
only_planner planner tool others lets = refl
only_planner worker tool others lets = ground (arith, others, lets)
only_planner reviewer tool others lets = ground (arith, others, lets)
only_planner inspector tool others lets = ground (arith, others, lets)
only_planner chat tool others lets = ground (arith, others, lets)
only_planner librarian tool others lets = ground (arith, others, lets)

abbrev memory_reads : List String
memory_reads = "list_memories" ∷ "get_memory" ∷ "search_memories" ∷ []

memory_reads-chat : all (λ tool. not (apply_tool_filter chat tool)) memory_reads ≡ true
unfolding apply_tool_filter
memory_reads-chat = refl

abbrev pub is_reached : {A : Type 0} → CallEnd A → Bool
is_reached (reached reply) = true
is_reached _ = false

is_reached-cases :
    {A : Type 0} (e : CallEnd A) → (is_reached e ≡ false) ⊎ ((r : HandlerReply A) × (e ≡ reached r))
is_reached-cases (reached r) = inr (r, refl)
is_reached-cases (CallEnd.refused a) = inl refl
is_reached-cases CallEnd.cooling_down = inl refl
is_reached-cases CallEnd.not_running = inl refl

chat_filter : get_tool_filter "chat" ≡ some chat
unfolding get_tool_filter
chat_filter = refl

-- Whatever services there are, a call of list_memories, get_memory or search_memories by the chat
-- agent, with no operator's context, reaches no handler and no client.
pub call_tool-chat :
    {A : Type 0} (now : ℕ) (service tool : String) (reply : HandlerReply A) (s : McpRuntime)
    → elem tool memory_reads ≡ true
    → is_reached (call_tool now service tool (agent "chat") reply s).0 ≡ false
call_tool-chat now service tool reply s read =
    elim (is_reached-cases (call_tool now service tool (agent "chat") reply s).0) [
      | inl refusal ↦ refusal
      | inr (r, h) ↦
          let (kind, found, lets) = call_tool-MayCall now service "chat" tool reply r s h in
          let refused =
            all-elem (λ tool. not (apply_tool_filter chat tool)) memory_reads tool memory_reads-chat
              read in
          let same : kind ≡ chat = cc (found, chat_filter) in ground (arith, refused, lets, same)
    ]

-- Whatever services there are, a call of a tool of the plan by an agent, with no operator's
-- context, reaches no handler and no client unless the agent's role is the planner.
pub call_tool-plan :
    {A : Type 0} (now : ℕ) (service role tool : String) (reply : HandlerReply A) (s : McpRuntime)
    → elem tool plan_tools ≡ true
    → (role == "planner") ≡ false
    → is_reached (call_tool now service tool (agent role) reply s).0 ≡ false
call_tool-plan now service role tool reply s plan other =
    elim (is_reached-cases (call_tool now service tool (agent role) reply s).0) [
      | inl refusal ↦ refusal
      | inr (r, h) ↦
          let (kind, found, lets) = call_tool-MayCall now service role tool reply r s h in
          let others =
            all-elem (λ tool. not (other_filters tool)) plan_tools tool plan_tools-other_filters
              plan in
          let same =
            get_tool_filter-planner role (cc (found, only_planner kind tool others lets)) in
          ground (arith, other, same, eq_iff role "planner")
    ]
