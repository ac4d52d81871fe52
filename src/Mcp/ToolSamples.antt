-- ===== src/Mcp/ToolSamples.antt =====
-- The theorems on the tools of agents and on the readers of bodies at concrete inputs.
use Prim.Native.String.{count, ◌++◌ as ◌+text◌}
use text.Mathlib.TextLemmas.{length-append}
use saivage.Base.{
  ℕ, zero, suc, ◌+◌, String, ◌≡◌, refl, ap, ◌∙◌, true, false, some, List, [], ◌∷◌, ◌++◌, arith,
  append_assoc, append-nil, Distinct,
}
use saivage.Mcp.HttpFetch.{
  BodyRead, value, no_value, Decoder, read_bounded_text_body, read_bounded_binary_body,
}
use saivage.Mcp.HttpFetch.Bounded.{Streams, text_prefix, read_bounded_text_body-prefix}
use saivage.Mcp.Tools.Services.{McpRuntime, HandlerReply, content, reached, call_tool}
use saivage.Mcp.Tools.Allowed.{agent, is_reached, call_tool-plan, call_tool-chat}
use saivage.Mcp.Tools.Names.{RuntimeTool, numbered, in_process_tools, get_all_tools}
use saivage.Mcp.Tools.Names.Unique.{Separates, names, Apart, get_all_tools-Distinct}

abbrev runtime : McpRuntime
runtime = record {
  in_process =
      ("plan", "plan_get" ∷ []) ∷ ("memory", "list_memories" ∷ []) ∷ ("files", "read" ∷ []) ∷ [];
  services = ("web", record { tools = "read" ∷ "read" ∷ "search" ∷ []; connected = true }) ∷ [];
  failures = [];
}

abbrev reply : HandlerReply ℕ
reply = content 1

planner_reaches : (call_tool 5 "plan" "plan_get" (agent "planner") reply runtime).0 ≡ reached reply
unfolding call_tool
planner_reaches = refl

call_tool-plan_example :
    is_reached (call_tool 5 "plan" "plan_get" (agent "coder") reply runtime).0 ≡ false
call_tool-plan_example = call_tool-plan 5 "plan" "coder" "plan_get" reply runtime refl refl

call_tool-chat_example :
    is_reached (call_tool 5 "memory" "list_memories" (agent "chat") reply runtime).0 ≡ false
call_tool-chat_example = call_tool-chat 5 "memory" "list_memories" reply runtime refl

-- a number as so many strokes
strokes : ℕ → String
strokes zero = ""
strokes (suc n) = "x" +text strokes n

count-strokes : (n : ℕ) → count (strokes n) ≡ n
unfolding strokes
count-strokes zero = refl
count-strokes (suc n) = length-append "x" (strokes n) ∙ omega (arith, count-strokes n)

count-numbered : (base : String) (n : ℕ) → count (numbered strokes base n) ≡ count base + (1 + n)
count-numbered base n = omega (
  arith,
  length-append base ("_" +text (strokes n +text "")),
  length-append "_" (strokes n +text ""),
  length-append (strokes n) "",
  count-strokes n,
)

strokes-Separates : Separates strokes
strokes-Separates = record {
  separate =
      λ base m n same. omega (arith, count-numbered base m, count-numbered base n, ap count same);
}

get_all_tools-Distinct_example :
    (external : List RuntimeTool) × (get_all_tools strokes runtime
      ≡ some (in_process_tools strokes runtime.in_process ++ external))
    × Distinct (names external)
    × Apart (names external) (names (in_process_tools strokes runtime.in_process))
get_all_tools-Distinct_example = get_all_tools-Distinct strokes strokes-Separates runtime

abbrev reads : List BodyRead
reads = value (1 ∷ 2 ∷ []) ∷ no_value ∷ value (3 ∷ 4 ∷ []) ∷ value (5 ∷ []) ∷ []

cut_off :
    read_bounded_binary_body (some reads) 3
    ≡ some (record { body = 1 ∷ 2 ∷ 3 ∷ []; bytes = 3; truncated = true })
unfolding read_bounded_binary_body
cut_off = refl

-- a text as the codes of its characters, which are bytes, with a mark where it ends
abbrev codes : Decoder (List ℕ) (Unit {0})
codes = record {
  start = tt;
  empty = [];
  append = λ s t. s ++ t;
  decode = λ state bytes. (bytes, state);
  flush = λ state. 0 ∷ [];
}

codes-Streams : Streams codes
codes-Streams = record {
  empty_left = λ t. refl;
  empty_right = λ t. append-nil t;
  assoc = λ t u v. append_assoc t u v;
  decode_nothing = λ s. refl;
  decode_split = λ s xs ys. refl;
}

read_bounded_text_body-prefix_example :
    read_bounded_text_body codes (some reads) 3 ≡ some (text_prefix codes 3 reads)
read_bounded_text_body-prefix_example =
    read_bounded_text_body-prefix codes codes-Streams 3 reads refl
