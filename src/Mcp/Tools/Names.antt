-- ===== src/Mcp/Tools/Names.antt =====
-- The names under which tools are offered: `getAllTools` and `aliasToolName` of src/mcp/external-runtime.ts, and
-- `getAllTools` of src/mcp/runtime.ts. How a number is printed is a parameter.
pub mod Unique
use saivage.Base.{
  ℕ, zero, suc, ◌+◌, String, Bool, Option, none, some, List, [], ◌∷◌, ◌++◌, map, elem, length,
  if◌then◌else◌, ◌==◌, concat,
}
use saivage.Mcp.Tools.Services.{ManagedService, McpRuntime}

-- `RuntimeToolEntry`, as far as names go
pub record RuntimeTool : Type 0 where
  pub name : String
  pub service : String
  pub original_name : Option String

module _ (print : ℕ → String) where
  abbrev pub numbered : String → ℕ → String
  numbered base n = concat (base ∷ "_" ∷ print n ∷ [])

  -- the loop of `aliasToolName`
  unfoldable pub first_free : List String → String → ℕ → ℕ → Option String
  first_free visible base zero n = none
  first_free visible base (suc fuel) n =
      let rest = first_free visible base fuel (suc n) in
      if elem (numbered base n) visible then rest else some (numbered base n)

  -- `aliasToolName`
  unfoldable pub alias_tool_name : String → String → List String → Option String
  unfolding first_free
  alias_tool_name service tool visible =
      let base = concat (service ∷ "_" ∷ tool ∷ []) in
      if elem base visible then first_free visible base (suc (length visible)) 2 else some base

  -- the name under which a tool is shown
  abbrev pub visible_name : String → String → List String → Option String
  visible_name service tool visible =
      if elem tool visible then alias_tool_name service tool visible else some tool

  abbrev pub tool_entry : String → String → String → RuntimeTool
  tool_entry service tool name = record {
    name = name;
    service = service;
    original_name = if name == tool then none else some tool;
  }

  abbrev pub keep : RuntimeTool → Option (List RuntimeTool) → Option (List RuntimeTool)
  keep tool none = none
  keep tool (some tools) = some (tool ∷ tools)

  -- the two loops of `getAllTools`, over the tools with their services
  unfoldable pub name_tools : List (String × String) → List String → Option (List RuntimeTool)
  unfolding alias_tool_name
  name_tools [] visible = some []
  name_tools ((service, tool) ∷ tools) visible = elim (visible_name service tool visible) [
    | none ↦ none
    | some name ↦ keep (tool_entry service tool name) (name_tools tools (name ∷ visible))
  ]

  abbrev service_tools : List (String × ManagedService) → List (String × String)
  service_tools [] = []
  service_tools ((name, service) ∷ services) =
      map (λ tool. (name, tool)) service.tools ++ service_tools services

  -- `ExternalMcpRuntime.getAllTools`
  unfoldable pub external_tools : List String → McpRuntime → Option (List RuntimeTool)
  unfolding name_tools
  external_tools reserved s = name_tools (service_tools s.services) reserved

  abbrev entries_of : String → List String → List RuntimeTool
  entries_of service tools =
      map (λ tool. record { name = tool; service = service; original_name = none }) tools

  -- `InProcessServiceRegistry.getAllTools`
  unfoldable pub in_process_tools : List (String × List String) → List RuntimeTool
  in_process_tools [] = []
  in_process_tools ((name, tools) ∷ services) = entries_of name tools ++ in_process_tools services

  abbrev append_to : List RuntimeTool → Option (List RuntimeTool) → Option (List RuntimeTool)
  append_to tools none = none
  append_to tools (some more) = some (tools ++ more)

  -- `McpRuntime.getAllTools`
  unfoldable pub get_all_tools : McpRuntime → Option (List RuntimeTool)
  unfolding in_process_tools external_tools
  get_all_tools s =
      let own = in_process_tools s.in_process in
      append_to own (external_tools (map (λ tool. tool.name) own) s)
