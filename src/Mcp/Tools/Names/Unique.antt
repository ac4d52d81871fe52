-- ===== src/Mcp/Tools/Names/Unique.antt =====
-- The names of external tools, `aliasToolName` of src/mcp/external-runtime.ts: their loops.
use saivage.Base.{
  ℕ, zero, suc, ◌≤◌, ◌<◌, String, ◌≡◌, refl, false, some, List, [], ◌∷◌, ◌++◌, arith, map, elem,
  length, inl, inr, Bool-cases, ◌==◌, remaining, remaining-le-length, remaining-cons-lt, Distinct,
  concat, test_of_ne, eq_comm,
}
use saivage.Mcp.Tools.Services.{McpRuntime}
use saivage.Mcp.Tools.Names.{
  RuntimeTool, numbered, first_free, alias_tool_name, visible_name, tool_entry, name_tools,
  external_tools, in_process_tools, get_all_tools, service_tools,
}

-- Different numbers give different names.
pub record Separates (print : ℕ → String) : Type 0 where
  pub separate : (base : String) (m n : ℕ) → numbered print base m ≡ numbered print base n → m ≡ n

abbrev pub names : List RuntimeTool → List String
names = map (λ tool. tool.name)

-- No name of the first list is in the second.
abbrev pub Apart : List String → List String → Type 0
Apart [] ys = Unit
Apart (x ∷ xs) ys = (elem x ys ≡ false) × Apart xs ys

Apart-cons :
    (x : String) (xs ys : List String) → Apart xs (x ∷ ys) → (elem x xs ≡ false) × Apart xs ys
Apart-cons x [] ys h = (refl, tt)
Apart-cons x (z ∷ xs) ys (e, h) =
    let (fresh, apart) = Apart-cons x xs ys h in
    (ground (arith, e, fresh, eq_comm x z), (ground (arith, e), apart))

module _ (print : ℕ → String) (separates : Separates print) where
  numbered-ne :
      (base : String) (n m : ℕ)
      → suc n ≤ m
      → (numbered print base n == numbered print base m) ≡ false
  numbered-ne base n m le =
      test_of_ne (numbered print base n) (numbered print base m)
        (λ same. omega (arith, le, separates.separate base n m same))

  fresh_next :
      (base : String) (n : ℕ) (tried : List String)
      → ((m : ℕ) → n ≤ m → elem (numbered print base m) tried ≡ false)
      → (m : ℕ) → suc n ≤ m
      → elem (numbered print base m) (numbered print base n ∷ tried) ≡ false
  fresh_next base n tried fresh m le = cc (numbered-ne base n m le, fresh m (omega (arith, le)))

  first_free-new :
      (visible : List String) (base : String) (fuel n : ℕ) (tried : List String)
      → remaining visible tried < fuel
      → ((m : ℕ) → n ≤ m → elem (numbered print base m) tried ≡ false)
      → (name : String) × (first_free print visible base fuel n ≡ some name)
        × (elem name visible ≡ false)
  unfolding first_free
  first_free-new visible base zero n tried enough fresh = ground (arith, enough)
  first_free-new visible base (suc fuel) n tried enough fresh =
      elim (Bool-cases (elem (numbered print base n) visible)) [
        | inl taken ↦
            let less =
              remaining-cons-lt visible (numbered print base n) tried taken
                (fresh n (omega arith)) in
            let (name, h, new) =
              first_free-new visible base fuel (suc n) (numbered print base n ∷ tried)
                (omega (arith, less, enough)) (fresh_next base n tried fresh) in
            (name, cc (h, taken), new)
        | inr free ↦ (numbered print base n, cc free, free)
      ]

  visible_name-new :
      (service tool : String) (visible : List String)
      → (name : String) × (visible_name print service tool visible ≡ some name)
        × (elem name visible ≡ false)
  unfolding alias_tool_name
  visible_name-new service tool visible =
      let base = concat (service ∷ "_" ∷ tool ∷ []) in
      elim (Bool-cases (elem tool visible)) [
        | inr free ↦ (tool, cc free, free)
        | inl taken ↦ elim (Bool-cases (elem base visible)) [
          | inr free ↦ (base, cc (taken, free), free)
          | inl also ↦
              let bound = remaining-le-length visible [] in
              let (name, h, new) =
                first_free-new visible base (suc (length visible)) 2 [] (omega (arith, bound))
                  (λ m le. refl) in
              (name, cc (taken, also, h), new)
        ]
      ]

  name_tools-Distinct :
      (tools : List (String × String)) (visible : List String)
      → (named : List RuntimeTool) × (name_tools print tools visible ≡ some named)
        × Distinct (names named)
        × Apart (names named) visible
  unfolding name_tools
  name_tools-Distinct [] visible = ([], refl, tt, tt)
  name_tools-Distinct ((service, tool) ∷ tools) visible =
      let (name, h, new) = visible_name-new service tool visible in
      let (named, h', distinct, apart) = name_tools-Distinct tools (name ∷ visible) in
      let (fresh, apart') = Apart-cons name (names named) visible apart in
      (tool_entry print service tool name ∷ named, cc (h, h'), (fresh, distinct), (new, apart'))

  -- If different numbers print differently, getAllTools returns: the tools of the in-process services as
  -- they are, then those of the external services under names of which none is given twice and none is an
  -- in-process tool's.
  pub get_all_tools-Distinct :
      (s : McpRuntime)
      → (external : List RuntimeTool) × (get_all_tools print s
          ≡ some (in_process_tools print s.in_process ++ external))
        × Distinct (names external)
        × Apart (names external) (names (in_process_tools print s.in_process))
  unfolding get_all_tools external_tools
  get_all_tools-Distinct s =
      let own = names (in_process_tools print s.in_process) in
      let (external, h, distinct, apart) =
        name_tools-Distinct (service_tools print s.services) own in
      (external, cc h, distinct, apart)
