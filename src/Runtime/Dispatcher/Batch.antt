-- ===== src/Runtime/Dispatcher/Batch.antt =====
-- The results of a batch of src/runtime/dispatcher.ts.
use saivage.Base.{
  ℕ, ◌+◌, String, ◌≡◌, refl, Bool, not, some, List, [], ◌∷◌, ◌++◌, arith, map, filter, elem, inl,
  inr, Bool-cases, Option-cases, if◌then◌else◌, ◌==◌,
}
use saivage.Runtime.Roster.{dispatch_role, is_concurrency_limited}
use saivage.Runtime.Dispatcher.{
  ToolCall, ResultEntry, DispatchResult, Dispatcher, error_for, is_dispatch, execute_local_tool,
  run_locals, enforce_dispatch_limits, dispatch_entry, process_tool_calls,
}

-- how many calls, and how many results, have an id
abbrev pub count_calls : String → List ToolCall → ℕ
count_calls id [] = 0
count_calls id (c ∷ cs) = (if c.id == id then 1 else 0) + count_calls id cs

abbrev pub count_results : String → List ResultEntry → ℕ
count_results id [] = 0
count_results id (e ∷ es) = (if e.tool_use_id == id then 1 else 0) + count_results id es

count_results-append :
    (id : String) (xs ys : List ResultEntry)
    → count_results id (xs ++ ys) ≡ count_results id xs + count_results id ys
count_results-append id [] ys = omega arith
count_results-append id (x ∷ xs) ys = omega (arith, count_results-append id xs ys)

count_results-errors :
    (id : String) (cs : List ToolCall) → count_results id (map error_for cs) ≡ count_calls id cs
count_results-errors id [] = refl
count_results-errors id (c ∷ cs) = ground (arith, count_results-errors id cs)

count_results-dispatches :
    (d : Dispatcher) (id : String) (cs : List ToolCall)
    → count_results id (map (dispatch_entry d) cs) ≡ count_calls id cs
count_results-dispatches d id [] = refl
count_results-dispatches d id (c ∷ cs) = ground (arith, count_results-dispatches d id cs)

count_calls-split :
    (p : ToolCall → Bool) (id : String) (cs : List ToolCall)
    → count_calls id cs ≡ count_calls id (filter (λ c. not (p c)) cs) + count_calls id (filter p cs)
count_calls-split p id [] = refl
count_calls-split p id (c ∷ cs) = elim (Bool-cases (p c)) [
  | inl e ↦ ground (arith, count_calls-split p id cs)
  | inr e ↦ ground (arith, count_calls-split p id cs)
]

execute_local_tool-id :
    (d : Dispatcher) (n : ℕ) (c : ToolCall) {e : ResultEntry}
    → (execute_local_tool d n c).0 ≡ some e
    → e.tool_use_id ≡ c.id
unfolding execute_local_tool
execute_local_tool-id d n c h = ground arith

run_locals-count :
    (d : Dispatcher) (id : String) (n : ℕ) (cs : List ToolCall) {es : List ResultEntry}
    → (run_locals d n cs).results ≡ some es
    → count_results id es ≡ count_calls id cs
unfolding run_locals
run_locals-count d id n [] h = ground arith
run_locals-count d id n (c ∷ cs) h =
    let next = (execute_local_tool d n c).1 in
    elim (Bool-cases c.signalled) [
      | inl s ↦ elim (Option-cases (run_locals d n cs).results) [
        | inl r ↦ absurd (ground arith)
        | inr (rest, r) ↦ ground (arith, run_locals-count d id n cs r)
      ]
      | inr s ↦ elim (Option-cases (execute_local_tool d n c).0) [
        | inl e ↦ absurd (ground arith)
        | inr (entry, e) ↦ elim (Option-cases (run_locals d next cs).results) [
          | inl r ↦ absurd (ground arith)
          | inr (rest, r) ↦
              ground (arith, run_locals-count d id next cs r, execute_local_tool-id d n c e)
        ]
      ]
    ]

limits-count :
    (id : String) (seen : List String) (cs : List ToolCall)
    → (let l = enforce_dispatch_limits seen (filter is_dispatch cs) in
        count_calls id l.rejected + count_calls id l.allowed)
      ≡ count_calls id (filter is_dispatch cs)
unfolding enforce_dispatch_limits is_dispatch
limits-count id seen [] = refl
limits-count id seen (c ∷ cs) = elim (Option-cases (dispatch_role c.name)) [
  | inl none_e ↦ ground (arith, limits-count id seen cs)
  | inr (role, e) ↦ elim (Bool-cases (is_concurrency_limited role)) [
    | inr free ↦ ground (arith, limits-count id seen cs)
    | inl limited ↦ elim (Bool-cases (elem role seen)) [
      | inl again ↦ ground (arith, limits-count id seen cs)
      | inr first ↦ ground (arith, limits-count id (role ∷ seen) cs)
    ]
  ]
]

-- If processing the calls of a response returns, there is one result for each call: each id is answered
-- as often as it is asked.
pub process_tool_calls-count :
    (d : Dispatcher) (invalid : ℕ) (calls : List ToolCall) (id : String) {r : DispatchResult}
    → (process_tool_calls d invalid calls).0 ≡ some r
    → count_results id r.tool_results ≡ count_calls id calls
unfolding process_tool_calls
process_tool_calls-count d invalid calls id {r} h =
    let locals = filter (λ c. not (is_dispatch c)) calls in
    let limits = enforce_dispatch_limits [] (filter is_dispatch calls) in
    elim (Option-cases (run_locals d invalid locals).results) [
      | inl e ↦ absurd (ground arith)
      | inr (es, e) ↦
          let rest = map error_for limits.rejected ++ map (dispatch_entry d) limits.allowed in
          let same : r.tool_results ≡ es ++ rest = ground arith in
          ground (
            arith,
            same,
            count_results-append id es rest,
            count_results-append id (map error_for limits.rejected)
                (map (dispatch_entry d) limits.allowed),
            count_results-errors id limits.rejected,
            count_results-dispatches d id limits.allowed,
            run_locals-count d id invalid locals e,
            limits-count id [] calls,
            count_calls-split is_dispatch id calls,
          )
    ]
