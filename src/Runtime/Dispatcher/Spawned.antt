-- ===== src/Runtime/Dispatcher/Spawned.antt =====
-- The children that a batch of src/runtime/dispatcher.ts spawns.
use saivage.Base.{
  ℕ, ◌+◌, ◌≤◌, min, String, ◌≡◌, refl, sym, subst, ap, ◌∙◌, Bool, true, false, not, ◌&&◌, Option,
  none, some, List, [], ◌∷◌, arith, filter, elem, all, inl, inr, Bool-cases, Option-cases,
  if◌then◌else◌, ◌==◌, eq_iff,
}
use saivage.Runtime.Roster.{dispatch_role, is_concurrency_limited}
use saivage.Runtime.Dispatcher.{
  ToolCall, DispatchResult, Dispatcher, is_dispatch, run_locals, enforce_dispatch_limits,
  process_tool_calls,
}

abbrev is_some_of : String → Option String → Bool
is_some_of role none = false
is_some_of role (some r) = r == role

-- how many calls dispatch the role
abbrev pub count_role : String → List ToolCall → ℕ
count_role role [] = 0
count_role role (c ∷ cs) =
    (if is_some_of role (dispatch_role c.name) then 1 else 0) + count_role role cs

-- how many children a role may have in a batch that asks for `n`
abbrev pub at_most : String → ℕ → ℕ
at_most role n = if is_concurrency_limited role then min 1 n else n

-- how many more, where the roles of `seen` have theirs
still : String → List String → ℕ → ℕ
still role seen n =
    if is_concurrency_limited role then (if elem role seen then 0 else min 1 n) else n

count_role-filter :
    (p : ToolCall → Bool) (role : String) (cs : List ToolCall)
    → count_role role (filter p cs) ≤ count_role role cs
count_role-filter p role [] = omega arith
count_role-filter p role (c ∷ cs) = elim (Bool-cases (p c)) [
  | inl e ↦ ground (arith, count_role-filter p role cs)
  | inr e ↦ ground (arith, count_role-filter p role cs)
]

still-zero : (role : String) (seen : List String) → still role seen 0 ≡ 0
unfolding still
still-zero role seen = elim (Bool-cases (is_concurrency_limited role)) [
  | inr free ↦ rw free refl
  | inl limited ↦ elim (Bool-cases (elem role seen)) [
    | inl again ↦ rw (limited, again) refl
    | inr first ↦ rw (limited, first) (omega arith)
  ]
]

-- a limited role that has not been seen, and that is seen now
still-first :
    (role r : String) (seen : List String) (n : ℕ)
    → is_concurrency_limited r ≡ true
    → elem r seen ≡ false
    → (if r == role then 1 else 0) + still role (r ∷ seen) n
      ≡ still role seen ((if r == role then 1 else 0) + n)
unfolding still
still-first role r seen n l e = elim (Bool-cases (r == role)) [
  | inl same ↦
      let path = (eq_iff r role).0 same in
      let l' : is_concurrency_limited role ≡ true =
        subst (λ x. is_concurrency_limited x ≡ true) path l in
      let e' : elem role seen ≡ false = subst (λ x. elem x seen ≡ false) path e in
      rw (same, l', e') (omega arith)
  | inr other ↦ let z : 0 + n ≡ n = omega arith in rw (other, z) (omega arith)
]

-- one that has been seen
still-again :
    (role r : String) (seen : List String) (n : ℕ)
    → is_concurrency_limited r ≡ true
    → elem r seen ≡ true
    → still role seen n ≡ still role seen ((if r == role then 1 else 0) + n)
unfolding still
still-again role r seen n l e = elim (Bool-cases (r == role)) [
  | inl same ↦
      let path = (eq_iff r role).0 same in
      let l' : is_concurrency_limited role ≡ true =
        subst (λ x. is_concurrency_limited x ≡ true) path l in
      let e' : elem role seen ≡ true = subst (λ x. elem x seen ≡ true) path e in
      rw (same, l', e') refl
  | inr other ↦ let z : 0 + n ≡ n = omega arith in rw (other, z) refl
]

-- one that is not limited
still-free :
    (role r : String) (seen : List String) (n : ℕ)
    → is_concurrency_limited r ≡ false
    → (if r == role then 1 else 0) + still role seen n
      ≡ still role seen ((if r == role then 1 else 0) + n)
unfolding still
still-free role r seen n l = elim (Bool-cases (r == role)) [
  | inl same ↦
      let l' : is_concurrency_limited role ≡ false =
        subst (λ x. is_concurrency_limited x ≡ false) ((eq_iff r role).0 same) l in
      rw (same, l') refl
  | inr other ↦ let z : 0 + n ≡ n = omega arith in rw (other, z) (omega arith)
]

limits-still :
    (role : String) (seen : List String) (cs : List ToolCall)
    → count_role role (enforce_dispatch_limits seen (filter is_dispatch cs)).allowed
      ≡ still role seen (count_role role cs)
unfolding enforce_dispatch_limits is_dispatch
limits-still role seen [] = sym (still-zero role seen)
limits-still role seen (c ∷ cs) =
    let n = count_role role cs in
    elim (Option-cases (dispatch_role c.name)) [
      | inl absent ↦ let z : 0 + n ≡ n = omega arith in ground (arith, limits-still role seen cs, z)
      | inr (r, e) ↦ elim (Bool-cases (is_concurrency_limited r)) [
        | inr free ↦ ground (arith, limits-still role seen cs, still-free role r seen n free)
        | inl limited ↦ elim (Bool-cases (elem r seen)) [
          | inl again ↦
              ground (arith, limits-still role seen cs, still-again role r seen n limited again)
          | inr first ↦
              ground
                (arith, limits-still role (r ∷ seen) cs, still-first role r seen n limited first)
        ]
      ]
    ]

pub limits-count_role :
    (role : String) (calls : List ToolCall)
    → count_role role (enforce_dispatch_limits [] (filter is_dispatch calls)).allowed
      ≡ at_most role (count_role role calls)
unfolding still
limits-count_role role calls = limits-still role [] calls

-- The calls for which children are spawned.
spawned_calls :
    (d : Dispatcher) (invalid : ℕ) (calls : List ToolCall) {r : DispatchResult}
    → (process_tool_calls d invalid calls).0 ≡ some r
    → r.spawned
      ≡ filter
          (λ c. not c.signalled && d.has_spawner)
          (enforce_dispatch_limits [] (filter is_dispatch calls)).allowed
unfolding process_tool_calls
spawned_calls d invalid calls {r} h =
    elim (Option-cases (run_locals d invalid (filter (λ c. not (is_dispatch c)) calls)).results) [
      | inl e ↦ absurd (ground arith)
      | inr (es, e) ↦ ground arith
    ]

-- If processing the calls of a response returns, it has spawned no more children of a role than the
-- calls ask for, and at most one of each role of workers.
pub process_tool_calls-at_most :
    (d : Dispatcher) (invalid : ℕ) (calls : List ToolCall) (role : String) {r : DispatchResult}
    → (process_tool_calls d invalid calls).0 ≡ some r
    → count_role role r.spawned ≤ at_most role (count_role role calls)
process_tool_calls-at_most d invalid calls role h =
    let limits = enforce_dispatch_limits [] (filter is_dispatch calls) in
    omega (
      arith,
      ap (count_role role) (spawned_calls d invalid calls h),
      count_role-filter (λ c. not c.signalled && d.has_spawner) role limits.allowed,
      limits-count_role role calls,
    )

all-filter :
    (p q : ToolCall → Bool) (cs : List ToolCall) → all p cs ≡ true → all p (filter q cs) ≡ true
all-filter p q [] h = refl
all-filter p q (c ∷ cs) h = elim (Bool-cases (q c)) [
  | inl e ↦ ground (arith, all-filter p q cs)
  | inr e ↦ ground (arith, all-filter p q cs)
]

all-allowed :
    (p : ToolCall → Bool) (seen : List String) (cs : List ToolCall)
    → all p cs ≡ true
    → all p (enforce_dispatch_limits seen cs).allowed ≡ true
unfolding enforce_dispatch_limits
all-allowed p seen [] h = refl
all-allowed p seen (c ∷ cs) h = elim (Option-cases (dispatch_role c.name)) [
  | inl absent ↦ ground (arith, all-allowed p seen cs)
  | inr (r, e) ↦ elim (Bool-cases (is_concurrency_limited r)) [
    | inr free ↦ ground (arith, all-allowed p seen cs)
    | inl limited ↦ elim (Bool-cases (elem r seen)) [
      | inl again ↦ ground (arith, all-allowed p seen cs)
      | inr first ↦ ground (arith, all-allowed p (r ∷ seen) cs)
    ]
  ]
]

abbrev pub not_signalled : ToolCall → Bool
not_signalled c = not c.signalled

-- no call is dropped where a spawner is set and none finds the signal
filter-quiet :
    (set : Bool) (cs : List ToolCall)
    → set ≡ true
    → all not_signalled cs ≡ true
    → filter (λ c. not c.signalled && set) cs ≡ cs
filter-quiet set [] s h = refl
filter-quiet set (c ∷ cs) s h = ground (arith, filter-quiet set cs)

-- If processing the calls of a response returns, a spawner is set and no call finds the signal set, then
-- it has spawned a child of a role for each call that asks for one, but of each role of workers one in all
-- if any call asks for it.
pub process_tool_calls-spawned :
    (d : Dispatcher) (invalid : ℕ) (calls : List ToolCall) (role : String) {r : DispatchResult}
    → d.has_spawner ≡ true
    → all not_signalled calls ≡ true
    → (process_tool_calls d invalid calls).0 ≡ some r
    → count_role role r.spawned ≡ at_most role (count_role role calls)
process_tool_calls-spawned d invalid calls role {r} set quiet h =
    let allowed = (enforce_dispatch_limits [] (filter is_dispatch calls)).allowed in
    let all_quiet =
      all-allowed not_signalled [] (filter is_dispatch calls)
        (all-filter not_signalled is_dispatch calls quiet) in
    ap (count_role role)
      (spawned_calls d invalid calls h ∙ filter-quiet d.has_spawner allowed set all_quiet)
    ∙ limits-count_role role calls
