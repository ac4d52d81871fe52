-- ===== src/Runtime/Supervisor/Target.antt =====
-- `selectAbortTarget` of src/runtime/supervisor.ts.
use saivage.Base.{
  ℕ, ◌≤◌, ◌≡◌, ◌⊎◌, refl, sym, subst, Option, none, some, List, [], ◌∷◌, arith, inl, inr,
  Bool-cases, leb, All, if◌then◌else◌,
}
use saivage.Runtime.Roster.{get_abort_priority}
use saivage.Runtime.Supervisor.{
  Agent, Candidate, with_priority, candidates, insert_by_priority, by_priority, first,
  select_abort_target,
}

-- The candidate is an agent of the registry, with its priority.
abbrev pub Registered : Candidate → List Agent → Type 0
Registered c [] = ⊥
Registered c (a ∷ agents) =
    ((a.agent_id ≡ c.agent_id) × (get_abort_priority a.role ≡ some c.priority))
    ⊎ Registered c agents

-- no agent that may be aborted has a lower priority
abbrev pub NoneBelow : ℕ → List Agent → Type 0
NoneBelow p = All (λ a. (q : ℕ) → get_abort_priority a.role ≡ some q → p ≤ q)

abbrev pub NoneAbortable : List Agent → Type 0
NoneAbortable = All (λ a. get_abort_priority a.role ≡ none)

-- the better of a candidate and another, the first if they are equal
abbrev pick : Candidate → Option Candidate → Option Candidate
pick c none = some c
pick c (some d) = if leb c.priority d.priority then some c else some d

first-insert :
    (c : Candidate) (ds : List Candidate) → first (insert_by_priority c ds) ≡ pick c (first ds)
unfolding insert_by_priority
first-insert c [] = refl
first-insert c (d ∷ ds) = elim (Bool-cases (leb c.priority d.priority)) [
  | inl e ↦ ground arith
  | inr e ↦ ground arith
]

NoneBelow-weaken : (p q : ℕ) (agents : List Agent) → p ≤ q → NoneBelow q agents → NoneBelow p agents
NoneBelow-weaken p q [] le n = tt
NoneBelow-weaken p q (a ∷ agents) le (here, rest) =
    (λ r e. omega (arith, le, here r e), NoneBelow-weaken p q agents le rest)

NoneBelow-none : (p : ℕ) (agents : List Agent) → NoneAbortable agents → NoneBelow p agents
NoneBelow-none p [] n = tt
NoneBelow-none p (a ∷ agents) (here, rest) =
    (λ r e. absurd (ground arith), NoneBelow-none p agents rest)

-- nobody, where nobody may be aborted, or an agent of the registry before whom no other comes
abbrev pub Selected : List Agent → Option Candidate → Type 0
Selected agents none = NoneAbortable agents
Selected agents (some c) = Registered c agents × NoneBelow c.priority agents

Selected-pick :
    (a : Agent) (p : ℕ) (agents : List Agent) (rest : Option Candidate)
    → get_abort_priority a.role ≡ some p
    → Selected agents rest
    → Selected (a ∷ agents) (pick (record { agent_id = a.agent_id; priority = p }) rest)
Selected-pick a p agents none e n =
    (inl (refl, e), (λ q f. ground arith, NoneBelow-none p agents n))
Selected-pick a p agents (some d) e (r, n) = elim (Bool-cases (leb p d.priority)) [
  | inl le ↦ rw le (
      (inl (refl, e), (λ q f. ground arith, NoneBelow-weaken p d.priority agents (ground arith) n)))
  | inr gt ↦ rw gt ((inr r, (λ q f. ground arith, n)))
]

Selected-skip :
    (a : Agent) (agents : List Agent) (x : Option Candidate)
    → get_abort_priority a.role ≡ none
    → Selected agents x
    → Selected (a ∷ agents) x
Selected-skip a agents none e n = (e, n)
Selected-skip a agents (some c) e (r, n) = (inr r, (λ q f. absurd (ground arith), n))

Selected-with :
    (a : Agent) (o : Option ℕ) (agents : List Agent)
    → get_abort_priority a.role ≡ o
    → Selected agents (first (by_priority (candidates agents)))
    → Selected (a ∷ agents) (first (by_priority (with_priority a o (candidates agents))))
unfolding by_priority
Selected-with a none agents e n = Selected-skip a agents _ e n
Selected-with a (some p) agents e n =
    let c : Candidate = record { agent_id = a.agent_id; priority = p } in
    subst (Selected (a ∷ agents)) (sym (first-insert c (by_priority (candidates agents))))
      (Selected-pick a p agents _ e n)

Selected-first : (agents : List Agent) → Selected agents (first (by_priority (candidates agents)))
unfolding by_priority candidates
Selected-first [] = tt
Selected-first (a ∷ agents) =
    Selected-with a (get_abort_priority a.role) agents refl (Selected-first agents)

-- Either there is no target and no registered agent may be aborted, or the target is a registered agent
-- with the priority of its role, and no registered agent has a lower one.
pub select_abort_target-Selected :
    (registry : List Agent) → Selected registry (select_abort_target registry)
unfolding select_abort_target
select_abort_target-Selected registry = Selected-first registry
