-- ===== src/Providers/Candidates/Origin.antt =====
-- Where the candidates of a chain come from, src/providers/candidate-planner.ts.
use mathlib.Core.Option.{some-injective}
use mathlib.Core.List.{Memᴰ}
use saivage.Base.{
  ℕ, zero, suc, String, ◌≡◌, refl, subst, true, false, Option, none, some, List, [], ◌∷◌, ◌++◌,
  arith, elem, All, Distinct, ◌⊎◌, inl, inr, Bool-cases, Option-cases, eq_iff, ◌==◌, not, ◌&&◌, ltb,
}
use saivage.Providers.Candidates.{
  ChatCandidate, Sticky, Options, Chain, Traversal, has_key, push_new, append_candidates,
  candidates_of, successors, visit_all, visit, build_chain, sticky_start,
}
use saivage.Providers.Candidates.Coverage.{keys, Reaches, here, next, Distinct-push_new}

module _ (P : ChatCandidate → Type 0) where
  All-push_one : (chain : Chain) (c : ChatCandidate) → All P chain → P c → All P (chain ++ c ∷ [])
  All-push_one [] c h p = (p, tt)
  All-push_one (b ∷ chain) c (q, h) p = (q, All-push_one chain c h p)

  All-push_new : (chain cs : Chain) → All P chain → All P cs → All P (push_new chain cs)
  unfolding push_new
  All-push_new chain [] h k = h
  All-push_new chain (c ∷ cs) h (p, k) = elim (Bool-cases (has_key c.health_key chain)) [
    | inl old ↦ rw old (All-push_new chain cs h k)
    | inr new ↦ rw new (All-push_new (chain ++ c ∷ []) cs (All-push_one chain c h p) k)
  ]

All-Memᴰ :
    (cs : Chain) {P : ChatCandidate → Type 0} → ((c : ChatCandidate) → Memᴰ c cs → P c) → All P cs
All-Memᴰ [] f = tt
All-Memᴰ (c ∷ cs) f = (f c (Memᴰ.head refl), All-Memᴰ cs (λ d m. f d (Memᴰ.tail m)))

module _ (o : Options) (spec : String) (P : Chain → Type 0)
    (keep : (x : String) (chain : Chain)
      → Reaches o spec x
      → P chain
      → P (append_candidates o x chain)) where
  visit_all_inv :
      (go : String → Traversal → Option Traversal)
      → ((x : String) (t t' : Traversal) → Reaches o spec x → P t.0 → go x t ≡ some t' → P t'.0)
      → (xs : List String) (t t' : Traversal) → ((x : String) → elem x xs ≡ true → Reaches o spec x)
      → P t.0
      → visit_all go xs t ≡ some t'
      → P t'.0
  visit_all_inv go step [] t t' r p e = subst (λ (u : Traversal). P u.0) (some-injective t t' e) p
  visit_all_inv go step (x ∷ xs) t t' r p e = elim (Option-cases (go x t)) [
    | inl out ↦ absurd (ground arith)
    | inr (u, first) ↦
        visit_all_inv go step xs u t' (λ y m. r y (ground arith))
          (step x t u (r x (ground (arith, eq_iff x x))) p first) (rw (first, visit_all) at e)
  ]

  visit_inv :
      (fuel : ℕ) (x : String) (t t' : Traversal)
      → Reaches o spec x
      → P t.0
      → visit o fuel x t ≡ some t'
      → P t'.0
  unfolding visit
  visit_inv zero x t t' r p e = cc
  visit_inv (suc fuel) x (chain, expanded) t' r p e = elim (Bool-cases (elem x expanded)) [
    | inl old ↦
        subst (λ (u : Traversal). P u.0)
          (some-injective (append_candidates o x chain, expanded) t' (rw old at e))
          (keep x chain r p)
    | inr new ↦
        visit_all_inv (visit o fuel) (visit_inv fuel) (successors o x)
          (append_candidates o x chain, x ∷ expanded) t' (λ y m. next r m) (keep x chain r p)
          (rw new at e)
  ]

  build_chain_inv :
      (fuel : ℕ) (chain : Chain)
      → P (sticky_start o spec o.sticky)
      → build_chain o fuel spec ≡ some chain
      → P chain
  unfolding build_chain
  build_chain_inv fuel chain p e =
      elim (Option-cases (visit o fuel spec (sticky_start o spec o.sticky, []))) [
        | inl out ↦ absurd (ground arith)
        | inr (t, done) ↦
            subst P (some-injective t.0 chain (rw (done, build_chain) at e))
              (visit_inv fuel spec (sticky_start o spec o.sticky, []) t here p done)
      ]

-- The sticky failover, if it differs from the requested spec and its window is open.
abbrev pub IsStickyNow : Options → String → String → Type 0
IsStickyNow o spec x =
    (s : Sticky) × (o.sticky ≡ some s)
    × (x ≡ s.spec)
    × ((x == spec) ≡ false)
    × (ltb o.now s.next_primary_retry_at ≡ true)

-- A candidate of a spec that failover reaches, or of the sticky one.
abbrev pub HasOrigin : Options → String → ChatCandidate → Type 0
HasOrigin o spec c =
    (x : String) × (Reaches o spec x ⊎ IsStickyNow o spec x) × Memᴰ c (candidates_of o x)

append-Origin :
    (o : Options) (spec x : String) (chain : Chain)
    → (Reaches o spec x ⊎ IsStickyNow o spec x)
    → All (HasOrigin o spec) chain
    → All (HasOrigin o spec) (append_candidates o x chain)
unfolding append_candidates
append-Origin o spec x chain r h =
    All-push_new (HasOrigin o spec) chain (candidates_of o x) h
      (All-Memᴰ (candidates_of o x) (λ c m. (x, r, m)))

append-Distinct :
    (o : Options) (x : String) (chain : Chain)
    → Distinct (keys chain)
    → Distinct (keys (append_candidates o x chain))
unfolding append_candidates
append-Distinct o x chain d = Distinct-push_new chain (candidates_of o x) d

sticky_start-Origin :
    (o : Options) (spec : String) (s : Option Sticky)
    → o.sticky ≡ s
    → All (HasOrigin o spec) (sticky_start o spec s)
sticky_start-Origin o spec none e = tt
sticky_start-Origin o spec (some s) e =
    elim (Bool-cases (not (s.spec == spec) && ltb o.now s.next_primary_retry_at)) [
      | inl open_window ↦
          rw open_window
            (append-Origin o spec s.spec [] (inr (s, e, refl, ground arith, ground arith)) tt)
      | inr closed ↦ rw closed tt
    ]

sticky_start-Distinct :
    (o : Options) (spec : String) (s : Option Sticky) → Distinct (keys (sticky_start o spec s))
sticky_start-Distinct o spec none = tt
sticky_start-Distinct o spec (some s) =
    elim (Bool-cases (not (s.spec == spec) && ltb o.now s.next_primary_retry_at)) [
      | inl open_window ↦ rw open_window (append-Distinct o s.spec [] tt)
      | inr closed ↦ rw closed tt
    ]

-- Every candidate of the chain is one of a spec to which failover leads from the requested one, or
-- of the sticky failover while its window is open.
pub build_chain_sound :
    (o : Options) (fuel : ℕ) (spec : String) (chain : Chain)
    → build_chain o fuel spec ≡ some chain
    → All (HasOrigin o spec) chain
build_chain_sound o fuel spec chain e =
    build_chain_inv o spec (All (HasOrigin o spec)) (λ x c r h. append-Origin o spec x c (inl r) h)
      fuel chain (sticky_start-Origin o spec o.sticky refl) e

-- No two candidates of the chain have one health key.
pub build_chain-Distinct :
    (o : Options) (fuel : ℕ) (spec : String) (chain : Chain)
    → build_chain o fuel spec ≡ some chain
    → Distinct (keys chain)
build_chain-Distinct o fuel spec chain e =
    build_chain_inv o spec (λ c. Distinct (keys c)) (λ x c r d. append-Distinct o x c d) fuel chain
      (sticky_start-Distinct o spec o.sticky) e
