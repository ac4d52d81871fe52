-- ===== src/Providers/Candidates/Termination.antt =====
-- The traversal of the failover graph in src/providers/candidate-planner.ts: its end.
use saivage.Base.{
  ℕ, zero, suc, ◌≤◌, ◌<◌, String, ◌≡◌, refl, true, Option, some, List, [], ◌∷◌, arith, elem, All,
  inl, inr, Bool-cases, length,
}
use saivage.Base.{remaining, remaining-le-length, remaining-cons-lt, All-elem}
use saivage.Providers.Candidates.{
  Options, Chain, append_candidates, successors, visit_all, visit, build_chain, sticky_start,
}

module _ (o : Options) (us : List String) where
  -- The list has, with a spec, all to which the traversal goes on from it.
  abbrev pub IsClosed : Type 0
  IsClosed = All (λ x. All (λ y. elem y us ≡ true) (successors o x)) us

  abbrev Ends : Option (Chain × List String) → List String → Type 0
  Ends r expanded =
      (t : Chain × List String) × (r ≡ some t) × (remaining us t.1 ≤ remaining us expanded)

  visit_all-Ends :
      (fuel : ℕ) (go : String → Chain × List String → Option (Chain × List String))
      → ((x : String) (chain : Chain) (expanded : List String)
          → elem x us ≡ true
          → remaining us expanded < fuel
          → Ends (go x (chain, expanded)) expanded)
      → (xs : List String) (chain : Chain) (expanded : List String) → All (λ y. elem y us ≡ true) xs
      → remaining us expanded < fuel
      → Ends (visit_all go xs (chain, expanded)) expanded
  visit_all-Ends fuel go step [] chain expanded inside lt = ((chain, expanded), refl, omega arith)
  visit_all-Ends fuel go step (x ∷ xs) chain expanded (here, inside) lt =
      let ((chain', expanded'), e, le) = step x chain expanded here lt in
      let (t, e', le') = visit_all-Ends fuel go step xs chain' expanded' inside (omega arith) in
      (t, rw (e, visit_all) e', omega arith)

  visit-Ends :
      IsClosed
      → (fuel : ℕ) (spec : String) (chain : Chain) (expanded : List String) → elem spec us ≡ true
      → remaining us expanded < fuel
      → Ends (visit o fuel spec (chain, expanded)) expanded
  unfolding visit
  visit-Ends closed zero spec chain expanded h lt = absurd (omega arith)
  visit-Ends closed (suc fuel) spec chain expanded h lt = elim (Bool-cases (elem spec expanded)) [
    | inl old ↦ ((append_candidates o spec chain, expanded), rw old, omega arith)
    | inr new ↦
        let less = remaining-cons-lt us spec expanded h new in
        let (t, e, le) =
          visit_all-Ends fuel (visit o fuel) (visit-Ends closed fuel) (successors o spec)
            (append_candidates o spec chain) (spec ∷ expanded)
            (All-elem (λ x. All (λ y. elem y us ≡ true) (successors o x)) us spec closed h)
            (omega arith) in
        (t, rw new e, omega arith)
  ]

  -- If the spec is in a list that is closed under the failover steps, `buildCandidateChain` returns:
  -- one more unit of fuel than the list is long is enough.
  pub build_chain_total :
      IsClosed
      → (fuel : ℕ) (spec : String) → elem spec us ≡ true
      → length us < fuel
      → (chain : Chain) × (build_chain o fuel spec ≡ some chain)
  unfolding build_chain
  build_chain_total closed fuel spec h lt =
      let (t, e, le) =
        visit-Ends closed fuel spec (sticky_start o spec o.sticky) [] h
          (omega (arith, remaining-le-length us [])) in
      (t.0, rw (e, build_chain))
