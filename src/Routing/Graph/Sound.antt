-- ===== src/Routing/Graph/Sound.antt =====
-- `validateProfileGraph` of src/routing/resolver.ts and the merge of rules along profiles.
use saivage.Base.{
  ℕ, zero, suc, ◌<◌, String, ◌≡◌, refl, sym, subst, true, none, some, List, [], ◌∷◌, ◌++◌, arith,
  inl, inr, ◌⊎◌, Bool-cases, Option-cases, elem, All, length, map_get, ◌==◌, remaining-le-length,
  All-elem, eq_refl,
}
use saivage.Routing.Rule.{
  NormalizedRule, Profiles, truthy, parent, rule_stack, merge_rule_chain, merge_stack, empty_rule,
}
use saivage.Routing.Graph.{
  next_profile, walk, Verdict, acyclic, found_cycle, validate_from, validate_profile_graph,
  names_of,
}
use saivage.Routing.Graph.Walks.{
  elem_of_map_get, Walk-cases, Halts, IsGrounded, Inside, Grounded, Endless, next_of,
  truthy-eq-some, walk_ends, walk_grounds, walk_cycles,
}

map_get_of_elem :
    (m : Profiles) (k : String)
    → elem k (names_of m) ≡ true
    → (r : NormalizedRule) × (map_get m k ≡ some r)
map_get_of_elem [] k h = cc
map_get_of_elem ((j, v) ∷ m) k h = elim (Bool-cases (j == k)) [
  | inl here ↦ (v, ground arith)
  | inr there ↦ let (r, e) = map_get_of_elem m k (ground arith) in (r, ground arith)
]

All-append : (P : String → Type 0) (xs ys : List String) → All P xs → All P ys → All P (xs ++ ys)
All-append P [] ys h k = k
All-append P (x ∷ xs) ys (p, h) k = (p, All-append P xs ys h k)

length-names_of : (m : Profiles) → length (names_of m) ≡ length m
length-names_of [] = refl
length-names_of (e ∷ m) = omega (arith, length-names_of m)

All-inside :
    (xs ys : List String)
    → ((x : String) → elem x xs ≡ true → elem x ys ≡ true)
    → All (λ x. elem x ys ≡ true) xs
All-inside [] ys h = tt
All-inside (x ∷ xs) ys h =
    (h x (ground (arith, eq_refl x)), All-inside xs ys (λ y m. h y (ground (arith, m))))

module _ (profiles : Profiles) where
  -- The merge and the walk take the same step from a profile.
  same_step :
      (name : String) (r : NormalizedRule)
      → map_get profiles name ≡ some r
      → ((parent profiles r ≡ none) × (next_of profiles name ≡ none))
        ⊎ ((next : String) × (r' : NormalizedRule) × (parent profiles r ≡ some r')
            × (next_of profiles name ≡ some next)
            × (map_get profiles next ≡ some r'))
  unfolding next_profile
  same_step name r found = elim (Option-cases (truthy r.profile)) [
    | inl e ↦ inl (ground arith, ground arith)
    | inr (next, e) ↦ elim (Option-cases (map_get profiles next)) [
      | inl e' ↦ inl (ground arith, ground arith)
      | inr (r', e') ↦ inr (next, r', ground arith, ground (arith, truthy-eq-some r.profile e), e')
    ]
  ]

  stack_of_Halts :
      (n : ℕ) (name : String) (r : NormalizedRule) (stack : List NormalizedRule)
      → map_get profiles name ≡ some r
      → Halts profiles n (some name)
      → (result : List NormalizedRule) × (rule_stack profiles n (some r) stack ≡ some result)
  unfolding rule_stack
  stack_of_Halts zero name r stack found h = absurd h
  stack_of_Halts (suc n) name r stack found h = elim (same_step name r found) [
    | inl (p, e) ↦ (r ∷ stack, ground arith)
    | inr (next, r', p, e, found') ↦
        let (result, q) =
          stack_of_Halts n next r' (r ∷ stack) found' (subst (Halts profiles n) e h) in
        (result, ground (arith, p, q))
  ]

  Halts-of_stack :
      (n : ℕ) (name : String) (r : NormalizedRule) (stack result : List NormalizedRule)
      → map_get profiles name ≡ some r
      → rule_stack profiles n (some r) stack ≡ some result
      → Halts profiles n (some name)
  unfolding rule_stack
  Halts-of_stack zero name r stack result found h = cc
  Halts-of_stack (suc n) name r stack result found h = elim (same_step name r found) [
    | inl (p, e) ↦ subst (Halts profiles n) (sym e) tt
    | inr (next, r', p, e, found') ↦
        subst (Halts profiles n) (sym e)
          (Halts-of_stack n next r' (r ∷ stack) result found' (ground arith))
  ]

  -- The merge of a rule along its profiles ends.
  abbrev pub Merges : NormalizedRule → Type 0
  Merges rule =
      (fuel : ℕ) × (merged : NormalizedRule) × (merge_rule_chain profiles fuel rule ≡ some merged)

  -- The merge of the profile of this name never ends.
  abbrev pub NeverMerges : String → Type 0
  NeverMerges name =
      (rule : NormalizedRule) × (map_get profiles name ≡ some rule)
      × ((fuel : ℕ) → merge_rule_chain profiles fuel rule ≡ none)

  IsGrounded-truthy :
      (name : String) → IsGrounded profiles (some name) → IsGrounded profiles (truthy (some name))
  IsGrounded-truthy name g = elim (Bool-cases (name == "")) [
    | inl b ↦ rw b (zero, tt)
    | inr b ↦ rw b g
  ]

  Inside-truthy :
      (name : String) → elem name (names_of profiles) ≡ true → Inside profiles (truthy (some name))
  Inside-truthy name i = elim (Bool-cases (name == "")) [ inl b ↦ rw b tt | inr b ↦ rw b i ]

  Merges-of_stack :
      (fuel : ℕ) (rule : NormalizedRule) (stack : List NormalizedRule)
      → rule_stack profiles fuel (some rule) [] ≡ some stack
      → Merges rule
  unfolding merge_rule_chain
  Merges-of_stack fuel rule stack e = (fuel, merge_stack empty_rule stack, ground arith)

  alone-Merges : (rule : NormalizedRule) → parent profiles rule ≡ none → Merges rule
  unfolding rule_stack
  alone-Merges rule e = Merges-of_stack 1 rule (rule ∷ []) (ground arith)

  Merges-of_grounded :
      ((name : String)
        → elem name (names_of profiles) ≡ true
        → IsGrounded profiles (truthy (some name)))
      → (rule : NormalizedRule) → Merges rule
  unfolding rule_stack
  Merges-of_grounded g rule = elim (Option-cases (truthy rule.profile)) [
    | inl e ↦ alone-Merges rule (ground arith)
    | inr (name, e) ↦ elim (Option-cases (map_get profiles name)) [
      | inl e' ↦ alone-Merges rule (ground arith)
      | inr (r, found) ↦
          let (n, h) = g name (elem_of_map_get profiles name found) in
          let h' = subst (Halts profiles n) (truthy-eq-some rule.profile e) h in
          let (stack, e') = stack_of_Halts n name r (rule ∷ []) found h' in
          Merges-of_stack (suc n) rule stack (ground arith)
    ]
  ]

  NeverMerges-of_Endless : (name : String) → Endless profiles name → NeverMerges name
  unfolding merge_rule_chain
  NeverMerges-of_Endless name (i, endless) =
      let (rule, found) = map_get_of_elem profiles name i in
      (
        rule,
        found,
        λ fuel. elim (Option-cases (rule_stack profiles fuel (some rule) [])) [
          | inl e ↦ ground arith
          | inr (result, e) ↦
              absurd (endless fuel (Halts-of_stack fuel name rule [] result found e))
        ],
      )

  -- What the loop over the names comes to.
  abbrev Decided : Verdict → List String → Type 0
  Decided verdict names =
      ((verdict ≡ acyclic) × All (λ name. IsGrounded profiles (truthy (some name))) names)
      ⊎ ((names : List String) × (name : String) × (verdict ≡ found_cycle names)
          × Endless profiles name)

  Decided-cons :
      (name : String) (names : List String) (verdict : Verdict)
      → IsGrounded profiles (truthy (some name))
      → Decided verdict names
      → Decided verdict (name ∷ names)
  Decided-cons name names verdict g (inl (e, gs)) = inl (e, (g, gs))
  Decided-cons name names verdict g (inr cyc) = inr cyc

  validate_from_decides :
      (fuel : ℕ) (names done : List String)
      → length (names_of profiles) < fuel
      → All (λ name. elem name (names_of profiles) ≡ true) names
      → Grounded profiles done
      → Decided (validate_from profiles fuel names done) names
  unfolding validate_from
  validate_from_decides fuel [] done lt i g = inl (refl, tt)
  validate_from_decides fuel (name ∷ names) done lt (i, is) g = elim (Bool-cases (elem name done)) [
    | inl seen ↦ rw seen (
        Decided-cons name names _ (IsGrounded-truthy name (All-elem _ done name g seen))
          (validate_from_decides fuel names done lt is g))
    | inr fresh ↦ elim (Walk-cases (walk profiles fuel done [] (truthy (some name)))) [
      | inl (path, e) ↦
          let (here, (tail, same, gt)) =
            walk_grounds profiles fuel done [] (truthy (some name)) g e in
          rw (fresh, e)
            (Decided-cons name names _ here (
              validate_from_decides fuel names (path ++ done) lt is
                (All-append _ path done (subst (Grounded profiles) (sym same) gt) g)))
      | inr (inl (cyc, e)) ↦
          let (c, endless) =
            walk_cycles profiles fuel done [] (truthy (some name)) (Inside-truthy name i)
              (λ p m. cc) e in
          rw (fresh, e) (inr (cyc, c, refl, endless))
      | inr (inr e) ↦ absurd (
          walk_ends profiles fuel done [] (truthy (some name)) (Inside-truthy name i)
            (omega (arith, remaining-le-length (names_of profiles) [])) e)
    ]
  ]

  -- The check of the profile graph returns, and decides whether merges end: either it passes, and
  -- the merge of every rule along its profiles ends; or it reports a cycle, and there is a profile
  -- whose merge would never end.
  pub validate_decides :
      ((validate_profile_graph profiles ≡ acyclic) × ((rule : NormalizedRule) → Merges rule))
      ⊎ ((names : List String) × (name : String) × (validate_profile_graph profiles
            ≡ found_cycle names)
          × NeverMerges name)
  unfolding validate_profile_graph
  validate_decides =
      elim (validate_from_decides (suc (suc (length profiles))) (names_of profiles) []
        (omega (arith, length-names_of profiles))
        (All-inside (names_of profiles) (names_of profiles) (λ x m. m)) tt) [
          | inl (e, g) ↦
              inl (e, Merges-of_grounded (λ name i. All-elem _ (names_of profiles) name g i))
          | inr (names, name, e, endless) ↦
              inr (names, name, e, NeverMerges-of_Endless name endless)
        ]
