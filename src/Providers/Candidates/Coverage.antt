-- ===== src/Providers/Candidates/Coverage.antt =====
-- The specs of the failover graph, src/providers/candidate-planner.ts, and the candidates of a chain.
use mathlib.Core.Option.{some-injective}
use saivage.Base.{
  ℕ, zero, suc, String, ◌≡◌, refl, ap, subst, true, false, ◌||◌, Option, some, List, [], ◌∷◌, ◌++◌,
  map, arith, elem, All, Distinct, ◌⊎◌, inl, inr, Bool-cases, ◌==◌, eq_iff, any-append, eq_comm,
  Option-cases,
}
use saivage.Providers.Candidates.{
  ChatCandidate, push_one, Options, Chain, Traversal, has_key, push_new, append_candidates,
  candidates_of, successors, visit_all, visit, build_chain, sticky_start,
}

abbrev pub keys : Chain → List String
keys = map (λ c. c.health_key)

has_key-elem : (key : String) (cs : Chain) → has_key key cs ≡ elem key (keys cs)
has_key-elem key [] = refl
has_key-elem key (c ∷ cs) = ap (λ b. (c.health_key == key) || b) (has_key-elem key cs)

Distinct-keys-push :
    (chain : Chain) (c : ChatCandidate)
    → Distinct (keys chain)
    → has_key c.health_key chain ≡ false
    → Distinct (keys (chain ++ c ∷ []))
Distinct-keys-push [] c d new = (refl, tt)
Distinct-keys-push (b ∷ chain) c d new = ground (
  arith,
  Distinct-keys-push chain c,
  has_key-elem b.health_key (chain ++ c ∷ []),
  has_key-elem b.health_key chain,
  any-append (λ (x : ChatCandidate). x.health_key == b.health_key) chain (c ∷ []),
  eq_comm b.health_key c.health_key,
)

pub Distinct-push_new :
    (chain cs : Chain) → Distinct (keys chain) → Distinct (keys (push_new chain cs))
unfolding push_new
Distinct-push_new chain [] d = d
Distinct-push_new chain (c ∷ cs) d = elim (Bool-cases (has_key c.health_key chain)) [
  | inl old ↦ rw old (Distinct-push_new chain cs d)
  | inr new ↦ rw new (Distinct-push_new (chain ++ c ∷ []) cs (Distinct-keys-push chain c d new))
]

-- What is pushed is there, and what was there stays.
has_key-push_new_mono :
    (key : String) (chain cs : Chain)
    → has_key key chain ≡ true
    → has_key key (push_new chain cs) ≡ true
unfolding push_new
has_key-push_new_mono key chain [] h = h
has_key-push_new_mono key chain (c ∷ cs) h = elim (Bool-cases (has_key c.health_key chain)) [
  | inl old ↦ rw old (has_key-push_new_mono key chain cs h)
  | inr new ↦ rw new (
      has_key-push_new_mono key (chain ++ c ∷ []) cs
        (ground (arith, any-append (λ (x : ChatCandidate). x.health_key == key) chain (c ∷ []))))
]

abbrev HasKeys : Chain → Chain → Type 0
HasKeys cs chain = All (λ c. has_key c.health_key chain ≡ true) cs

HasKeys-mono :
    (cs chain chain' : Chain)
    → ((key : String) → has_key key chain ≡ true → has_key key chain' ≡ true)
    → HasKeys cs chain
    → HasKeys cs chain'
HasKeys-mono [] chain chain' mono h = tt
HasKeys-mono (c ∷ cs) chain chain' mono (here, h) =
    (mono c.health_key here, HasKeys-mono cs chain chain' mono h)

has_key-push_one :
    (chain : Chain) (c : ChatCandidate) → has_key c.health_key (push_one chain c) ≡ true
has_key-push_one chain c = ground (
  arith,
  any-append (λ (x : ChatCandidate). x.health_key == c.health_key) chain (c ∷ []),
  eq_iff c.health_key c.health_key,
)

HasKeys-push_new : (chain cs : Chain) → HasKeys cs (push_new chain cs)
unfolding push_new
HasKeys-push_new chain [] = tt
HasKeys-push_new chain (c ∷ cs) = (
  has_key-push_new_mono c.health_key (push_one chain c) cs (has_key-push_one chain c),
  HasKeys-push_new (push_one chain c) cs,
)

module _ (o : Options) where
  -- The specs to which the failover steps lead.
  pub data Reaches (x : String) : String → Type 0 where
    here : Reaches x x
    next : {y z : String} → Reaches x y → elem z (successors o y) ≡ true → Reaches x z

  -- After the traversal: the keys that were there are there, the expanded specs stay expanded, and
  -- each spec expanded since has its candidates in the chain and its successors expanded.
  record Grown (t t' : Traversal) : Type 0 where
    keys_stay : (key : String) → has_key key t.0 ≡ true → has_key key t'.0 ≡ true
    specs_stay : (x : String) → elem x t.1 ≡ true → elem x t'.1 ≡ true
    settled :
        (x : String)
        → elem x t'.1 ≡ true
        → (elem x t.1 ≡ true)
          ⊎ (HasKeys (candidates_of o x) t'.0
              × ((y : String) → elem y (successors o x) ≡ true → elem y t'.1 ≡ true))

  Grown-refl : (t : Traversal) → Grown t t
  Grown-refl t = record { keys_stay = λ key h. h; specs_stay = λ x h. h; settled = λ x h. inl h }

  Grown-trans : {t u v : Traversal} → Grown t u → Grown u v → Grown t v
  Grown-trans g h = record {
    keys_stay = λ key k. h.keys_stay key (g.keys_stay key k);
    specs_stay = λ x k. h.specs_stay x (g.specs_stay x k);
    settled = λ x k. elim (h.settled x k) [
      | inr late ↦ inr late
      | inl old ↦ elim (g.settled x old) [
        | inl older ↦ inl older
        | inr (cs, ys) ↦
            inr
              (HasKeys-mono (candidates_of o x) _ _ h.keys_stay cs, λ y m. h.specs_stay y (ys y m))
      ]
    ];
  }

  visit_all-Grown :
      (go : String → Traversal → Option Traversal)
      → ((x : String) (t t' : Traversal) → go x t ≡ some t' → Grown t t' × (elem x t'.1 ≡ true))
      → (xs : List String) (t t' : Traversal) → visit_all go xs t ≡ some t'
      → Grown t t' × ((x : String) → elem x xs ≡ true → elem x t'.1 ≡ true)
  visit_all-Grown go step [] t t' e =
      (subst (λ u. Grown t u) (some-injective t t' e) (Grown-refl t), λ x h. absurd (ground arith))
  visit_all-Grown go step (x ∷ xs) t t' e = elim (Option-cases (go x t)) [
    | inl out ↦ absurd (ground arith)
    | inr (u, first) ↦
        let (g, gx) = step x t u first in
        let (h, hs) = visit_all-Grown go step xs u t' (rw (first, visit_all) at e) in
        (
          Grown-trans g h,
          λ y m. elim (Bool-cases (x == y)) [
            | inl same ↦ ground (arith, eq_iff x y, h.specs_stay x gx)
            | inr other ↦ hs y (ground arith)
          ],
        )
  ]

  append-Grown :
      (spec : String) (chain : Chain) (expanded : List String)
      → Grown (chain, expanded) (append_candidates o spec chain, expanded)
  unfolding append_candidates
  append-Grown spec chain expanded = record {
    keys_stay = λ key h. has_key-push_new_mono key chain (candidates_of o spec) h;
    specs_stay = λ x h. h;
    settled = λ x h. inl h;
  }

  covered_now :
      (spec : String) (chain : Chain)
      → HasKeys (candidates_of o spec) (append_candidates o spec chain)
  unfolding append_candidates
  covered_now spec chain = HasKeys-push_new chain (candidates_of o spec)

  visit-Grown :
      (fuel : ℕ) (spec : String) (t t' : Traversal)
      → visit o fuel spec t ≡ some t'
      → Grown t t' × (elem spec t'.1 ≡ true)
  unfolding visit
  visit-Grown zero spec t t' e = cc
  visit-Grown (suc fuel) spec (chain, expanded) t' e = elim (Bool-cases (elem spec expanded)) [
    | inl old ↦
        let same = some-injective (append_candidates o spec chain, expanded) t' (rw old at e) in
        subst (λ (u : Traversal). Grown (chain, expanded) u × (elem spec u.1 ≡ true)) same
          (append-Grown spec chain expanded, old)
    | inr new ↦
        let first = append_candidates o spec chain in
        let (g, ys) =
          visit_all-Grown (visit o fuel) (visit-Grown fuel) (successors o spec)
            (first, spec ∷ expanded) t' (rw new at e) in
        let g0 = append-Grown spec chain expanded in
        (
          record {
            keys_stay = λ key h. g.keys_stay key (g0.keys_stay key h);
            specs_stay = λ x h. g.specs_stay x (ground arith);
            settled = λ x h. elim (g.settled x h) [
              | inr late ↦ inr late
              | inl old ↦ elim (Bool-cases (spec == x)) [
                | inr other ↦ inl (ground arith)
                | inl same ↦ inr (
                    subst
                      (λ (z : String).
                        HasKeys (candidates_of o z) t'.0
                        × ((y : String) → elem y (successors o z) ≡ true → elem y t'.1 ≡ true))
                      ((eq_iff spec x).0 same)
                      (
                        HasKeys-mono (candidates_of o spec) first t'.0 g.keys_stay
                            (covered_now spec chain),
                        ys,
                      ))
              ]
            ];
          },
          g.specs_stay spec (ground (arith, eq_iff spec spec)),
        )
  ]

  expanded_of_Reaches :
      {x y : String} (t : Traversal)
      → Grown (sticky_start o x o.sticky, []) t
      → elem x t.1 ≡ true
      → Reaches x y
      → elem y t.1 ≡ true
  expanded_of_Reaches t g h here = h
  expanded_of_Reaches {x} {y} t g h (next {y = z} r m) =
      elim (g.settled z (expanded_of_Reaches t g h r)) [ inl old ↦ cc | inr (cs, ys) ↦ ys y m ]

  -- Every spec to which failover leads from the requested one has all its candidates in the chain,
  -- by their health keys.
  pub build_chain_complete :
      (fuel : ℕ) (spec x : String) (chain : Chain)
      → build_chain o fuel spec ≡ some chain
      → Reaches spec x
      → All (λ c. has_key c.health_key chain ≡ true) (candidates_of o x)
  unfolding build_chain
  build_chain_complete fuel spec x chain e r =
      elim (Option-cases (visit o fuel spec (sticky_start o spec o.sticky, []))) [
        | inl out ↦ absurd (ground arith)
        | inr (t, done) ↦
            let (g, h) = visit-Grown fuel spec (sticky_start o spec o.sticky, []) t done in
            let same = some-injective t.0 chain (rw (done, build_chain) at e) in
            elim (g.settled x (expanded_of_Reaches t g h r)) [
              | inl old ↦ absurd (ground arith)
              | inr (cs, ys) ↦ subst (HasKeys (candidates_of o x)) same cs
            ]
      ]
