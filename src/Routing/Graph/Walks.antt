-- ===== src/Routing/Graph/Walks.antt =====
-- What a walk along the profiles comes to, and what it says of the profiles on it.
use saivage.Base.{
  sym, ap, ◌∙◌, append-nil, append_assoc, ℕ, zero, suc, ◌<◌, String, ◌≡◌, ◌≢◌, refl, subst, true,
  Option, none, some, List, [], ◌∷◌, ◌++◌, arith, inl, inr, ◌⊎◌, Bool-cases, Option-cases, elem,
  elem-append, All, map_get, ◌==◌, eq_iff, remaining, remaining-snoc, remaining-cons-lt, All-elem,
}
use saivage.Routing.Rule.{NormalizedRule, Profiles, truthy}
use saivage.Routing.Graph.{Walk, visited, cycle, out_of_fuel, next_profile, walk, names_of}

abbrev walked_names : Walk → List String
walked_names (visited names) = names
walked_names (cycle names) = names
walked_names out_of_fuel = []

pub Walk-cases :
    (w : Walk)
    → ((names : List String) × (w ≡ visited names))
      ⊎ ((names : List String) × (w ≡ cycle names))
      ⊎ (w ≡ out_of_fuel)
Walk-cases (visited names) = inl (names, refl)
Walk-cases (cycle names) = inr (inl (names, refl))
Walk-cases out_of_fuel = inr (inr refl)

pub elem_of_map_get :
    (m : Profiles) (k : String) {r : NormalizedRule}
    → map_get m k ≡ some r
    → elem k (names_of m) ≡ true
elem_of_map_get [] k h = cc
elem_of_map_get ((j, v) ∷ m) k {r} h = ground (arith, elem_of_map_get m k {r = r})

pub truthy-eq-some : (o : Option String) {s : String} → truthy o ≡ some s → truthy (some s) ≡ some s
truthy-eq-some none h = cc
truthy-eq-some (some t) {s} h = ground (arith, eq_iff t "", eq_iff s "")

module _ (profiles : Profiles) where
  -- From a name, the steps to the next profile end after fewer than `n`.
  abbrev pub Halts : ℕ → Option String → Type 0
  Halts n none = Unit
  Halts zero (some name) = ⊥
  Halts (suc n) (some name) = Halts n (truthy (next_profile profiles name))

  abbrev pub IsGrounded : Option String → Type 0
  IsGrounded cursor = (n : ℕ) × Halts n cursor

  abbrev pub Inside : Option String → Type 0
  Inside none = Unit
  Inside (some name) = elem name (names_of profiles) ≡ true

  abbrev pub next_of : String → Option String
  next_of name = truthy (next_profile profiles name)

  next_profile-elem :
      (name : String) {next : String}
      → next_profile profiles name ≡ some next
      → elem next (names_of profiles) ≡ true
  unfolding next_profile
  next_profile-elem name {next} h = elim (Option-cases (map_get profiles name)) [
    | inl e ↦ ground arith
    | inr (r, e) ↦ elim (Option-cases (truthy r.profile)) [
      | inl e' ↦ ground arith
      | inr (n, e') ↦ elim (Option-cases (map_get profiles n)) [
        | inl e'' ↦ ground arith
        | inr (r', e'') ↦ ground (arith, elem_of_map_get profiles n {r = r'})
      ]
    ]
  ]

  next-Inside : (name : String) → Inside (next_of name)
  next-Inside name = elim (Option-cases (next_profile profiles name)) [
    | inl e ↦ rw e tt
    | inr (n, e) ↦ elim (Bool-cases (n == "")) [
      | inl b ↦ rw (e, b) tt
      | inr b ↦ rw (e, b) (next_profile-elem name e)
    ]
  ]

  -- The fuel of a walk is enough.
  pub walk_ends :
      (fuel : ℕ) (done path : List String) (cursor : Option String)
      → Inside cursor
      → remaining (names_of profiles) path < fuel
      → walk profiles fuel done path cursor ≢ out_of_fuel
  unfolding walk
  walk_ends fuel done path none i lt = λ h. cc
  walk_ends zero done path (some c) i lt = absurd (omega arith)
  walk_ends (suc fuel) done path (some c) i lt = elim (Bool-cases (elem c path)) [
    | inl old ↦ λ h. ground arith
    | inr new ↦
        let step = walk_ends fuel done (path ++ c ∷ []) (next_of c) (next-Inside c) (
          omega (
            arith,
            remaining-snoc (names_of profiles) path c,
            remaining-cons-lt (names_of profiles) c path i new,
          )) in
        λ h. ground (arith, step)
  ]

  abbrev pub Grounded : List String → Type 0
  Grounded = All (λ name. IsGrounded (some name))

  IsGrounded-next : (name : String) → IsGrounded (next_of name) → IsGrounded (some name)
  IsGrounded-next name (n, h) = (suc n, h)

  -- A walk that meets no cycle grounds what it was at and all that it adds to its path.
  pub walk_grounds :
      (fuel : ℕ) (done path : List String) (cursor : Option String) {names : List String}
      → Grounded done
      → walk profiles fuel done path cursor ≡ visited names
      → IsGrounded cursor × ((tail : List String) × (names ≡ path ++ tail) × Grounded tail)
  unfolding walk
  walk_grounds fuel done path none g h =
      ((zero, tt), ([], rw append-nil (sym (ap walked_names h)), tt))
  walk_grounds zero done path (some c) g h = cc
  walk_grounds (suc fuel) done path (some c) {names} g h = elim (Bool-cases (elem c path)) [
    | inl old ↦ absurd (ground arith)
    | inr new ↦ elim (Bool-cases (elem c done)) [
      | inl seen ↦ (
        All-elem (λ name. IsGrounded (some name)) done c g seen,
        ([], rw append-nil (sym (ap walked_names (rw (new, seen) at h))), tt),
      )
      | inr fresh ↦
          let (gn, (tail, e, gt)) =
            walk_grounds fuel done (path ++ c ∷ []) (next_of c) g (rw (new, fresh) at h) in
          let gc = IsGrounded-next c gn in
          (gc, (c ∷ tail, e ∙ append_assoc path (c ∷ []) tail, (gc, gt)))
    ]
  ]

  -- From each name of the path the walk has come to the cursor.
  abbrev pub Leads : List String → Option String → Type 0
  Leads path cursor =
      (p : String)
      → elem p path ≡ true
      → (k : ℕ) → Halts k (some p)
      → (j : ℕ) × (j < k) × Halts j cursor

  step_of : (c : String) (k : ℕ) → Halts k (some c) → (j : ℕ) × (j < k) × Halts j (next_of c)
  step_of c zero h = absurd h
  step_of c (suc k) h = (k, omega arith, h)

  one_step :
      (c : String) (j k : ℕ) → j < k → Halts j (some c) → (i : ℕ) × (i < k) × Halts i (next_of c)
  one_step c j k less h = let (i, less', h') = step_of c j h in (i, omega arith, h')

  Leads-next :
      (path : List String) (c : String) → Leads path (some c) → Leads (path ++ c ∷ []) (next_of c)
  Leads-next path c l p m k h = elim (Bool-cases (elem p path)) [
    | inl old ↦ let (j, less, h') = l p old k h in one_step c j k less h'
    | inr new ↦
        let same : c ≡ p = (eq_iff c p).0 (ground (arith, elem-append p path (c ∷ []))) in
        step_of c k (subst (λ x. Halts k (some x)) (sym same) h)
  ]

  -- A name from which the steps come back to it is not grounded.
  no_descent :
      (c : String)
      → ((k : ℕ) → Halts k (some c) → (j : ℕ) × (j < k) × Halts j (some c))
      → (bound k : ℕ) → k < bound
      → ¬ Halts k (some c)
  no_descent c step zero k lt h = absurd (omega arith)
  no_descent c step (suc bound) k lt h =
      let (j, less, h') = step k h in no_descent c step bound j (omega arith) h'

  -- A profile from which the steps never end.
  abbrev pub Endless : String → Type 0
  Endless name = (elem name (names_of profiles) ≡ true) × ((k : ℕ) → ¬ Halts k (some name))

  pub walk_cycles :
      (fuel : ℕ) (done path : List String) (cursor : Option String) {names : List String}
      → Inside cursor
      → Leads path cursor
      → walk profiles fuel done path cursor ≡ cycle names
      → (name : String) × Endless name
  unfolding walk
  walk_cycles fuel done path none i l h = cc
  walk_cycles zero done path (some c) i l h = cc
  walk_cycles (suc fuel) done path (some c) i l h = elim (Bool-cases (elem c path)) [
    | inl old ↦ (c, (i, λ k. no_descent c (l c old) (suc k) k (omega arith)))
    | inr new ↦ elim (Bool-cases (elem c done)) [
      | inl seen ↦ absurd (ground arith)
      | inr fresh ↦
          walk_cycles fuel done (path ++ c ∷ []) (next_of c) (next-Inside c) (Leads-next path c l)
            (rw (new, fresh) at h)
    ]
  ]
