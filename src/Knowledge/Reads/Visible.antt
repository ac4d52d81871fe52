-- ===== src/Knowledge/Reads/Visible.antt =====
-- The hits that the search of src/knowledge/lifecycle.ts shows.
use saivage.Base.{
  ℕ, zero, suc, ◌≤◌, String, ◌≡◌, ◌≢◌, ◌⊎◌, sym, subst, Bool, true, false, ◌&&◌, Option, none, some,
  List, [], ◌∷◌, ◌++◌, arith, inl, inr, Bool-cases, Option-cases, elem, elem-append, map, filter,
  length, All, Distinct, eq_iff,
}
use saivage.Knowledge.Permissions.{Kind, Scope, project, stage, session}
use saivage.Knowledge.Records.{RecordRow, Sidecar, is_active, same_kind, same_scope, same_ref}
use saivage.Knowledge.Sidecar.{
  get_record, active_records, active_records_by_scope, in_scope, in_scope_of,
}
use saivage.Knowledge.Sidecar.Rows.{find_row, find_row-id}
use saivage.Knowledge.Reads.Search.{
  Hit, Best, SearchContext, is_nil, by_score, best_hits, ids_in, live_row, visible_scope_ids,
  take_hits, clamp_top_k, search_records,
}

abbrev ids_of : List RecordRow → List String
ids_of = map (λ r. r.id)

elem-ids-filter :
    (p : RecordRow → Bool) (id : String) (rows : List RecordRow)
    → elem id (ids_of (filter p rows)) ≡ true
    → elem id (ids_of rows) ≡ true
elem-ids-filter p id [] h = cc
elem-ids-filter p id (r ∷ rows) h = ground (arith, elem-ids-filter p id rows)

-- Where no two rows have one id, an id of the rows that pass a test is that of a row that passes it.
passes_of_elem :
    (p : RecordRow → Bool) (id : String) (rows : List RecordRow) {r : RecordRow}
    → Distinct (ids_of rows)
    → find_row id rows ≡ some r
    → elem id (ids_of (filter p rows)) ≡ true
    → p r ≡ true
passes_of_elem p id [] d f h = cc
passes_of_elem p id (x ∷ rows) {r} (new, d) f h =
    ground (arith, passes_of_elem p id rows {r = r} d, elem-ids-filter p id rows, eq_iff x.id id)

-- A record that the reader may see: the project's, its stage's, or its channel's.
abbrev pub InReach : SearchContext → RecordRow → Type 0
InReach ctx r =
    (r.scope ≡ project)
    ⊎ ((r.scope ≡ stage) × (r.scope_ref ≡ ctx.stage_id) × (r.scope_ref ≢ none))
    ⊎ ((r.scope ≡ session) × (r.scope_ref ≡ ctx.channel_id) × (r.scope_ref ≢ none))

pub record Shown (s : Sidecar) (kind : Kind) (ctx : SearchContext) (r : RecordRow) : Type 0 where
  pub stored : get_record s r.id ≡ some r
  pub of_kind : same_kind r.kind kind ≡ true
  pub live : is_active r.status ≡ true
  pub in_reach : InReach ctx r

in_scope_project :
    (kind : Kind) (r : RecordRow) → in_scope kind project r ≡ true → r.scope ≡ project
in_scope_project kind r h = ground arith

same_scope_eq : (a b : Scope) → same_scope a b ≡ true → a ≡ b
same_scope_eq project b h = ground arith
same_scope_eq stage b h = ground arith
same_scope_eq session b h = ground arith

same_ref_eq : (a : Option String) (b : String) → same_ref a (some b) ≡ true → a ≡ some b
same_ref_eq none b h = cc
same_ref_eq (some a) b h = ground (arith, eq_iff a b)

in_scope_ref :
    (kind : Kind) (scope : Scope) (ref : String) (r : RecordRow)
    → in_scope_of kind scope ref r ≡ true
    → (r.scope ≡ scope) × (r.scope_ref ≡ some ref)
in_scope_ref kind scope ref r h =
    ground (arith, same_scope_eq r.scope scope, same_ref_eq r.scope_ref ref)

ids_in-ref :
    (s : Sidecar) (kind : Kind) (scope : Scope) (ref : Option String) (id : String) {r : RecordRow}
    → Distinct (ids_of s.rows)
    → find_row id s.rows ≡ some r
    → elem id (ids_in s kind scope ref) ≡ true
    → (r.scope ≡ scope) × (r.scope_ref ≡ ref) × (r.scope_ref ≢ none)
unfolding active_records_by_scope
ids_in-ref s kind scope none id d f h = cc
ids_in-ref s kind scope (some ref) id {r} d f h =
    let (e, g) =
      in_scope_ref kind scope ref r (passes_of_elem (in_scope_of kind scope ref) id s.rows d f h) in
    (e, g, λ n. ground arith)

elem_rest :
    (xs ys : List String) (id : String)
    → elem id (xs ++ ys) ≡ true
    → elem id xs ≡ false
    → elem id ys ≡ true
elem_rest xs ys id h n = ground (arith, elem-append id xs ys)

live_row_facts :
    (s : Sidecar) (kind : Kind) (b : Best) {r : RecordRow}
    → live_row s kind b ≡ some r
    → (find_row b.record_id s.rows ≡ some r)
      × (same_kind r.kind kind ≡ true)
      × (is_active r.status ≡ true)
unfolding get_record
live_row_facts s kind b {r} h = elim (Option-cases (find_row b.record_id s.rows)) [
  | inl e ↦ absurd (ground arith)
  | inr (x, e) ↦ elim (Bool-cases (same_kind x.kind kind && is_active x.status)) [
    | inl p ↦
        let same : x ≡ r = ground arith in
        subst
          (λ y.
            (find_row b.record_id s.rows ≡ some y)
            × (same_kind y.kind kind ≡ true)
            × (is_active y.status ≡ true))
          same (e, ground arith, ground arith)
    | inr p ↦ absurd (ground arith)
  ]
]

-- A visible id is that of a record in reach.
visible-InReach :
    (s : Sidecar) (kind : Kind) (ctx : SearchContext) (id : String) {r : RecordRow}
    → Distinct (ids_of s.rows)
    → find_row id s.rows ≡ some r
    → elem id (visible_scope_ids s kind ctx) ≡ true
    → InReach ctx r
unfolding visible_scope_ids
visible-InReach s kind ctx id {r} d f h =
    elim (Bool-cases (elem id (ids_of (active_records s kind project)))) [
      | inl a ↦
          inl (in_scope_project kind r (passes_of_elem (in_scope kind project) id s.rows d f a))
      | inr a ↦
          let rest = elem_rest _ _ id h a in
          elim (Bool-cases (elem id (ids_in s kind stage ctx.stage_id))) [
            | inl b ↦ inr (inl (ids_in-ref s kind stage ctx.stage_id id d f b))
            | inr b ↦
                inr
                  (inr (ids_in-ref s kind session ctx.channel_id id d f (elem_rest _ _ id rest b)))
          ]
    ]

abbrev GoodHits : Sidecar → Kind → SearchContext → ℕ → List (RecordRow × ℕ) → Type 0
GoodHits s kind ctx n hits = All (λ hit. Shown s kind ctx hit.0) hits × (length hits ≤ n)

hits_shown :
    (s : Sidecar) (kind : Kind) (ctx : SearchContext) (n : ℕ) (bs : List Best)
    → Distinct (ids_of s.rows)
    → GoodHits s kind ctx n (take_hits s kind (visible_scope_ids s kind ctx) n bs)
unfolding take_hits
hits_shown s kind ctx zero bs d = (tt, omega arith)
hits_shown s kind ctx (suc n) [] d = (tt, omega arith)
hits_shown s kind ctx (suc n) (b ∷ bs) d =
    let skipped = hits_shown s kind ctx (suc n) bs d in
    elim (Bool-cases (elem b.record_id (visible_scope_ids s kind ctx))) [
      | inr out ↦ subst (GoodHits s kind ctx (suc n)) (ground arith) skipped
      | inl seen ↦ elim (Option-cases (live_row s kind b)) [
        | inl e ↦ subst (GoodHits s kind ctx (suc n)) (ground arith) skipped
        | inr (r, e) ↦
            let (found, k, a) = live_row_facts s kind b e in
            let id = find_row-id b.record_id s.rows found in
            let (shown, le) = hits_shown s kind ctx n bs d in
            let first : Shown s kind ctx r = record {
              stored = subst (λ i. find_row i s.rows ≡ some r) (sym id) found;
              of_kind = k;
              live = a;
              in_reach = visible-InReach s kind ctx b.record_id d found seen;
            } in
            subst (GoodHits s kind ctx (suc n))
              {x = (r, b.score) ∷ take_hits s kind (visible_scope_ids s kind ctx) n bs}
              (ground arith) ((first, shown), omega arith)
      ]
    ]

clamp_le : (top_k : Option ℕ) → clamp_top_k top_k ≤ 50
clamp_le none = omega arith
clamp_le (some n) = ground arith

-- Where no two records have one id, and whatever the index answers, the search shows at most fifty hits,
-- each an active record of the kind that the reader may see: the project's, its stage's or its channel's.
pub search_shows :
    (s : Sidecar) (kind : Kind) (top_k : Option ℕ) (ctx : SearchContext) (hits : Option (List Hit))
    {shown : List (RecordRow × ℕ)}
    → Distinct (ids_of s.rows)
    → search_records s kind top_k ctx hits ≡ some shown
    → All (λ hit. Shown s kind ctx hit.0) shown × (length shown ≤ 50)
unfolding search_records
search_shows s kind top_k ctx none {shown} d h =
    let same : [] ≡ shown = ground arith in subst (GoodHits s kind ctx 50) same (tt, omega arith)
search_shows s kind top_k ctx (some hs) {shown} d h =
    elim (Bool-cases (is_nil (visible_scope_ids s kind ctx))) [
      | inl e ↦
          let same : [] ≡ shown = ground arith in
          subst (GoodHits s kind ctx 50) same (tt, omega arith)
      | inr e ↦
          let best = by_score (best_hits [] hs) in
          let (all, le) = hits_shown s kind ctx (clamp_top_k top_k) best d in
          subst (GoodHits s kind ctx 50) (ground arith) (all, omega (arith, le, clamp_le top_k))
    ]
