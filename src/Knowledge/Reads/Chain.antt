-- ===== src/Knowledge/Reads/Chain.antt =====
-- `getMemory` of src/knowledge/lifecycle.ts and the chain of supersessions.
use saivage.Base.{
  ℕ, zero, suc, ◌<◌, String, ◌≡◌, refl, subst, true, Option, none, some, List, [], ◌∷◌, arith, inl,
  inr, Bool-cases, Option-cases, elem, map, length, remaining, remaining-le-length,
  remaining-cons-lt, eq_iff,
}
use saivage.Knowledge.Records.{Topic, RecordRow, Sidecar, is_active}
use saivage.Knowledge.Sidecar.{get_record}
use saivage.Knowledge.Sidecar.Rows.{find_row}
use saivage.Knowledge.Reads.{successor_of, walk_chain, start_row, get_memory}

abbrev row_ids : List RecordRow → List String
row_ids = map (λ r. r.id)

elem-find_row :
    (id : String) (rows : List RecordRow) {r : RecordRow}
    → find_row id rows ≡ some r
    → elem r.id (row_ids rows) ≡ true
elem-find_row id [] h = cc
elem-find_row id (x ∷ rows) {r} h = ground (arith, elem-find_row id rows {r = r}, eq_iff x.id r.id)

length-row_ids : (rows : List RecordRow) → length (row_ids rows) ≡ length rows
length-row_ids [] = refl
length-row_ids (r ∷ rows) = omega (arith, length-row_ids rows)

row_of_some : {a b : RecordRow} → some a ≡ some b → a ≡ b
row_of_some e = cc

-- The rows that one comes to from a row by `superseded_by`.
pub data Leads (s : Sidecar) : RecordRow → RecordRow → Type 0 where
  here : (r : RecordRow) → Leads s r r
  next :
      (a b c : RecordRow) (id : String)
      → successor_of a ≡ some id
      → get_record s id ≡ some b
      → Leads s b c
      → Leads s a c

-- The walk ends, at a row that it leads to.
walk_chain_ends :
    (s : Sidecar) (fuel : ℕ) (seen : List String) (cur : RecordRow)
    → remaining (row_ids s.rows) seen < fuel
    → (head : RecordRow) × (walk_chain s fuel seen cur ≡ some head) × Leads s cur head
unfolding walk_chain get_record
walk_chain_ends s zero seen cur lt = absurd (omega arith)
walk_chain_ends s (suc fuel) seen cur lt = elim (Option-cases (successor_of cur)) [
  | inl e ↦ (cur, ground arith, here cur)
  | inr (id, e) ↦ elim (Option-cases (find_row id s.rows)) [
    | inl f ↦ (cur, ground arith, here cur)
    | inr (r, f) ↦ elim (Bool-cases (elem r.id seen)) [
      | inl old ↦ (cur, ground arith, here cur)
      | inr new ↦
          let less = remaining-cons-lt (row_ids s.rows) r.id seen (elem-find_row id s.rows f) new in
          let (head, w, l) = walk_chain_ends s fuel (r.id ∷ seen) r (omega arith) in
          (head, ground arith, next cur r head id e f l)
    ]
  ]
]

-- With fuel above the number of records, getMemory returns, also where supersessions form a cycle;
-- and a record that it returns is active and is reached by supersessions from the one that it
-- started at.
pub get_memory_ends :
    (s : Sidecar) (fuel : ℕ) (id : Option String) (topic : Option Topic)
    → length s.rows < fuel
    → (r : Option RecordRow) × (get_memory s fuel id topic ≡ some r)
      × ((row : RecordRow)
          → r ≡ some row
          → (is_active row.status ≡ true)
            × ((start : RecordRow) × (start_row s id topic ≡ some start) × Leads s start row))
unfolding get_memory
get_memory_ends s fuel id topic lt = elim (Option-cases (start_row s id topic)) [
  | inl e ↦ (none, ground arith, λ row f. cc)
  | inr (start, e) ↦
      let (head, w, l) = walk_chain_ends s fuel (start.id ∷ []) start (
        omega
          (arith, remaining-le-length (row_ids s.rows) (start.id ∷ []), length-row_ids s.rows)) in
      elim (Bool-cases (is_active head.status)) [
        | inl a ↦ (
          some head,
          ground arith,
          λ row f. (ground arith, (start, e, subst (Leads s start) (row_of_some f) l)),
        )
        | inr a ↦ (none, ground arith, λ row f. cc)
      ]
]
