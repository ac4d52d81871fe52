-- ===== src/Knowledge/Calls/Audit.antt =====
-- The table `audit` under the calls of src/knowledge/lifecycle.ts.
use saivage.Base.{
  String, ◌≡◌, refl, sym, ◌∙◌, ◌⊎◌, Bool, true, false, ◌||◌, Option, none, some, List, [], ◌∷◌,
  ◌++◌, arith, inl, inr, Bool-cases, Option-cases, map, filter, elem, append-nil, append_assoc,
  ◌==◌,
}
use saivage.Knowledge.Permissions.{Kind, skill, memory}
use saivage.Knowledge.Records.{AuditRow, RecordRow, Sidecar}
use saivage.Knowledge.Sidecar.{
  after, update_where, as_superseded, archive_rows, in_scope_of, archive_audit,
  active_records_by_scope,
}
use saivage.Knowledge.Sidecar.Rows.{
  find_row, KeepsId, find_row-update_where, find_row-append, find_row-delete, find_row-archive_rows,
  find_row-clear_pending, find_row-id,
}
use saivage.Knowledge.Lifecycle.{Env, reingest}
use saivage.Knowledge.Lifecycle.Scopes.{system_author}
use saivage.Knowledge.Lifecycle.Effects.{
  insert_new-Inserted, archive_one-Archived, delete_one-Deleted, update_one-Updated,
  supersede_one-Superseded, archive_scope-ScopeArchived, successor,
}
use saivage.Knowledge.Calls.{KnowledgeCall, step}
use saivage.Knowledge.Calls.Kept.{Kept, step-Kept}

abbrev pub audited_ids : List AuditRow → List String
audited_ids = map (λ a. a.record_id)

-- the row, whether or not it is indexed
abbrev pub content : Option RecordRow → Option RecordRow
content none = none
content (some r) = some (record r { pending_reingest = false })

-- The trail has only grown, and it names every record whose row has changed in more than its mark for
-- the index, has come, or has gone.
pub record Traced (s t : Sidecar) : Type 0 where
  pub entries : List AuditRow
  pub grown : t.audit ≡ s.audit ++ entries
  pub named :
      (id : String)
      → (content (find_row id t.rows) ≡ content (find_row id s.rows))
        ⊎ (elem id (audited_ids entries) ≡ true)

Traced-update :
    (id : String) (f : RecordRow → RecordRow) (a : AuditRow) (s t : Sidecar)
    → KeepsId f
    → a.record_id ≡ id
    → t.rows ≡ update_where id f s.rows
    → t.audit ≡ s.audit ++ a ∷ []
    → Traced s t
Traced-update id f a s t k e rows audit = record {
  entries = a ∷ [];
  grown = audit;
  named = λ j. elim (Bool-cases (id == j)) [
    | inl here ↦ inr (ground arith)
    | inr other ↦ inl (ground (arith, rows, find_row-update_where f k id j s.rows))
  ];
}

elem-archived :
    (p : RecordRow → Bool) (ts j : String) (rows : List RecordRow) {r : RecordRow}
    → find_row j rows ≡ some r
    → p r ≡ true
    → elem j (audited_ids (map (archive_audit system_author ts) (filter p rows))) ≡ true
elem-archived p ts j [] f h = cc
elem-archived p ts j (x ∷ rows) {r} f h =
    let rest = elem-archived p ts j rows {r = r} in
    elim (Bool-cases (p x)) [
      | inl e ↦ rw e (ground (arith, rest))
      | inr e ↦ rw e (ground (arith, rest))
    ]

Traced-indexed :
    (env : Env) (kind : Kind) (s t : Sidecar)
    → Traced s t
    → Traced s (after t (reingest env kind t))
unfolding reingest
Traced-indexed env kind s t k = record {
  entries = k.entries;
  grown = ground (arith, k.grown);
  named = λ j. elim (k.named j) [
    | inl e ↦ inl (ground (arith, e, find_row-clear_pending kind j t.rows))
    | inr e ↦ inr e
  ];
}

elem-audited-append :
    (j : String) (xs ys : List AuditRow)
    → elem j (audited_ids (xs ++ ys)) ≡ (elem j (audited_ids xs) || elem j (audited_ids ys))
elem-audited-append j [] ys = refl
elem-audited-append j (x ∷ xs) ys = ground (arith, elem-audited-append j xs ys)

Traced-appended :
    (id : String) (row : RecordRow) (a : AuditRow) (s t : Sidecar)
    → row.id ≡ id
    → a.record_id ≡ id
    → t.rows ≡ s.rows ++ row ∷ []
    → t.audit ≡ s.audit ++ a ∷ []
    → Traced s t
Traced-appended id row a s t e f rows audit = record {
  entries = a ∷ [];
  grown = audit;
  named = λ j. elim (Bool-cases (id == j)) [
    | inl here ↦ inr (ground arith)
    | inr other ↦ inl (ground (arith, rows, find_row-append j s.rows (row ∷ [])))
  ];
}

Traced-scope :
    (p q : RecordRow → Bool) (ts : String) (s t : Sidecar)
    → t.rows ≡ archive_rows q ts (archive_rows p ts s.rows)
    → t.audit
      ≡ (s.audit ++ map (archive_audit system_author ts) (filter p s.rows))
        ++ map (archive_audit system_author ts) (filter q (archive_rows p ts s.rows))
    → Traced s t
Traced-scope p q ts s t rows audit = record {
  entries =
      map (archive_audit system_author ts) (filter p s.rows)
      ++ map (archive_audit system_author ts) (filter q (archive_rows p ts s.rows));
  grown = audit ∙ append_assoc s.audit _ _;
  named = λ j.
      let first = find_row-archive_rows p ts j s.rows in
      let second = find_row-archive_rows q ts j (archive_rows p ts s.rows) in
      let split =
        elem-audited-append j (map (archive_audit system_author ts) (filter p s.rows))
          (map (archive_audit system_author ts) (filter q (archive_rows p ts s.rows))) in
      elim (Option-cases (find_row j s.rows)) [
        | inl e ↦ inl (ground (arith, rows, first, second))
        | inr (r, e) ↦ elim (Bool-cases (p r)) [
          | inl yes_p ↦ inr (ground (arith, split, elem-archived p ts j s.rows e yes_p))
          | inr no_p ↦
              let kept : find_row j (archive_rows p ts s.rows) ≡ some r = ground (arith, first) in
              elim (Bool-cases (q r)) [
                | inl yes_q ↦ inr (
                    ground
                      (arith, split, elem-archived q ts j (archive_rows p ts s.rows) kept yes_q))
                | inr no_q ↦ inl (ground (arith, rows, second, kept))
              ]
        ]
      ];
}

Traced-Kept : Kept (λ id. Unit) Traced
unfolding active_records_by_scope
Traced-Kept = record {
  nothing = λ s. record { entries = []; grown = sym (append-nil _); named = λ j. inl refl };
  indexed = Traced-indexed;
  inserted = λ env kind collision input key json author s t a h.
      let e = insert_new-Inserted kind collision _ _ s t h in
      Traced-appended env.new_id _ _ s t refl refl e.rows e.audit;
  archived = λ env kind id author named s t a h.
      let e = archive_one-Archived env kind id author s t h in
      Traced-update e.old.row.id _ _ s t (λ r. refl) (sym (find_row-id id s.rows e.old.found))
        e.rows e.audit;
  deleted = λ env kind id author s t a h.
      let e = delete_one-Deleted env kind id author s t h in
      record {
        entries = _;
        grown = e.audit;
        named = λ j. elim (Bool-cases (id == j)) [
          | inl here ↦ inr (ground arith)
          | inr other ↦ inl (ground (arith, e.rows, find_row-delete id j s.rows))
        ];
      };
  updated = λ env kind input details author s t a h.
      let e = update_one-Updated env kind input details author s t h in
      Traced-update e.old.row.id _ _ s t (λ r. refl) (sym (find_row-id input.id s.rows e.old.found))
        e.rows e.audit;
  superseded = λ env kind old_id input key details author s t a h.
      let e = supersede_one-Superseded env kind old_id input key details author s t h in
      let row = successor env kind old_id input key details author s t in
      record {
        entries = _;
        grown = e.audit ∙ append_assoc s.audit _ _;
        named = λ j.
            let written =
              find_row-update_where (as_superseded env.new_id env.now) (λ r. refl) old_id j
                (s.rows ++ row ∷ []) in
            let appended = find_row-append j s.rows (row ∷ []) in
            elim (Bool-cases (old_id == j)) [
              | inl here ↦ inr (ground arith)
              | inr other ↦ elim (Bool-cases (env.new_id == j)) [
                | inl made ↦ inr (ground arith)
                | inr old ↦ inl (ground (arith, e.rows, written, appended))
              ]
            ];
      };
  scope_archived = λ env scope ref s t r h.
      let e = archive_scope-ScopeArchived env scope ref s t r h in
      Traced-scope (in_scope_of skill scope ref) (in_scope_of memory scope ref) env.now s t e.rows
        e.audit;
}

-- Each call, whether it succeeds or fails, only adds to the audit trail, and the entries that it adds
-- name every record that has come, has gone, or has changed in more than its mark for the index.
pub step-Traced : (env : Env) (c : KnowledgeCall) (s : Sidecar) → Traced s (step env c s)
step-Traced env c s = step-Kept (λ id. Unit) Traced Traced-Kept env c s (λ id e. tt)
