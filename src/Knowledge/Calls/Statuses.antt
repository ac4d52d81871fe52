-- ===== src/Knowledge/Calls/Statuses.antt =====
-- The statuses of records under the calls of src/knowledge/lifecycle.ts, beside the state machine of
-- docs/internals/knowledge/skills-and-memory.md, section 5.

use saivage.Base.{
  String, ◌≡◌, refl, sym, subst, Option, none, some, [], ◌∷◌, ◌++◌, arith, inl, inr, ◌⊎◌, true,
  Bool-cases, Option-cases, ◌==◌, eq_iff,
}
use saivage.Knowledge.Permissions.{Kind, skill, memory, Scope}
use saivage.Knowledge.Records.{
  Status, active, superseded, archived, expired, is_active, AuthorAgent, Details, RecordRow,
  AuditRow, Sidecar,
}
use saivage.Knowledge.Sidecar.{
  StoreError, ok, after, update_where, as_superseded, set_columns, in_scope_of, get_record,
}
use saivage.Knowledge.Sidecar.Rows.{
  find_row, KeepsId, find_row-update_where, find_row-append, find_row-delete, find_row-archive_rows,
  find_row-clear_pending, find_row-absent, find_row-id,
}
use saivage.Knowledge.Lifecycle.{
  Env, NewRecord, Changes, reingest, insert_new, archive_one, delete_one, update_one, supersede_one,
}
use saivage.Knowledge.Lifecycle.Effects.{
  archived_row, archive_one-Archived, delete_one-Deleted, update_one-Updated,
  supersede_one-Superseded, successor, skills_archived, archive_scope-ScopeArchived,
}
use saivage.Knowledge.Lifecycle.Scopes.{ScopeArchiveResult, archive_scope_for_project}
use saivage.Knowledge.Calls.{KnowledgeCall, step}
use saivage.Knowledge.Calls.Kept.{archived_id, Kept, step-Kept}

abbrev status_of_row : Option RecordRow → Option Status
status_of_row none = none
status_of_row (some r) = some r.status

-- the status of an id, if there is a record of it
unfoldable pub status_of : Sidecar → String → Option Status
unfolding get_record
status_of s id = status_of_row (get_record s id)

-- The state machine of the documentation: a record is created active; an active one is superseded,
-- archived or expires; one of any status is deleted; and nothing else changes a status.
pub data Move : Option Status → Option Status → Type 0 where
  stay : (a : Option Status) → Move a a
  create : Move none (some active)
  supersede : Move (some active) (some superseded)
  archive : Move (some active) (some archived)
  expire : Move (some active) (some expired)
  delete : (a : Status) → Move (some a) none

-- What `archiveSkill` and `archiveMemory` do beside it, since they test no status.
pub data Rearchive : Option Status → Option Status → Type 0 where
  after_superseded : Rearchive (some superseded) (some archived)
  after_expired : Rearchive (some expired) (some archived)

abbrev pub Moved : Type 0 → Option Status → Option Status → Type 0
Moved N a b = Move a b ⊎ (N × Rearchive a b)

abbrev Moves : (String → Type 0) → Sidecar → Sidecar → Type 0
Moves Named s t = (j : String) → Moved (Named j) (status_of s j) (status_of t j)

Moved-of_eq :
    {N : Type 0} {a b a' b' : Option Status} → a ≡ a' → b ≡ b' → Moved N a' b' → Moved N a b
Moved-of_eq {N} {a} {b} {a'} e f m = subst (λ x. Moved N x b) (sym e) (subst (Moved N a') (sym f) m)

Moved-archived : {N : Type 0} → N → (a : Status) → Moved N (some a) (some archived)
Moved-archived n active = inl archive
Moved-archived n superseded = inr (n, after_superseded)
Moved-archived n archived = inl (stay (some archived))
Moved-archived n expired = inr (n, after_expired)

active_of_is_active : (a : Status) → is_active a ≡ true → a ≡ active
active_of_is_active active h = refl
active_of_is_active superseded h = cc
active_of_is_active archived h = cc
active_of_is_active expired h = cc

Move-of_eq : {a b a' b' : Option Status} → a ≡ a' → b ≡ b' → Move a' b' → Move a b
Move-of_eq {a} {b} {a'} e f m = subst (λ x. Move x b) (sym e) (subst (Move a') (sym f) m)

Move-stay : {a b : Option Status} → a ≡ b → Move a b
Move-stay {a} e = subst (Move a) e (stay a)

module _ (j : String) where
  status_of-reingest :
      (env : Env) (kind : Kind) (t : Sidecar)
      → status_of (after t (reingest env kind t)) j ≡ status_of t j
  unfolding status_of reingest
  status_of-reingest env kind t = ground (arith, find_row-clear_pending kind j t.rows)

  Move-inserted :
      (kind : Kind) (collision : StoreError) (row : RecordRow) (a : AuditRow) (s t : Sidecar)
      → row.status ≡ active
      → insert_new kind collision row a s ≡ ok (tt, t)
      → Move (status_of s j) (status_of t j)
  unfolding status_of insert_new
  Move-inserted kind collision row a s t e h = elim (Bool-cases (row.id == j)) [
    | inl same ↦
        Move-of_eq (ground (arith, find_row-absent row.id s.rows, eq_iff row.id j))
          (ground (
            arith,
            find_row-absent row.id s.rows,
            find_row-append j s.rows (row ∷ []),
            eq_iff row.id j,
          ))
          create
    | inr other ↦ Move-stay (ground (arith, find_row-append j s.rows (row ∷ [])))
  ]

  -- a write to one row, by a function that keeps ids
  Move-updated :
      (id : String) (f : RecordRow → RecordRow) (s t : Sidecar)
      → KeepsId f
      → t.rows ≡ update_where id f s.rows
      → ((r : RecordRow) → find_row id s.rows ≡ some r → Move (some r.status) (some (f r).status))
      → Move (status_of s j) (status_of t j)
  unfolding status_of
  Move-updated id f s t k e step = elim (Bool-cases (id == j)) [
    | inr other ↦ Move-stay (ground (arith, find_row-update_where f k id j s.rows))
    | inl here ↦ elim (Option-cases (find_row j s.rows)) [
      | inl absent ↦ Move-stay (ground (arith, find_row-update_where f k id j s.rows))
      | inr (r, found) ↦
          Move-of_eq (ground arith) (ground (arith, find_row-update_where f k id j s.rows))
            (step r (subst (λ x. find_row x s.rows ≡ some r) (sym ((eq_iff id j).0 here)) found))
    ]
  ]

  Move-archived :
      (env : Env) (kind : Kind) (id : String) (author : AuthorAgent) (s t : Sidecar)
      → (Named : String → Type 0) → Named id
      → archive_one env kind id author s ≡ ok (tt, t)
      → Moved (Named j) (status_of s j) (status_of t j)
  unfolding status_of
  Move-archived env kind id author s t Named n h =
      let e = archive_one-Archived env kind id author s t h in
      let same = find_row-id id s.rows e.old.found in
      let row =
        find_row-update_where (set_columns (archived_row env kind id author s t e.old.row))
          (λ r. refl) e.old.row.id j s.rows in
      elim (Bool-cases (id == j)) [
        | inl here ↦
            Moved-of_eq (ground (arith, e.old.found, eq_iff id j))
              (ground (arith, e.rows, row, e.old.found, same, eq_iff id j))
              (Moved-archived (subst Named ((eq_iff id j).0 here) n) e.old.row.status)
        | inr other ↦ inl (Move-stay (ground (arith, e.rows, row, same)))
      ]

  Move-deleted :
      (env : Env) (kind : Kind) (id : String) (author : AuthorAgent) (s t : Sidecar)
      → delete_one env kind id author s ≡ ok (tt, t)
      → Move (status_of s j) (status_of t j)
  unfolding status_of
  Move-deleted env kind id author s t h =
      let e = delete_one-Deleted env kind id author s t h in
      elim (Bool-cases (id == j)) [
        | inl here ↦
            Move-of_eq (ground (arith, e.old.found, eq_iff id j))
              (ground (arith, e.rows, find_row-delete id j s.rows)) (delete e.old.row.status)
        | inr other ↦ Move-stay (ground (arith, e.rows, find_row-delete id j s.rows))
      ]

  Move-changed :
      (env : Env) (kind : Kind) (input : Changes) (details : Details → Details)
      (author : AuthorAgent) (s t : Sidecar)
      → update_one env kind input details author s ≡ ok (tt, t)
      → Move (status_of s j) (status_of t j)
  Move-changed env kind input details author s t h =
      let e = update_one-Updated env kind input details author s t h in
      Move-updated e.old.row.id _ s t (λ r. refl) e.rows
        (λ r f.
          Move-stay (ground (arith, e.old.found, f, find_row-id input.id s.rows {r = e.old.row})))

  Move-superseded :
      (env : Env) (kind : Kind) (old_id : String) (input : NewRecord) (key : String)
      (details : Details) (author : AuthorAgent) (s t : Sidecar)
      → supersede_one env kind old_id input key details author s ≡ ok (tt, t)
      → Move (status_of s j) (status_of t j)
  unfolding status_of
  Move-superseded env kind old_id input key details author s t h =
      let e = supersede_one-Superseded env kind old_id input key details author s t h in
      let new = successor env kind old_id input key details author s t in
      let rows =
        find_row-update_where (as_superseded env.new_id env.now) (λ r. refl) old_id j
          (s.rows ++ new ∷ []) in
      let absent = find_row-absent env.new_id s.rows e.id_free in
      let appended = find_row-append j s.rows (new ∷ []) in
      elim (Bool-cases (old_id == j)) [
        | inl here ↦
            Move-of_eq (ground (arith, e.old.found, e.was_active, eq_iff old_id j))
              (ground (arith, e.rows, e.old.found, rows, appended, eq_iff old_id j)) supersede
        | inr other ↦ elim (Bool-cases (env.new_id == j)) [
          | inl created ↦
              Move-of_eq (ground (arith, absent, eq_iff env.new_id j))
                (ground (arith, e.rows, rows, appended, absent, eq_iff env.new_id j)) create
          | inr old ↦ Move-stay (ground (arith, e.rows, rows, appended))
        ]
      ]

  Move-scope_archived :
      (env : Env) (scope : Scope) (ref : String) (s t : Sidecar) (r : ScopeArchiveResult)
      → archive_scope_for_project env scope ref s ≡ ok (r, t)
      → Move (status_of s j) (status_of t j)
  unfolding status_of
  Move-scope_archived env scope ref s t r h =
      let e = archive_scope-ScopeArchived env scope ref s t r h in
      let first = find_row-archive_rows (in_scope_of skill scope ref) env.now j s.rows in
      let second =
        find_row-archive_rows (in_scope_of memory scope ref) env.now j
          (skills_archived env scope ref s t) in
      elim (Option-cases (find_row j s.rows)) [
        | inl absent ↦ Move-stay (ground (arith, e.rows, first, second))
        | inr (row, found) ↦ elim (Bool-cases (in_scope_of skill scope ref row)) [
          | inl p ↦
              Move-of_eq (ground (arith, active_of_is_active row.status))
                (ground (arith, e.rows, first, second)) archive
          | inr p ↦ elim (Bool-cases (in_scope_of memory scope ref row)) [
            | inl q ↦
                Move-of_eq (ground (arith, active_of_is_active row.status))
                  (ground (arith, e.rows, first, second)) archive
            | inr q ↦ Move-stay (ground (arith, e.rows, first, second))
          ]
        ]
      ]

Moves-Kept : (Named : String → Type 0) → Kept Named (Moves Named)
Moves-Kept Named = record {
  nothing = λ s j. inl (stay (status_of s j));
  indexed = λ env kind s t m j. Moved-of_eq refl (status_of-reingest j env kind t) (m j);
  inserted = λ env kind collision input key json author s t a h j.
      inl (Move-inserted j kind collision _ _ s t refl h);
  archived = λ env kind id author n s t a h j. Move-archived j env kind id author s t Named n h;
  deleted = λ env kind id author s t a h j. inl (Move-deleted j env kind id author s t h);
  updated = λ env kind input details author s t a h j.
      inl (Move-changed j env kind input details author s t h);
  superseded = λ env kind old_id input key details author s t a h j.
      inl (Move-superseded j env kind old_id input key details author s t h);
  scope_archived = λ env scope ref s t r h j. inl (Move-scope_archived j env scope ref s t r h);
}

-- Each call, whether it succeeds or fails, moves the status of each record by at most one step of
-- the documented state machine (created active; from active superseded, archived or expired;
-- deleted from any status), with one exception: archive_skill and archive_memory may also take the
-- record that they name from superseded or expired to archived.
pub step-Move :
    (env : Env) (c : KnowledgeCall) (s : Sidecar) (id : String)
    → Moved (archived_id c ≡ some id) (status_of s id) (status_of (step env c s) id)
step-Move env c s id =
    step-Kept (λ j. archived_id c ≡ some j) (Moves (λ j. archived_id c ≡ some j))
      (Moves-Kept (λ j. archived_id c ≡ some j)) env c s (λ j e. e) id
