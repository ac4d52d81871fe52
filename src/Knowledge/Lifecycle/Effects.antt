-- ===== src/Knowledge/Lifecycle/Effects.antt =====
-- What each transaction of src/knowledge/lifecycle.ts has done when it has not failed.
use saivage.Base.{
  String, ◌≡◌, true, false, not, some, List, [], ◌∷◌, ◌++◌, arith, inl, inr, Bool-cases,
  Option-cases, any, map, filter, ◌==◌,
}
use saivage.Knowledge.Permissions.{Kind, skill, memory, Scope}
use saivage.Knowledge.Records.{
  archived, AuditOp, AuthorAgent, Details, RecordRow, AuditRow, Sidecar, is_active, same_kind,
}
use saivage.Knowledge.Sidecar.{
  StoreError, ok, key_is_active, update_where, set_columns, as_superseded, in_scope_of,
  archive_rows, archive_audit, active_records_by_scope,
}
use saivage.Knowledge.Sidecar.Rows.{find_row}
use saivage.Knowledge.Lifecycle.{
  Env, NewRecord, Changes, new_json, new_row, build_audit, given_or, given_else,
  is_allowed_supersede_scope_pair, insert_new, archive_one, delete_one, update_one, supersede_one,
}
use saivage.Knowledge.Lifecycle.Scopes.{
  system_author, archive_scope_for_project, ScopeArchiveResult,
}

-- The row of the id, of the kind.
pub record Found (kind : Kind) (id : String) (s : Sidecar) : Type 0 where
  pub row : RecordRow
  pub found : find_row id s.rows ≡ some row
  pub kind_ok : same_kind row.kind kind ≡ true

pub record Inserted (kind : Kind) (row : RecordRow) (a : AuditRow) (s t : Sidecar) : Type 0 where
  pub key_free : key_is_active s kind row.scope row.scope_ref row.key ≡ false
  pub id_free : any (λ r. r.id == row.id) s.rows ≡ false
  pub rows : t.rows ≡ s.rows ++ row ∷ []
  pub audit : t.audit ≡ s.audit ++ a ∷ []

pub insert_new-Inserted :
    (kind : Kind) (collision : StoreError) (row : RecordRow) (a : AuditRow) (s t : Sidecar)
    → insert_new kind collision row a s ≡ ok (tt, t)
    → Inserted kind row a s t
unfolding insert_new
insert_new-Inserted kind collision row a s t h = ground arith

module _ (env : Env) (kind : Kind) (id : String) (author : AuthorAgent) (s t : Sidecar) where
  abbrev pub archived_row : RecordRow → RecordRow
  archived_row r = record r {
    status = archived;
    json = record (r.json) { status = archived; updated_at = env.now };
    updated_at = env.now;
    pending_reingest = true;
  }

  pub record Archived : Type 0 where
    pub old : Found kind id s
    pub rows : t.rows ≡ update_where old.row.id (set_columns (archived_row old.row)) s.rows
    pub audit : t.audit ≡ s.audit ++ build_audit env id AuditOp.archive author ∷ []

  pub archive_one-Archived : archive_one env kind id author s ≡ ok (tt, t) → Archived
  unfolding archive_one
  archive_one-Archived h = elim (Option-cases (find_row id s.rows)) [
    | inl e ↦ absurd (ground arith)
    | inr (r, e) ↦ elim (Bool-cases (same_kind r.kind kind)) [
      | inl k ↦ record {
        old = record { row = r; found = e; kind_ok = k };
        rows = ground arith;
        audit = ground arith;
      }
      | inr k ↦ absurd (ground arith)
    ]
  ]

  pub record Deleted : Type 0 where
    pub old : Found kind id s
    pub rows : t.rows ≡ filter (λ r. not (r.id == id)) s.rows
    pub audit : t.audit ≡ s.audit ++ build_audit env id AuditOp.delete author ∷ []

  pub delete_one-Deleted : delete_one env kind id author s ≡ ok (tt, t) → Deleted
  unfolding delete_one
  delete_one-Deleted h = elim (Option-cases (find_row id s.rows)) [
    | inl e ↦ absurd (ground arith)
    | inr (r, e) ↦ elim (Bool-cases (same_kind r.kind kind)) [
      | inl k ↦ record {
        old = record { row = r; found = e; kind_ok = k };
        rows = ground arith;
        audit = ground arith;
      }
      | inr k ↦ absurd (ground arith)
    ]
  ]

module _ (env : Env) (kind : Kind) (input : Changes) (details : Details → Details)
    (author : AuthorAgent) (s t : Sidecar) where
  abbrev pub updated_row : RecordRow → RecordRow
  updated_row r = record r {
    json = record (r.json) {
      details = details r.json.details;
      target_agents = given_or input.target_agents r.json.target_agents;
      expires_at = given_else input.expires_at r.json.expires_at;
      ttl_ms = given_else input.ttl_ms r.json.ttl_ms;
      updated_at = env.now;
    };
    body = given_or input.body r.body;
    updated_at = env.now;
    pending_reingest = true;
  }

  pub record Updated : Type 0 where
    pub old : Found kind input.id s
    pub rows : t.rows ≡ update_where old.row.id (set_columns (updated_row old.row)) s.rows
    pub audit : t.audit ≡ s.audit ++ build_audit env input.id AuditOp.update author ∷ []

  pub update_one-Updated : update_one env kind input details author s ≡ ok (tt, t) → Updated
  unfolding update_one
  update_one-Updated h = elim (Option-cases (find_row input.id s.rows)) [
    | inl e ↦ absurd (ground arith)
    | inr (r, e) ↦ elim (Bool-cases (same_kind r.kind kind)) [
      | inl k ↦ record {
        old = record { row = r; found = e; kind_ok = k };
        rows = ground arith;
        audit = ground arith;
      }
      | inr k ↦ absurd (ground arith)
    ]
  ]

module _ (env : Env) (kind : Kind) (old_id : String) (input : NewRecord) (key : String)
    (details : Details) (author : AuthorAgent) (s t : Sidecar) where
  abbrev pub successor : RecordRow
  successor =
      new_row env kind input key (some old_id) (new_json env author input (some old_id) details)

  pub record Superseded : Type 0 where
    pub old : Found kind old_id s
    pub was_active : is_active old.row.status ≡ true
    pub scopes : is_allowed_supersede_scope_pair old.row.scope input.scope ≡ true
    pub id_free : any (λ r. r.id == env.new_id) s.rows ≡ false
    pub rows :
        t.rows ≡ update_where old_id (as_superseded env.new_id env.now) (s.rows ++ successor ∷ [])
    pub audit :
        t.audit
        ≡ (s.audit ++ build_audit env env.new_id AuditOp.supersede author ∷ [])
          ++ build_audit env old_id AuditOp.supersede author ∷ []

  pub supersede_one-Superseded :
      supersede_one env kind old_id input key details author s ≡ ok (tt, t) → Superseded
  unfolding supersede_one
  supersede_one-Superseded h = elim (Option-cases (find_row old_id s.rows)) [
    | inl e ↦ absurd (ground arith)
    | inr (r, e) ↦ elim (Bool-cases (same_kind r.kind kind)) [
      | inl k ↦ record {
        old = record { row = r; found = e; kind_ok = k };
        was_active = ground arith;
        scopes = ground arith;
        id_free = ground arith;
        rows = ground arith;
        audit = ground arith;
      }
      | inr k ↦ absurd (ground arith)
    ]
  ]

module _ (env : Env) (scope : Scope) (ref : String) (s t : Sidecar) where
  abbrev pub skills_archived : List RecordRow
  skills_archived = archive_rows (in_scope_of skill scope ref) env.now s.rows

  pub record ScopeArchived : Type 0 where
    pub rows : t.rows ≡ archive_rows (in_scope_of memory scope ref) env.now skills_archived
    pub audit :
        t.audit
        ≡ (s.audit
            ++ map
                (archive_audit system_author env.now)
                (active_records_by_scope s skill scope ref))
          ++ map
              (archive_audit system_author env.now)
              (filter (in_scope_of memory scope ref) skills_archived)

  pub archive_scope-ScopeArchived :
      (r : ScopeArchiveResult)
      → archive_scope_for_project env scope ref s ≡ ok (r, t)
      → ScopeArchived
  unfolding archive_scope_for_project
  archive_scope-ScopeArchived r h = record { rows = ground arith; audit = ground arith }
