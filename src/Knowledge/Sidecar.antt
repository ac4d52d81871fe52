-- ===== src/Knowledge/Sidecar.antt =====
-- src/knowledge/sidecar-queries.ts over the tables as lists, and the transactions of sidecar.ts. A call
-- that fails inside a transaction leaves no trace, so that a failure has no state.
pub mod Rows
use saivage.Base.{
  String, Bool, true, false, not, ◌&&◌, Option, none, some, List, [], ◌∷◌, ◌++◌, map, any, filter,
  find?, if◌then◌else◌, ◌==◌,
}
use saivage.Knowledge.Permissions.{Kind, Scope, Role, manager}
use saivage.Knowledge.Records.{
  Status, active, superseded, archived, AuditOp, AuthorAgent, KnowledgeRecord, RecordRow, AuditRow,
  Sidecar, is_active, same_kind, same_scope, same_ref,
}
use saivage.Knowledge.Records

-- The codes of `KnowledgeStoreError` that the lifecycle throws; `invalid_record` is a ZodError, and
-- `constraint` SQLite's refusal of a second row with one primary key.
pub data StoreError : Type 0 where
  no_runtime_lock empty_reason invalid_scope_ref secret_detected blocked_path not_found : StoreError
  name_collision topic_collision invalid_supersede_scope invalid_supersede_target : StoreError
  invalid_record constraint : StoreError

pub data Outcome {ℓ} (A : Type ℓ) : Type ℓ where
  ok : A → Outcome A
  failed : StoreError → Outcome A

abbrev pub Tx : Type 0 → Type 0
Tx A = Sidecar → Outcome (A × Sidecar)

module _ {A : Type 0} where
  abbrev pub pure : A → Tx A
  pure a s = ok (a, s)

  abbrev pub throw : StoreError → Tx A
  throw e s = failed e

  -- `if (x === undefined) throw …`
  abbrev pub require : Option A → StoreError → Tx A
  require none e = throw e
  require (some a) e = pure a

abbrev pub check : Bool → StoreError → Tx (Unit {0})
check true e = pure tt
check false e = throw e

module _ {A B : Type 0} where
  abbrev pub continue : Outcome (A × Sidecar) → (A → Tx B) → Outcome (B × Sidecar)
  continue (ok (a, s)) f = f a s
  continue (failed e) f = failed e

  infixl 10 ◌>>=◌ ◌>>◌
  abbrev pub ◌>>=◌ : Tx A → (A → Tx B) → Tx B
  ◌>>=◌ m f s = continue (m s) f

  abbrev pub ◌>>◌ : Tx A → Tx B → Tx B
  m >> n = m >>= λ _. n

-- the state after a call: that before it, if it failed
abbrev pub after {ℓ} : {A : Type ℓ} → Sidecar → Outcome (A × Sidecar) → Sidecar
after s (ok (a, s')) = s'
after s (failed e) = s

-- `getRecord`
unfoldable pub get_record : Sidecar → String → Option RecordRow
get_record s id = find? (λ r. r.id == id) s.rows

abbrev pub in_scope : Kind → Scope → RecordRow → Bool
in_scope kind scope r = same_kind r.kind kind && same_scope r.scope scope && is_active r.status

-- `activeRecordsByScope` with no `scopeRef`
unfoldable pub active_records : Sidecar → Kind → Scope → List RecordRow
active_records s kind scope = filter (in_scope kind scope) s.rows

abbrev pub in_scope_of : Kind → Scope → String → RecordRow → Bool
in_scope_of kind scope ref r = in_scope kind scope r && same_ref r.scope_ref (some ref)

-- `activeRecordsByScope` with one
unfoldable pub active_records_by_scope : Sidecar → Kind → Scope → String → List RecordRow
active_records_by_scope s kind scope ref = filter (in_scope_of kind scope ref) s.rows

-- an active row of the kind, scope and key
abbrev pub holds_key : Kind → Scope → Option String → String → RecordRow → Bool
holds_key kind scope ref key r = in_scope kind scope r && same_ref r.scope_ref ref && r.key == key

-- `findActiveSkillIdByName`, `findActiveMemoryIdByTopic`: whether there is one
unfoldable pub key_is_active : Sidecar → Kind → Scope → Option String → String → Bool
key_is_active s kind scope ref key = any (holds_key kind scope ref key) s.rows

abbrev pub audited : AuditRow → Sidecar → Sidecar
audited a s = record s { audit = s.audit ++ a ∷ [] }

-- `INSERT INTO record`: the table's schema, in sidecar.ts, declares `id TEXT PRIMARY KEY`, and SQLite
-- refuses a row whose key is there
unfoldable pub insert_row : RecordRow → Tx (Unit {0})
insert_row row s =
    if any (λ r. r.id == row.id) s.rows
    then failed constraint
    else ok (tt, record s { rows = s.rows ++ row ∷ [] })

-- `putRecord`: it tests nothing itself
unfoldable pub put_record : RecordRow → AuditRow → Tx (Unit {0})
unfolding insert_row
put_record row a = do insert_row row; λ s. ok (tt, audited a s)

-- `… WHERE id = ?`
unfoldable pub update_where : String → (RecordRow → RecordRow) → List RecordRow → List RecordRow
update_where id f [] = []
update_where id f (r ∷ rows) = (if r.id == id then f r else r) ∷ update_where id f rows

-- the columns that `updateRecord` sets
abbrev pub set_columns : RecordRow → RecordRow → RecordRow
set_columns row r = record r {
  status = row.status;
  json = row.json;
  body = row.body;
  updated_at = row.updated_at;
  supersedes = row.supersedes;
  superseded_by = row.superseded_by;
  pending_reingest = row.pending_reingest;
}

-- `updateRecord`
unfoldable pub update_record : RecordRow → AuditRow → Tx (Unit {0})
unfolding update_where
update_record row a s =
    ok (tt, audited a (record s { rows = update_where row.id (set_columns row) s.rows }))

abbrev pub as_superseded : String → String → RecordRow → RecordRow
as_superseded new_id updated_at r = record r {
  status = superseded;
  superseded_by = some new_id;
  updated_at = updated_at;
  pending_reingest = true;
}

-- `markSuperseded`
unfoldable pub mark_superseded : String → String → String → AuditRow → Tx (Unit {0})
unfolding update_where
mark_superseded old_id new_id updated_at a s = ok (
  tt,
  audited a (record s { rows = update_where old_id (as_superseded new_id updated_at) s.rows }),
)

-- `deleteRecord`
unfoldable pub delete_record : String → AuditRow → Tx (Unit {0})
delete_record id a s =
    ok (tt, audited a (record s { rows = filter (λ r. not (r.id == id)) s.rows }))

-- what `archiveScope` and then `archiveScopeForProject` do to an archived row: the columns, and the
-- status and the time in the record
abbrev pub as_archived : String → RecordRow → RecordRow
as_archived ts r = record r {
  status = archived;
  updated_at = ts;
  pending_reingest = true;
  json = record (r.json) { status = archived; updated_at = ts };
}

unfoldable pub archive_rows : (RecordRow → Bool) → String → List RecordRow → List RecordRow
archive_rows p ts [] = []
archive_rows p ts (r ∷ rows) = (if p r then as_archived ts r else r) ∷ archive_rows p ts rows

abbrev pub archive_audit : AuthorAgent → String → RecordRow → AuditRow
archive_audit author ts r = record {
  record_id = r.id;
  ts = ts;
  op = AuditOp.archive;
  actor = author;
}

-- `archiveScope`
unfoldable pub archive_scope : Kind → Scope → String → AuthorAgent → String → Tx (List String)
unfolding archive_rows active_records_by_scope
archive_scope kind scope ref author ts s =
    let rows = active_records_by_scope s kind scope ref in
    ok (
      map (λ r. r.id) rows,
      record {
        rows = archive_rows (in_scope_of kind scope ref) ts s.rows;
        audit = s.audit ++ map (archive_audit author ts) rows;
      },
    )

-- `clearPendingReingest`
unfoldable pub clear_pending_reingest : Kind → List RecordRow → List RecordRow
clear_pending_reingest kind [] = []
clear_pending_reingest kind (r ∷ rows) =
    (if same_kind r.kind kind then record r { pending_reingest = false } else r)
    ∷ clear_pending_reingest kind rows
