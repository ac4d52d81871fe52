-- ===== src/Knowledge/Calls/Ids.antt =====
-- The ids of the table `record` under the calls of src/knowledge/lifecycle.ts; that the table takes no id
-- twice is the primary key of src/knowledge/sidecar.ts.
use saivage.Base.{
  String, ◌≡◌, refl, sym, ap, ◌∙◌, subst, Bool, false, ◌||◌, List, [], ◌∷◌, ◌++◌, arith, any, map,
  filter, elem, Distinct, eq_iff, ◌==◌,
}
use saivage.Knowledge.Permissions.{Kind}
use saivage.Knowledge.Records.{RecordRow, Sidecar}
use saivage.Knowledge.Sidecar.{after, update_where, archive_rows, clear_pending_reingest}
use saivage.Knowledge.Sidecar.Rows.{KeepsId}
use saivage.Knowledge.Lifecycle.{Env, reingest}
use saivage.Knowledge.Lifecycle.Effects.{
  insert_new-Inserted, archive_one-Archived, delete_one-Deleted, update_one-Updated,
  supersede_one-Superseded, archive_scope-ScopeArchived, skills_archived, successor,
}
use saivage.Knowledge.Calls.{KnowledgeCall, step, run}
use saivage.Knowledge.Calls.Kept.{Kept, step-Kept}

abbrev pub row_ids : List RecordRow → List String
row_ids = map (λ r. r.id)

row_ids-update_where :
    (f : RecordRow → RecordRow)
    → KeepsId f
    → (id : String) (rows : List RecordRow) → row_ids (update_where id f rows) ≡ row_ids rows
unfolding update_where
row_ids-update_where f k id [] = refl
row_ids-update_where f k id (r ∷ rows) = ground (arith, k r, row_ids-update_where f k id rows)

row_ids-archive_rows :
    (p : RecordRow → Bool) (ts : String) (rows : List RecordRow)
    → row_ids (archive_rows p ts rows) ≡ row_ids rows
unfolding archive_rows
row_ids-archive_rows p ts [] = refl
row_ids-archive_rows p ts (r ∷ rows) = ground (arith, row_ids-archive_rows p ts rows)

row_ids-clear_pending :
    (kind : Kind) (rows : List RecordRow)
    → row_ids (clear_pending_reingest kind rows) ≡ row_ids rows
unfolding clear_pending_reingest
row_ids-clear_pending kind [] = refl
row_ids-clear_pending kind (r ∷ rows) = ground (arith, row_ids-clear_pending kind rows)

elem-row_ids-append :
    (id : String) (rows : List RecordRow) (row : RecordRow)
    → elem id (row_ids (rows ++ row ∷ [])) ≡ (elem id (row_ids rows) || row.id == id)
elem-row_ids-append id [] row = ground arith
elem-row_ids-append id (r ∷ rows) row = ground (arith, elem-row_ids-append id rows row)

Distinct-append :
    (rows : List RecordRow) (row : RecordRow)
    → any (λ r. r.id == row.id) rows ≡ false
    → Distinct (row_ids rows)
    → Distinct (row_ids (rows ++ row ∷ []))
Distinct-append [] row new d = ground arith
Distinct-append (r ∷ rows) row new (fresh, d) = ground (
  arith,
  Distinct-append rows row,
  elem-row_ids-append r.id rows row,
  eq_iff r.id row.id,
  eq_iff row.id r.id,
)

elem-row_ids-filter :
    (p : RecordRow → Bool) (id : String) (rows : List RecordRow)
    → elem id (row_ids rows) ≡ false
    → elem id (row_ids (filter p rows)) ≡ false
elem-row_ids-filter p id [] h = refl
elem-row_ids-filter p id (r ∷ rows) h = ground (arith, elem-row_ids-filter p id rows)

Distinct-filter :
    (p : RecordRow → Bool) (rows : List RecordRow)
    → Distinct (row_ids rows)
    → Distinct (row_ids (filter p rows))
Distinct-filter p [] d = tt
Distinct-filter p (r ∷ rows) (fresh, d) =
    ground (arith, Distinct-filter p rows, elem-row_ids-filter p r.id rows)

abbrev KeepsDistinct : Sidecar → Sidecar → Type 0
KeepsDistinct s t = Distinct (row_ids s.rows) → Distinct (row_ids t.rows)

same_ids : (s t : Sidecar) → row_ids t.rows ≡ row_ids s.rows → KeepsDistinct s t
same_ids s t e d = subst Distinct (sym e) d

row_ids-reingest :
    (env : Env) (kind : Kind) (t : Sidecar)
    → row_ids (after t (reingest env kind t)).rows ≡ row_ids t.rows
unfolding reingest
row_ids-reingest env kind t = ground (arith, row_ids-clear_pending kind t.rows)

KeepsDistinct-Kept : Kept (λ id. Unit) KeepsDistinct
KeepsDistinct-Kept = record {
  nothing = λ s d. d;
  indexed = λ env kind s t k d. subst Distinct (sym (row_ids-reingest env kind t)) (k d);
  inserted = λ env kind collision input key json author s t a h d.
      let e = insert_new-Inserted kind collision _ _ s t h in
      subst Distinct (sym (ap row_ids e.rows)) (Distinct-append s.rows _ e.id_free d);
  archived = λ env kind id author named s t a h.
      let e = archive_one-Archived env kind id author s t h in
      same_ids s t (ap row_ids e.rows ∙ row_ids-update_where _ (λ r. refl) e.old.row.id s.rows);
  deleted = λ env kind id author s t a h d.
      let e = delete_one-Deleted env kind id author s t h in
      subst Distinct (sym (ap row_ids e.rows)) (Distinct-filter _ s.rows d);
  updated = λ env kind input details author s t a h.
      let e = update_one-Updated env kind input details author s t h in
      same_ids s t (ap row_ids e.rows ∙ row_ids-update_where _ (λ r. refl) e.old.row.id s.rows);
  superseded = λ env kind old_id input key details author s t a h d.
      let e = supersede_one-Superseded env kind old_id input key details author s t h in
      let row = successor env kind old_id input key details author s t in
      subst Distinct
        (sym (ap row_ids e.rows ∙ row_ids-update_where _ (λ r. refl) old_id (s.rows ++ row ∷ [])))
        (Distinct-append s.rows row e.id_free d);
  scope_archived = λ env scope ref s t r h.
      let e = archive_scope-ScopeArchived env scope ref s t r h in
      same_ids s t (
        ap row_ids e.rows
        ∙ row_ids-archive_rows _ env.now (skills_archived env scope ref s t)
        ∙ row_ids-archive_rows _ env.now s.rows);
}

-- Whatever the calls, and whatever ids `randomUUID` makes: if no two records had one id before, no two
-- have after.
pub run-Distinct :
    (calls : List (Env × KnowledgeCall)) (s : Sidecar)
    → Distinct (row_ids s.rows)
    → Distinct (row_ids (run calls s).rows)
unfolding run
run-Distinct [] s d = d
run-Distinct ((env, c) ∷ calls) s d =
    run-Distinct calls (step env c s)
      (step-Kept (λ id. Unit) KeepsDistinct KeepsDistinct-Kept env c s (λ id e. tt) d)
