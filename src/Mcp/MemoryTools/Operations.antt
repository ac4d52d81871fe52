-- ===== src/Mcp/MemoryTools/Operations.antt =====
-- What each operation behind the memory tools changes.
use saivage.Base.{String, ◌≡◌, refl, subst, true, some, [], ◌∷◌, ◌++◌, arith}
use saivage.Knowledge.Permissions.{Role, create, supersede, Kind, memory}
use saivage.Knowledge.Permissions.Access.{MayWrite}
use saivage.Knowledge.Records.{
  AuthorAgent, Details, of_memory, of_skill, RecordRow, Sidecar, same_kind,
}
use saivage.Knowledge.Sidecar.{Outcome, ok, failed, Tx, after, set_columns, as_superseded}
use saivage.Knowledge.Sidecar.Rows.{find_row, find_row-id, find_row-append}
use saivage.Knowledge.Lifecycle.{Env, reingest}
use saivage.Knowledge.Lifecycle.Memories.{
  CreateMemoryInput, UpdateMemoryInput, SupersedeMemoryInput, create_memory, update_memory,
  archive_memory, delete_memory, supersede_memory, topic_key, memory_details, changed_memory,
}
use saivage.Knowledge.Lifecycle.Effects.{
  insert_new-Inserted, archive_one-Archived, delete_one-Deleted, update_one-Updated,
  supersede_one-Superseded, successor, updated_row, archived_row,
}
use saivage.Knowledge.Calls.Rules.{
  Respects, create_memory-Respects, update_memory-Respects, archive_memory-Respects,
  delete_memory-Respects, supersede_memory-Respects,
}
use saivage.Mcp.MemoryTools.{ToolContext, reply, topic_of, topic_allowed, gate_role}
use saivage.Mcp.MemoryTools.Confined.{
  Within, Confines, Confines-same, Confines-trans, Confines-indexed, Confines-append,
  Confines-update, Confines-delete,
}
use saivage.Mcp.MemoryTools.Gates.{supersede-Within}

topic_of-changed_memory :
    (input : UpdateMemoryInput) (d : Details) → topic_of (changed_memory input d) ≡ topic_of d
topic_of-changed_memory input (of_memory topic keys body source_ref) = refl
topic_of-changed_memory input (of_skill name description triggers) = refl

-- the row that an update finds, and the row that it writes to
same_row :
    (old r : RecordRow) (x : Sidecar) {id : String}
    → old.id ≡ id
    → find_row id x.rows ≡ some old
    → find_row old.id x.rows ≡ some r
    → old ≡ r
same_row old r x e f g = ground arith

updated_row-Within :
    (role : Role) (ctx : ToolContext) (input : UpdateMemoryInput) (env : Env) (author : AuthorAgent)
    (x t : Sidecar) (old r : RecordRow)
    → old ≡ r
    → Within role ctx old
    → Within role ctx r
      × Within role ctx (
          set_columns (updated_row env memory input.common (changed_memory input) author x t old) r)
updated_row-Within role ctx input env author x t old r e w =
    let here = subst (Within role ctx) e w in
    let (k, may, on_topic) = here in
    let topic : topic_allowed role (topic_of (changed_memory input old.json.details)) ≡ true =
      ground (arith, topic_of-changed_memory input old.json.details) in
    (here, (k, may, topic))

module _ (role : Role) (ctx : ToolContext) (s : Sidecar) where
  -- what a call from here does when it returns
  abbrev From : Sidecar → Sidecar → Type 0
  From x t = x ≡ s → Confines role ctx x t

  From-indexed :
      (env : Env) (kind : Kind) (x t : Sidecar) → From x t → From x (after t (reingest env kind t))
  From-indexed env kind x t f e = Confines-indexed role ctx env kind x t (f e)

  outcome-Confines :
      (o : Outcome (String × Sidecar))
      → ((s' : Sidecar) (a : String) → o ≡ ok (a, s') → Confines role ctx s s')
      → Confines role ctx s (reply s o).1
  outcome-Confines (ok (a, s')) f = f s' a refl
  outcome-Confines (failed e) f = Confines-same role ctx s

  reply-Confines : (m : Tx String) → Respects From m → Confines role ctx s (reply s (m s)).1
  reply-Confines m r = outcome-Confines (m s) (λ s' a h. r s s' a h refl)

  pub create-Confines :
      (env : Env) (input : CreateMemoryInput) (author : AuthorAgent)
      → MayWrite role create memory input.common.scope input.common.scope_ref
          (record { stage_id = ctx.stage_id })
      → topic_allowed role (some input.topic) ≡ true
      → Confines role ctx s (reply s (create_memory env input author s)).1
  create-Confines env input author may topic = reply-Confines (create_memory env input author) (
      create_memory-Respects From From-indexed env input author (λ x t a h e.
        let made = insert_new-Inserted memory _ _ _ x t h in
        Confines-append role ctx _ x t (refl, may, topic) made.id_free made.rows))

  pub update-Confines :
      (env : Env) (input : UpdateMemoryInput) (author : AuthorAgent)
      → ((r : RecordRow) → find_row input.common.id s.rows ≡ some r → Within role ctx r)
      → Confines role ctx s (reply s (update_memory env input author s)).1
  update-Confines env input author w = reply-Confines (update_memory env input author) (
      update_memory-Respects From From-indexed env input author (λ x t a h e.
        let done = update_one-Updated env memory input.common (changed_memory input) author x t h in
        let old = done.old.row in
        let id_same = find_row-id input.common.id x.rows done.old.found in
        let old_within =
          w old (subst (λ y. find_row input.common.id y.rows ≡ some old) e done.old.found) in
        Confines-update role ctx old.id _ x t (λ r. refl) done.rows
          (λ r f.
            updated_row-Within role ctx input env author x t old r
              (same_row old r x id_same done.old.found f) old_within)))

  pub archive-Confines :
      (env : Env) (id reason : String) (author : AuthorAgent)
      → gate_role role supersede ≡ true
      → Confines role ctx s (reply s (archive_memory env id reason author s)).1
  archive-Confines env id reason author g = reply-Confines (archive_memory env id reason author) (
      archive_memory-Respects From From-indexed env id reason author (λ x t a h e.
        let done = archive_one-Archived env memory id author x t h in
        let old = done.old.row in
        let id_same = find_row-id id x.rows done.old.found in
        Confines-update role ctx old.id _ x t (λ r. refl) done.rows
          (λ r f.
            let same = same_row old r x id_same done.old.found f in
            let k : same_kind r.kind memory ≡ true =
              subst (λ y. same_kind y.kind memory ≡ true) same done.old.kind_ok in
            (
              supersede-Within role ctx r g k,
              supersede-Within role ctx (set_columns (archived_row env memory id author x t old) r)
                  g k,
            ))))

  pub delete-Confines :
      (env : Env) (id reason : String) (author : AuthorAgent)
      → gate_role role supersede ≡ true
      → Confines role ctx s (reply s (delete_memory env id reason author s)).1
  delete-Confines env id reason author g = reply-Confines (delete_memory env id reason author) (
      delete_memory-Respects From From-indexed env id reason author (λ x t a h e.
        let done = delete_one-Deleted env memory id author x t h in
        Confines-delete role ctx id x t done.rows (λ r f.
          let k : same_kind r.kind memory ≡ true =
            ground (arith, done.old.found, done.old.kind_ok) in
          supersede-Within role ctx r g k)))

  pub supersede-Confines :
      (env : Env) (input : SupersedeMemoryInput) (author : AuthorAgent)
      → gate_role role supersede ≡ true
      → Confines role ctx s (reply s (supersede_memory env input author s)).1
  supersede-Confines env input author g = reply-Confines (supersede_memory env input author) (
      supersede_memory-Respects From From-indexed env input author (λ x t a h e.
        let key = topic_key input.new_record.topic in
        let details = memory_details input.new_record in
        let common = input.new_record.common in
        let done =
          supersede_one-Superseded env memory input.old_id common key details author x t h in
        let row = successor env memory input.old_id common key details author x t in
        let mid : Sidecar = record { rows = x.rows ++ row ∷ []; audit = [] } in
        let added =
          Confines-append role ctx row x mid (supersede-Within role ctx row g refl) done.id_free
            refl in
        let marked =
          Confines-update role ctx input.old_id (as_superseded env.new_id env.now) mid t (λ r. refl)
            done.rows
            (λ r f.
              let k : same_kind r.kind memory ≡ true = ground (
                arith,
                done.old.found,
                done.old.kind_ok,
                find_row-append input.old_id x.rows (row ∷ []),
              ) in
              (
                supersede-Within role ctx r g k,
                supersede-Within role ctx (as_superseded env.new_id env.now r) g k,
              )) in
        Confines-trans role ctx x mid t added marked))
