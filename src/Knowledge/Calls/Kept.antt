-- ===== src/Knowledge/Calls/Kept.antt =====
-- From what every transaction keeps to what every call keeps.
use saivage.Base.{String, ◌≡◌, refl, Option, none, some}
use saivage.Knowledge.Permissions.{Kind, skill, memory, Scope, stage, session}
use saivage.Knowledge.Records.{AuditOp, AuthorAgent, Details, KnowledgeRecord, Sidecar}
use saivage.Knowledge.Sidecar.{
  StoreError, name_collision, topic_collision, Outcome, ok, failed, Tx, after,
}
use saivage.Knowledge.Lifecycle.{
  Env, NewRecord, Changes, new_json, new_row, build_audit, reingest, insert_new, archive_one,
  delete_one, update_one, supersede_one,
}
use saivage.Knowledge.Lifecycle.Skills.{skill_details, changed_skill}
use saivage.Knowledge.Lifecycle.Memories.{topic_key, memory_details, changed_memory}
use saivage.Knowledge.Lifecycle.Scopes.{archive_scope_for_project}
use saivage.Knowledge.Lifecycle.Scopes
use saivage.Knowledge.Calls.{KnowledgeCall, step, run}
use saivage.Knowledge.Calls
use saivage.Knowledge.Calls.Rules.{
  Respects, create_skill-Respects, update_skill-Respects, archive_skill-Respects,
  delete_skill-Respects, supersede_skill-Respects, create_memory-Respects, update_memory-Respects,
  archive_memory-Respects, delete_memory-Respects, supersede_memory-Respects,
}

-- The id that a call archives by name.
abbrev pub archived_id : KnowledgeCall → Option String
archived_id (Calls.archive_skill id reason author) = some id
archived_id (Calls.archive_memory id reason author) = some id
archived_id c = none

-- What each transaction, and the indexing after it, has to keep; the archival of a record by its id,
-- where `Named` holds of the id.
pub record Kept (Named : String → Type 0) (Rel : Sidecar → Sidecar → Type 0) : Type 0 where
  pub nothing : (s : Sidecar) → Rel s s
  pub indexed :
      (env : Env) (kind : Kind) (s t : Sidecar) → Rel s t → Rel s (after t (reingest env kind t))
  pub inserted :
      (env : Env) (kind : Kind) (collision : StoreError) (input : NewRecord) (key : String)
      (json : KnowledgeRecord) (author : AuthorAgent)
      → Respects Rel (
          insert_new kind collision
            (new_row env kind input key none json)
            (build_audit env env.new_id AuditOp.create author))
  pub archived :
      (env : Env) (kind : Kind) (id : String) (author : AuthorAgent)
      → Named id
      → Respects Rel (archive_one env kind id author)
  pub deleted :
      (env : Env) (kind : Kind) (id : String) (author : AuthorAgent)
      → Respects Rel (delete_one env kind id author)
  pub updated :
      (env : Env) (kind : Kind) (input : Changes) (details : Details → Details)
      (author : AuthorAgent)
      → Respects Rel (update_one env kind input details author)
  pub superseded :
      (env : Env) (kind : Kind) (old_id : String) (input : NewRecord) (key : String)
      (details : Details) (author : AuthorAgent)
      → Respects Rel (supersede_one env kind old_id input key details author)
  pub scope_archived :
      (env : Env) (scope : Scope) (ref : String)
      → Respects Rel (archive_scope_for_project env scope ref)

-- What holds of a call that returns, and of none, holds after any call.
module _ (Rel : Sidecar → Sidecar → Type 0) (nothing : (s : Sidecar) → Rel s s) where
  after_outcome :
      {A : Type 0} (s : Sidecar) (o : Outcome (A × Sidecar))
      → ((s' : Sidecar) (a : A) → o ≡ ok (a, s') → Rel s s')
      → Rel s (after s o)
  after_outcome s (ok (a, s')) h = h s' a refl
  after_outcome s (failed e) h = nothing s

  pub after-Respects :
      {A : Type 0} (m : Tx A) (s : Sidecar) → Respects Rel m → Rel s (after s (m s))
  after-Respects m s r = after_outcome s (m s) (λ s' a e. r s s' a e)

module _ (Named : String → Type 0) (Rel : Sidecar → Sidecar → Type 0) (k : Kept Named Rel) where
  -- What every transaction keeps, every call keeps.
  pub step-Kept :
      (env : Env) (c : KnowledgeCall) (s : Sidecar)
      → ((id : String) → archived_id c ≡ some id → Named id)
      → Rel s (step env c s)
  unfolding step Scopes.archive_stage Scopes.archive_session
  step-Kept env (Calls.create_skill input author) s named = after-Respects Rel k.nothing _ s (
      create_skill-Respects Rel k.indexed env input author (
        k.inserted env skill name_collision input.common input.name
          (new_json env author input.common none (skill_details input)) author))
  step-Kept env (Calls.update_skill input author) s named = after-Respects Rel k.nothing _ s (
      update_skill-Respects Rel k.indexed env input author
        (k.updated env skill input.common (changed_skill input) author))
  step-Kept env (Calls.supersede_skill input author) s named = after-Respects Rel k.nothing _ s (
      supersede_skill-Respects Rel k.indexed env input author (
        k.superseded env skill input.old_id input.new_record.common input.new_record.name
          (skill_details input.new_record) author))
  step-Kept env (Calls.archive_skill id reason author) s named = after-Respects Rel k.nothing _ s (
      archive_skill-Respects Rel k.indexed env id reason author
        (k.archived env skill id author (named id refl)))
  step-Kept env (Calls.delete_skill id reason author) s named =
      after-Respects Rel k.nothing _ s
        (delete_skill-Respects Rel k.indexed env id reason author (k.deleted env skill id author))
  step-Kept env (Calls.create_memory input author) s named = after-Respects Rel k.nothing _ s (
      create_memory-Respects Rel k.indexed env input author (
        k.inserted env memory topic_collision input.common (topic_key input.topic)
          (new_json env author input.common none (memory_details input)) author))
  step-Kept env (Calls.update_memory input author) s named = after-Respects Rel k.nothing _ s (
      update_memory-Respects Rel k.indexed env input author
        (k.updated env memory input.common (changed_memory input) author))
  step-Kept env (Calls.supersede_memory input author) s named = after-Respects Rel k.nothing _ s (
      supersede_memory-Respects Rel k.indexed env input author (
        k.superseded env memory input.old_id input.new_record.common
          (topic_key input.new_record.topic) (memory_details input.new_record) author))
  step-Kept env (Calls.archive_memory id reason author) s named = after-Respects Rel k.nothing _ s (
      archive_memory-Respects Rel k.indexed env id reason author
        (k.archived env memory id author (named id refl)))
  step-Kept env (Calls.delete_memory id reason author) s named =
      after-Respects Rel k.nothing _ s
        (delete_memory-Respects Rel k.indexed env id reason author (k.deleted env memory id author))
  step-Kept env (Calls.archive_stage id) s named =
      after-Respects Rel k.nothing _ s (k.scope_archived env stage id)
  step-Kept env (Calls.archive_session id) s named =
      after-Respects Rel k.nothing _ s (k.scope_archived env session id)
