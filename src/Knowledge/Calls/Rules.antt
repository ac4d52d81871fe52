-- ===== src/Knowledge/Calls/Rules.antt =====
-- From what a transaction does to what its call does: a call that returns has passed its checks,
-- committed its transaction and indexed.
use saivage.Base.{
  String, ◌≡◌, ◌⊎◌, refl, subst, Bool, true, false, not, is_blank, Option, none, some, arith, inl,
  inr,
}
use saivage.Knowledge.Permissions.{Kind, skill, memory}
use saivage.Knowledge.Records.{AuditOp, AuthorAgent, record_ok, Sidecar}
use saivage.Knowledge.Sidecar.{
  StoreError, no_runtime_lock, empty_reason, invalid_record, name_collision, topic_collision,
  Outcome, ok, failed, Tx, pure, check, ◌>>◌, after,
}
use saivage.Knowledge.Lifecycle.{
  Env, require_runtime_lock, assert_reason, assert_scope_ref, assert_no_secrets,
  assert_no_blocked_path, new_json, new_row, build_audit, parse_record, reingest, insert_new,
  archive_one, delete_one, update_one, supersede_one,
}
use saivage.Knowledge.Lifecycle.Skills.{
  CreateSkillInput, UpdateSkillInput, SupersedeSkillInput, check_body, check_skill,
  check_description, skill_details, changed_skill,
}
use saivage.Knowledge.Lifecycle.Skills
use saivage.Knowledge.Lifecycle.Memories.{
  CreateMemoryInput, UpdateMemoryInput, SupersedeMemoryInput, check_memory, topic_key,
  memory_details, changed_memory,
}
use saivage.Knowledge.Lifecycle.Memories

-- What a successful run of it does to the state.
abbrev pub Respects : (Sidecar → Sidecar → Type 0) → {A : Type 0} → Tx A → Type 0
Respects Rel {A} m = (s s' : Sidecar) (a : A) → m s ≡ ok (a, s') → Rel s s'

pub Outcome-cases :
    (o : Outcome (Unit {0} × Sidecar))
    → ((e : StoreError) × (o ≡ failed e)) ⊎ ((s : Sidecar) × (o ≡ ok (tt, s)))
Outcome-cases (ok (u, s)) = inr (s, refl)
Outcome-cases (failed e) = inl (e, refl)

pub checked :
    (c : Bool) (e : StoreError) (n : Tx String) (s s' : Sidecar) (a : String)
    → (check c e >> n) s ≡ ok (a, s')
    → n s ≡ ok (a, s')
checked true e n s s' a h = h
checked false e n s s' a h = cc

pub body_checked :
    (env : Env) (body : Option String) (n : Tx String) (s s' : Sidecar) (a : String)
    → (check_body env body >> n) s ≡ ok (a, s')
    → n s ≡ ok (a, s')
unfolding assert_no_secrets assert_no_blocked_path
body_checked env none n s s' a h = h
body_checked env (some body) n s s' a h = ground arith

pub skill_checked :
    (env : Env) (reason : String) (input : CreateSkillInput) (n : Tx String) (s s' : Sidecar)
    (a : String)
    → (check_skill env reason input >> n) s ≡ ok (a, s')
    → n s ≡ ok (a, s')
unfolding assert_scope_ref assert_no_secrets assert_no_blocked_path
skill_checked env reason input n s s' a h = ground arith

description_checked :
    (env : Env) (description : Option String) (n : Tx String) (s s' : Sidecar) (a : String)
    → (check_description env description >> n) s ≡ ok (a, s')
    → n s ≡ ok (a, s')
unfolding assert_no_secrets
description_checked env none n s s' a h = h
description_checked env (some description) n s s' a h = ground arith

pub memory_checked :
    (env : Env) (reason : String) (input : CreateMemoryInput) (n : Tx String) (s s' : Sidecar)
    (a : String)
    → (check_memory env reason input >> n) s ≡ ok (a, s')
    → n s ≡ ok (a, s')
unfolding assert_scope_ref assert_no_secrets assert_no_blocked_path
memory_checked env reason input n s s' a h = ground arith

-- a transaction, the indexing, and the result
pub committed :
    (t : Tx (Unit {0})) (env : Env) (kind : Kind) (s s' : Sidecar) (a b : String)
    → (t >> (reingest env kind >> pure b)) s ≡ ok (a, s')
    → (u : Sidecar) × (t s ≡ ok (tt, u)) × (after u (reingest env kind u) ≡ s')
unfolding reingest
committed t env kind s s' a b h = elim (Outcome-cases (t s)) [
  | inl (e, f) ↦ absurd (ground arith)
  | inr (u, e) ↦ (u, e, ground arith)
]

module _ (Rel : Sidecar → Sidecar → Type 0)
    (indexed : (env : Env) (kind : Kind) (s t : Sidecar)
      → Rel s t
      → Rel s (after t (reingest env kind t))) where
  Rel-indexed :
      (t : Tx (Unit {0})) (env : Env) (kind : Kind) (s s' : Sidecar) (a b : String)
      → Respects Rel t
      → (t >> (reingest env kind >> pure b)) s ≡ ok (a, s')
      → Rel s s'
  Rel-indexed t env kind s s' a b r h =
      let (u, e, same) = committed t env kind s s' a b h in
      subst (Rel s) same (indexed env kind s u (r s u tt e))

  pub create_skill-Respects :
      (env : Env) (input : CreateSkillInput) (author : AuthorAgent)
      → Respects Rel (
          insert_new skill name_collision
            (new_row env skill input.common input.name none
              (new_json env author input.common none (skill_details input)))
            (build_audit env env.new_id AuditOp.create author))
      → Respects Rel (Skills.create_skill env input author)
  unfolding Skills.create_skill require_runtime_lock assert_reason parse_record
  create_skill-Respects env input author r s s' a h =
      let h1 = checked env.lock_held no_runtime_lock _ s s' a h in
      let h2 = checked (not (is_blank input.common.reason)) empty_reason _ s s' a h1 in
      let h3 = skill_checked env input.common.reason input _ s s' a h2 in
      let h4 =
        checked
          (record_ok env.formats (new_json env author input.common none (skill_details input)))
          invalid_record _ s s' a h3 in
      Rel-indexed _ env skill s s' a env.new_id r h4

  pub update_skill-Respects :
      (env : Env) (input : UpdateSkillInput) (author : AuthorAgent)
      → Respects Rel (update_one env skill input.common (changed_skill input) author)
      → Respects Rel (Skills.update_skill env input author)
  unfolding Skills.update_skill require_runtime_lock assert_reason
  update_skill-Respects env input author r s s' a h =
      let h1 = checked env.lock_held no_runtime_lock _ s s' a h in
      let h2 = checked (not (is_blank input.common.reason)) empty_reason _ s s' a h1 in
      let h3 = body_checked env input.common.body _ s s' a h2 in
      let h4 = description_checked env input.description _ s s' a h3 in
      Rel-indexed _ env skill s s' a input.common.id r h4

  pub archive_skill-Respects :
      (env : Env) (id reason : String) (author : AuthorAgent)
      → Respects Rel (archive_one env skill id author)
      → Respects Rel (Skills.archive_skill env id reason author)
  unfolding Skills.archive_skill require_runtime_lock assert_reason
  archive_skill-Respects env id reason author r s s' a h =
      let h1 = checked env.lock_held no_runtime_lock _ s s' a h in
      let h2 = checked (not (is_blank reason)) empty_reason _ s s' a h1 in
      Rel-indexed _ env skill s s' a id r h2

  pub delete_skill-Respects :
      (env : Env) (id reason : String) (author : AuthorAgent)
      → Respects Rel (delete_one env skill id author)
      → Respects Rel (Skills.delete_skill env id reason author)
  unfolding Skills.delete_skill require_runtime_lock assert_reason
  delete_skill-Respects env id reason author r s s' a h =
      let h1 = checked env.lock_held no_runtime_lock _ s s' a h in
      let h2 = checked (not (is_blank reason)) empty_reason _ s s' a h1 in
      Rel-indexed _ env skill s s' a id r h2

  pub supersede_skill-Respects :
      (env : Env) (input : SupersedeSkillInput) (author : AuthorAgent)
      → Respects Rel (
          supersede_one env skill input.old_id input.new_record.common input.new_record.name
            (skill_details input.new_record)
            author)
      → Respects Rel (Skills.supersede_skill env input author)
  unfolding Skills.supersede_skill require_runtime_lock assert_reason
  supersede_skill-Respects env input author r s s' a h =
      let h1 = checked env.lock_held no_runtime_lock _ s s' a h in
      let h2 = checked (not (is_blank input.reason)) empty_reason _ s s' a h1 in
      let h3 = skill_checked env input.reason input.new_record _ s s' a h2 in
      Rel-indexed _ env skill s s' a env.new_id r h3

  pub create_memory-Respects :
      (env : Env) (input : CreateMemoryInput) (author : AuthorAgent)
      → Respects Rel (
          insert_new memory topic_collision
            (new_row env memory input.common
              (topic_key input.topic)
              none
              (new_json env author input.common none (memory_details input)))
            (build_audit env env.new_id AuditOp.create author))
      → Respects Rel (Memories.create_memory env input author)
  unfolding Memories.create_memory require_runtime_lock assert_reason parse_record
  create_memory-Respects env input author r s s' a h =
      let h1 = checked env.lock_held no_runtime_lock _ s s' a h in
      let h2 = checked (not (is_blank input.common.reason)) empty_reason _ s s' a h1 in
      let h3 = memory_checked env input.common.reason input _ s s' a h2 in
      let h4 =
        checked
          (record_ok env.formats (new_json env author input.common none (memory_details input)))
          invalid_record _ s s' a h3 in
      Rel-indexed _ env memory s s' a env.new_id r h4

  pub update_memory-Respects :
      (env : Env) (input : UpdateMemoryInput) (author : AuthorAgent)
      → Respects Rel (update_one env memory input.common (changed_memory input) author)
      → Respects Rel (Memories.update_memory env input author)
  unfolding Memories.update_memory require_runtime_lock assert_reason
  update_memory-Respects env input author r s s' a h =
      let h1 = checked env.lock_held no_runtime_lock _ s s' a h in
      let h2 = checked (not (is_blank input.common.reason)) empty_reason _ s s' a h1 in
      let h3 = body_checked env input.common.body _ s s' a h2 in
      Rel-indexed _ env memory s s' a input.common.id r h3

  pub archive_memory-Respects :
      (env : Env) (id reason : String) (author : AuthorAgent)
      → Respects Rel (archive_one env memory id author)
      → Respects Rel (Memories.archive_memory env id reason author)
  unfolding Memories.archive_memory require_runtime_lock assert_reason
  archive_memory-Respects env id reason author r s s' a h =
      let h1 = checked env.lock_held no_runtime_lock _ s s' a h in
      let h2 = checked (not (is_blank reason)) empty_reason _ s s' a h1 in
      Rel-indexed _ env memory s s' a id r h2

  pub delete_memory-Respects :
      (env : Env) (id reason : String) (author : AuthorAgent)
      → Respects Rel (delete_one env memory id author)
      → Respects Rel (Memories.delete_memory env id reason author)
  unfolding Memories.delete_memory require_runtime_lock assert_reason
  delete_memory-Respects env id reason author r s s' a h =
      let h1 = checked env.lock_held no_runtime_lock _ s s' a h in
      let h2 = checked (not (is_blank reason)) empty_reason _ s s' a h1 in
      Rel-indexed _ env memory s s' a id r h2

  pub supersede_memory-Respects :
      (env : Env) (input : SupersedeMemoryInput) (author : AuthorAgent)
      → Respects Rel (
          supersede_one env memory input.old_id input.new_record.common
            (topic_key input.new_record.topic)
            (memory_details input.new_record)
            author)
      → Respects Rel (Memories.supersede_memory env input author)
  unfolding Memories.supersede_memory require_runtime_lock assert_reason
  supersede_memory-Respects env input author r s s' a h =
      let h1 = checked env.lock_held no_runtime_lock _ s s' a h in
      let h2 = checked (not (is_blank input.reason)) empty_reason _ s s' a h1 in
      let h3 = memory_checked env input.reason input.new_record _ s s' a h2 in
      Rel-indexed _ env memory s s' a env.new_id r h3
