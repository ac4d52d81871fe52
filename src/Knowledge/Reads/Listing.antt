-- ===== src/Knowledge/Reads/Listing.antt =====
-- `listSkills` of src/knowledge/lifecycle.ts and `markSuperseded` of src/knowledge/sidecar-queries.ts.
use saivage.Base.{
  String, ◌≡◌, refl, subst, Bool, true, false, not, is_blank, none, some, List, [], ◌∷◌, ◌++◌,
  arith, inl, inr, Bool-cases, any, map, filter, eq_refl, ◌==◌,
}
use saivage.Knowledge.Permissions.{skill}
use saivage.Knowledge.Records.{active, AuthorAgent, KnowledgeRecord, RecordRow, Sidecar, same_kind}
use saivage.Knowledge.Sidecar.{no_runtime_lock, empty_reason, ok, after, as_superseded}
use saivage.Knowledge.Sidecar.Rows.{
  find_row, find_row-update_where, find_row-append, find_row-clear_pending,
}
use saivage.Knowledge.Lifecycle.{Env, require_runtime_lock, assert_reason, reingest, supersede_one}
use saivage.Knowledge.Lifecycle.Skills.{SupersedeSkillInput, skill_details, supersede_skill}
use saivage.Knowledge.Lifecycle.Effects.{supersede_one-Superseded, successor}
use saivage.Knowledge.Calls.Rules.{checked, skill_checked, committed}
use saivage.Knowledge.Reads.{ListSkillsFilter, passes_skills, list_skills}

-- no filter is given
abbrev pub every_skill : ListSkillsFilter
every_skill = record {
  scope = none;
  target_agent = none;
  include_archived = false;
  include_superseded = false;
}

-- a record of the id is among those shown
abbrev pub shows : String → List KnowledgeRecord → Bool
shows id = any (λ k. k.id == id)

shows_row :
    (f : ListSkillsFilter) (j : String) (rows : List RecordRow) {r : RecordRow}
    → find_row j rows ≡ some r
    → same_kind r.kind skill ≡ true
    → passes_skills f r.json ≡ true
    → shows r.json.id
        (filter (passes_skills f) (map (λ x. x.json) (filter (λ x. same_kind x.kind skill) rows)))
      ≡ true
shows_row f j [] found k p = cc
shows_row f j (x ∷ rows) {r} found k p =
    let rest = shows_row f j rows {r = r} in
    elim (Bool-cases (same_kind x.kind skill)) [
      | inl a ↦ elim (Bool-cases (passes_skills f x.json)) [
        | inl b ↦ rw (a, b) (ground (arith, rest, eq_refl r.json.id))
        | inr b ↦ rw (a, b) (ground (arith, rest))
      ]
      | inr a ↦ rw a (ground (arith, rest))
    ]

-- A supersession that returns has committed its transaction and then indexed.
supersede_skill_commits :
    (env : Env) (input : SupersedeSkillInput) (author : AuthorAgent) (s s' : Sidecar)
    (new_id : String)
    → supersede_skill env input author s ≡ ok (new_id, s')
    → (u : Sidecar) × (supersede_one env skill input.old_id input.new_record.common
          input.new_record.name
          (skill_details input.new_record)
          author
          s
        ≡ ok (tt, u))
      × (after u (reingest env skill u) ≡ s')
unfolding supersede_skill require_runtime_lock assert_reason
supersede_skill_commits env input author s s' new_id h =
    let h1 = checked env.lock_held no_runtime_lock _ s s' new_id h in
    let h2 = checked (not (is_blank input.reason)) empty_reason _ s s' new_id h1 in
    let h3 = skill_checked env input.reason input.new_record _ s s' new_id h2 in
    committed
      (supersede_one env skill input.old_id input.new_record.common input.new_record.name
        (skill_details input.new_record) author)
      env skill s s' new_id env.new_id h3

-- The row of the superseded skill afterwards: its record is as it was.
superseded_row :
    (env : Env) (input : SupersedeSkillInput) (author : AuthorAgent) (s s' : Sidecar)
    (new_id : String) {r : RecordRow}
    → find_row input.old_id s.rows ≡ some r
    → supersede_skill env input author s ≡ ok (new_id, s')
    → (r' : RecordRow) × (find_row input.old_id s'.rows ≡ some r')
      × (same_kind r'.kind skill ≡ true)
      × (r'.json ≡ r.json)
unfolding reingest
superseded_row env input author s s' new_id {r} found h =
    let (u, e, same) = supersede_skill_commits env input author s s' new_id h in
    let details = skill_details input.new_record in
    let common = input.new_record.common in
    let name = input.new_record.name in
    let sup = supersede_one-Superseded env skill input.old_id common name details author s u e in
    let row = successor env skill input.old_id common name details author s u in
    let f = as_superseded env.new_id env.now in
    let written =
      find_row-update_where f (λ r. refl) input.old_id input.old_id (s.rows ++ row ∷ []) in
    let appended = find_row-append input.old_id s.rows (row ∷ []) in
    let in_u : find_row input.old_id u.rows ≡ some (f r) =
      ground (arith, sup.rows, written, appended, eq_refl input.old_id) in
    let kind_ok : same_kind r.kind skill ≡ true = ground (arith, sup.old.found, sup.old.kind_ok) in
    elim (Bool-cases env.index_ok) [
      | inl taken ↦ (
        record (f r) { pending_reingest = false },
        ground (arith, find_row-clear_pending skill input.old_id u.rows),
        kind_ok,
        refl,
      )
      | inr refused ↦ (f r, ground arith, kind_ok, refl)
    ]

-- After a supersession, `listSkills` without a filter still shows the superseded skill, if its record was
-- active before.
pub list_skills-supersede_skill :
    (env : Env) (input : SupersedeSkillInput) (author : AuthorAgent) (s s' : Sidecar)
    (new_id : String) (r : RecordRow)
    → find_row input.old_id s.rows ≡ some r
    → r.json.status ≡ active
    → supersede_skill env input author s ≡ ok (new_id, s')
    → shows r.json.id (list_skills s' every_skill) ≡ true
unfolding list_skills
list_skills-supersede_skill env input author s s' new_id r found was h =
    let (r', f, k, same) = superseded_row env input author s s' new_id found h in
    let shown = shows_row every_skill input.old_id s'.rows f k (ground (arith, same, was)) in
    subst (λ j. shows j.id (list_skills s' every_skill) ≡ true) same shown
