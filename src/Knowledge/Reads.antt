-- ===== src/Knowledge/Reads.antt =====
-- Reading of src/knowledge/lifecycle.ts: the lists, `getMemory` and the chain of supersessions; `Search`
-- has the search. The texts that are shown go through `redactForRead` of src/knowledge/loader.ts, which is
-- left out.
pub mod Chain
pub mod Search
pub mod Visible
pub mod Listing
use saivage.Base.{
  ℕ, zero, suc, String, Bool, true, false, not, ◌&&◌, ◌||◌, Option, none, some, List, [], ◌∷◌, ◌++◌,
  map, any, filter, find?, elem, min, max, ltb, map_get, map_set, if◌then◌else◌, ◌==◌,
}
use saivage.Knowledge.Permissions.{Role, Kind, skill, memory, Scope, project, stage, session}
use saivage.Knowledge.Records.{
  Status, active, superseded, archived, expired, Topic, Details, of_skill, of_memory,
  KnowledgeRecord, RecordRow, Sidecar, is_active, same_kind, same_scope,
}
use saivage.Knowledge.Sidecar.{
  Outcome, ok, failed, StoreError, get_record, active_records, active_records_by_scope, in_scope,
}
use saivage.Knowledge.Lifecycle.Memories.{topic_key}

abbrev is_archived : Status → Bool
is_archived archived = true
is_archived status = false

abbrev is_superseded : Status → Bool
is_superseded superseded = true
is_superseded status = false

-- `ListSkillsFilter`; `target_agent` is whether an agent of the wanted role is among the given ones
pub record ListSkillsFilter : Type 0 where
  pub scope : Option Scope
  pub target_agent : Option (List Role → Bool)
  pub include_archived : Bool
  pub include_superseded : Bool

abbrev scope_passes : Option Scope → Scope → Bool
scope_passes none s = true
scope_passes (some wanted) s = same_scope s wanted

abbrev agent_passes : Option (List Role → Bool) → List Role → Bool
agent_passes none agents = true
agent_passes (some includes) [] = true
agent_passes (some includes) (a ∷ agents) = includes (a ∷ agents)

-- the test of `listSkills` on the record that a row holds
abbrev pub passes_skills : ListSkillsFilter → KnowledgeRecord → Bool
passes_skills f r =
    scope_passes f.scope r.scope
    && agent_passes f.target_agent r.target_agents
    && (not (is_archived r.status) || f.include_archived)
    && (not (is_superseded r.status) || f.include_superseded)

abbrev pub of_kind_rows : Kind → Sidecar → List RecordRow
of_kind_rows kind s = filter (λ r. same_kind r.kind kind) s.rows

-- `listSkills`, before the order by time: the records that it shows
unfoldable pub list_skills : Sidecar → ListSkillsFilter → List KnowledgeRecord
list_skills s f = filter (passes_skills f) (map (λ r. r.json) (of_kind_rows skill s))

-- `ListMemoriesFilter`; `is_recent` tells the times after the cut-off
pub record ListMemoriesFilter : Type 0 where
  pub scope : Option Scope
  pub topic_domain : Option String
  pub include_archived : Bool
  pub is_recent : Option (String → Bool)

abbrev domain_of : Details → String
domain_of (of_memory topic keys body source_ref) = topic.domain
domain_of (of_skill name description triggers) = ""

abbrev domain_passes : Option String → String → Bool
domain_passes none domain = true
domain_passes (some wanted) domain = wanted == "" || domain == wanted

abbrev age_passes : Option (String → Bool) → String → Bool
age_passes none time = true
age_passes (some is_recent) time = not (is_recent time)

abbrev pub passes_memories : ListMemoriesFilter → KnowledgeRecord → Bool
passes_memories f r =
    scope_passes f.scope r.scope
    && domain_passes f.topic_domain (domain_of r.details)
    && (not (is_archived r.status) || f.include_archived)
    && not (is_superseded r.status)
    && age_passes f.is_recent r.updated_at

-- `listMemories`, before the order by time
unfoldable pub list_memories : Sidecar → ListMemoriesFilter → List KnowledgeRecord
list_memories s f = filter (passes_memories f) (map (λ r. r.json) (of_kind_rows memory s))

-- a pointer that is there and not the empty text
abbrev pub successor_of : RecordRow → Option String
successor_of r = elim r.superseded_by [ none ↦ none | some id ↦ if id == "" then none else some id ]

-- `walkSupersedeChainRow` with fuel; `none` means that the fuel ran out
unfoldable pub walk_chain : Sidecar → ℕ → List String → RecordRow → Option RecordRow
unfolding get_record
walk_chain s zero seen cur = none
walk_chain s (suc fuel) seen cur = elim (successor_of cur) [
  | none ↦ some cur
  | some id ↦ elim (get_record s id) [
    | none ↦ some cur
    | some next ↦ elim (elem next.id seen) [
      | true ↦ some cur
      | false ↦ walk_chain s fuel (next.id ∷ seen) next
    ]
  ]
]

abbrev in_topic : Scope → String → RecordRow → Bool
in_topic scope key r = in_scope memory scope r && r.key == key

abbrev or_row : Option RecordRow → Option RecordRow → Option RecordRow
or_row none b = b
or_row (some a) b = some a

-- the first active memory of the topic: of a session, else of a stage, else of the project
unfoldable pub find_topic : Sidecar → Topic → Option RecordRow
unfolding topic_key
find_topic s topic = or_row (find? (in_topic session (topic_key topic)) s.rows) (
    or_row (find? (in_topic stage (topic_key topic)) s.rows)
      (find? (in_topic project (topic_key topic)) s.rows))

abbrev only_memory : Option RecordRow → Option RecordRow
only_memory none = none
only_memory (some r) = if same_kind r.kind memory then some r else none

-- the row that `getMemory` starts from: by id, if that is not the empty text, or else by topic
unfoldable pub start_row : Sidecar → Option String → Option Topic → Option RecordRow
unfolding find_topic get_record
start_row s id topic = elim id [
  | none ↦ elim topic [ none ↦ none | some t ↦ find_topic s t ]
  | some i ↦
      if i == ""
      then elim topic [ none ↦ none | some t ↦ find_topic s t ]
      else only_memory (get_record s i)
]

abbrev pub only_active : RecordRow → Option RecordRow
only_active r = if is_active r.status then some r else none

-- `getMemory`: the row whose record it returns. The outer option is that of the fuel.
unfoldable pub get_memory : Sidecar → ℕ → Option String → Option Topic → Option (Option RecordRow)
unfolding start_row walk_chain
get_memory s fuel id topic = elim (start_row s id topic) [
  | none ↦ some none
  | some row ↦ elim (walk_chain s fuel (row.id ∷ []) row) [
    | none ↦ none
    | some head ↦ some (only_active head)
  ]
]
