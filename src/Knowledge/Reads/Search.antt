-- ===== src/Knowledge/Reads/Search.antt =====
-- The search of src/knowledge/lifecycle.ts: `ragSearch`, `searchSkills` and `searchMemories`. The index
-- answers with hits or not at all.
use saivage.Base.{
  ℕ, zero, suc, String, Bool, true, false, ◌&&◌, Option, none, some, List, [], ◌∷◌, ◌++◌, map, elem,
  min, max, ltb, if◌then◌else◌, ◌==◌,
}
use saivage.Knowledge.Permissions.{Kind, Scope, project, stage, session}
use saivage.Knowledge.Records.{RecordRow, Sidecar, is_active, same_kind}
use saivage.Knowledge.Sidecar.{get_record, active_records, active_records_by_scope}

-- a hit of the index: the record that its path names, if it names one, a score, and the text
pub record Hit : Type 0 where
  pub record_id : Option String
  pub score : ℕ
  pub text : String

pub record Best : Type 0 where
  pub record_id : String
  pub score : ℕ
  pub snippet : String

-- `SearchKnowledgeCtx`
pub record SearchContext : Type 0 where
  pub stage_id : Option String
  pub channel_id : Option String

abbrev ids_of : List RecordRow → List String
ids_of = map (λ r. r.id)

abbrev pub ids_in : Sidecar → Kind → Scope → Option String → List String
ids_in s kind scope none = []
ids_in s kind scope (some ref) = ids_of (active_records_by_scope s kind scope ref)

-- `visibleScopeIds`
unfoldable pub visible_scope_ids : Sidecar → Kind → SearchContext → List String
unfolding active_records active_records_by_scope
visible_scope_ids s kind ctx =
    ids_of (active_records s kind project)
    ++ (ids_in s kind stage ctx.stage_id ++ ids_in s kind session ctx.channel_id)

-- `if (!prior || h.score > prior.score) best.set(…)`, in the order of first insertion
unfoldable pub keep_best : Best → List Best → List Best
keep_best b [] = b ∷ []
keep_best b (c ∷ cs) =
    if c.record_id == b.record_id
    then (if ltb c.score b.score then b ∷ cs else c ∷ cs)
    else c ∷ keep_best b cs

abbrev add_hit : Hit → List Best → List Best
add_hit h best = elim h.record_id [
  | none ↦ best
  | some id ↦ keep_best (record { record_id = id; score = h.score; snippet = h.text }) best
]

unfoldable pub best_hits : List Best → List Hit → List Best
unfolding keep_best
best_hits best [] = best
best_hits best (h ∷ hits) = best_hits (add_hit h best) hits

-- the stable sort by falling score
insert_by_score : Best → List Best → List Best
insert_by_score b [] = b ∷ []
insert_by_score b (c ∷ cs) = if ltb b.score c.score then c ∷ insert_by_score b cs else b ∷ c ∷ cs

unfoldable pub by_score : List Best → List Best
unfolding insert_by_score
by_score [] = []
by_score (b ∷ bs) = insert_by_score b (by_score bs)

-- the row of a hit, if it is of the kind and active
abbrev pub live_row : Sidecar → Kind → Best → Option RecordRow
live_row s kind b = elim (get_record s b.record_id) [
  | none ↦ none
  | some r ↦ if same_kind r.kind kind && is_active r.status then some r else none
]

-- the loop over the ranked hits, with how many are still wanted
unfoldable pub take_hits : Sidecar → Kind → List String → ℕ → List Best → List (RecordRow × ℕ)
unfolding get_record
take_hits s kind visible zero bs = []
take_hits s kind visible (suc n) [] = []
take_hits s kind visible (suc n) (b ∷ bs) =
    let skipped = take_hits s kind visible (suc n) bs in
    elim (elem b.record_id visible) [
      | false ↦ skipped
      | true ↦ elim (live_row s kind b) [
        | none ↦ skipped
        | some r ↦ (r, b.score) ∷ take_hits s kind visible n bs
      ]
    ]

-- `clampTopK` on a whole number
abbrev pub clamp_top_k : Option ℕ → ℕ
clamp_top_k none = 8
clamp_top_k (some n) = max 1 (min 50 n)

abbrev pub is_nil : List String → Bool
is_nil [] = true
is_nil (x ∷ xs) = false

-- `searchSkills`, `searchMemories`: the rows that are shown, with their scores; `none` where the index
-- does not answer
unfoldable pub search_records :
    Sidecar → Kind → Option ℕ → SearchContext → Option (List Hit) → Option (List (RecordRow × ℕ))
unfolding visible_scope_ids best_hits by_score take_hits
search_records s kind top_k ctx hits =
    let visible = visible_scope_ids s kind ctx in
    if is_nil visible then some [] else elim hits [
      | none ↦ none
      | some hs ↦ some (take_hits s kind visible (clamp_top_k top_k) (by_score (best_hits [] hs)))
    ]
