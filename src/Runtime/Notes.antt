-- ===== src/Runtime/Notes.antt =====
-- src/runtime/notes.ts: the notes of users, as files of a folder, and `NoteManager`. A file stands by its name
-- without the ending; one that the schema refuses is none. Texts for the planner are left out.
pub mod Calls
pub mod Hidden
pub mod Changes
pub mod Once
pub mod Lasts
pub mod Kept
use saivage.Base.{
  ℕ, suc, String, Bool, true, false, not, ◌&&◌, ◌||◌, ◌+◌, Option, none, some, List, [], ◌∷◌, ◌++◌,
  map, filter, elem, length, ltb, sort, if◌then◌else◌, ◌==◌, map_get, map_set, map_delete,
}

-- `UserNoteSchema`
pub record UserNote : Type 0 where
  pub id : String
  pub channel : String
  pub session_id : String
  pub content : String
  pub created_at : String
  pub permanent : Bool
  pub urgent : Bool
  pub acknowledged_at : Option String

pub record NoteManager : Type 0 where
  pub files : List (String × Option UserNote)
  pub delivered : List String

-- what the outside gives: the clock as a text and in milliseconds, `Date.getTime` of a text where it is a date,
-- the order of `localeCompare`, and whether the file system takes a write or a removal of a file
pub record NoteEnv : Type 0 where
  pub now : String
  pub now_ms : ℕ
  pub time_of : String → Option ℕ
  pub not_after : String → String → Bool
  pub writes : String → Bool
  pub removes : String → Bool

-- a text that is absent or empty is false
abbrev pub is_truthy : Option String → Bool
is_truthy none = false
is_truthy (some text) = not (text == "")

-- `isPlannerSelfNote`
unfoldable pub is_planner_self_note : UserNote → Bool
is_planner_self_note note = note.channel == "planner"

-- `readAllNotes`
unfoldable pub read_all_notes : List (String × Option UserNote) → List UserNote
unfolding is_planner_self_note
read_all_notes [] = []
read_all_notes ((name, none) ∷ files) = read_all_notes files
read_all_notes ((name, some note) ∷ files) =
    if is_planner_self_note note then read_all_notes files else note ∷ read_all_notes files

abbrev pub oldest_first : NoteEnv → List UserNote → List UserNote
oldest_first env notes = sort (λ a b. env.not_after a.created_at b.created_at) notes

-- `peekUnacknowledgedNotes`
unfoldable pub peek_unacknowledged_notes : NoteEnv → NoteManager → List UserNote
unfolding read_all_notes sort
peek_unacknowledged_notes env s =
    oldest_first env
      (filter (λ note. not (is_truthy note.acknowledged_at)) (read_all_notes s.files))

-- `pullDeliverables`
unfoldable pub deliverables : NoteEnv → NoteManager → List UserNote
unfolding read_all_notes sort
deliverables env s = oldest_first env (
    filter (λ note. note.permanent || not (is_truthy note.acknowledged_at))
      (filter (λ note. not (elem note.id s.delivered)) (read_all_notes s.files)))

abbrev pub note_ids : List UserNote → List String
note_ids = map (λ note. note.id)

unfoldable pub pull_deliverables : NoteEnv → NoteManager → List UserNote × NoteManager
unfolding deliverables
pull_deliverables env s =
    let candidates = deliverables env s in
    (candidates, record s { delivered = s.delivered ++ note_ids candidates })

-- `resetDelivered`
unfoldable pub reset_delivered : NoteManager → NoteManager
reset_delivered s = record s { delivered = [] }

-- `delivered.delete(id)`
abbrev pub forget : String → List String → List String
forget id ids = filter (λ other. not (other == id)) ids

-- `createUserNote`
unfoldable pub create_user_note : NoteEnv → UserNote → NoteManager → NoteManager
create_user_note env note s =
    if env.writes note.id then record s { files = map_set s.files note.id (some note) } else s

-- `NoteMutationResult`
pub record NoteMutation : Type 0 where
  pub note : UserNote
  pub deleted : Bool

abbrev pub acknowledged : NoteEnv → UserNote → UserNote
acknowledged env note =
    if is_truthy note.acknowledged_at then note else record note { acknowledged_at = some env.now }

abbrev pub acknowledge_found :
    NoteEnv → String → Option (Option UserNote) → NoteManager → Option NoteMutation × NoteManager
acknowledge_found env id none s = (none, s)
acknowledge_found env id (some none) s = (none, s)
acknowledge_found env id (some (some note)) s =
    let s' : NoteManager = record s { delivered = forget id s.delivered } in
    if note.permanent
    then (if env.writes id
        then (
          some (record { note = acknowledged env note; deleted = false }),
          record s' { files = map_set s'.files id (some (acknowledged env note)) },
        )
        else (none, s'))
    else (if env.removes id
        then (
          some (record { note = note; deleted = true }),
          record s' { files = map_delete s'.files id },
        )
        else (none, s'))

-- `acknowledgeNote`
unfoldable pub acknowledge_note : NoteEnv → String → NoteManager → Option NoteMutation × NoteManager
acknowledge_note env id s = acknowledge_found env id (map_get s.files id) s

abbrev pub delete_found :
    NoteEnv → String → Option (Option UserNote) → NoteManager → Bool × NoteManager
delete_found env id none s = (false, s)
delete_found env id (some file) s =
    if env.removes id
    then (true, record s { files = map_delete s.files id; delivered = forget id s.delivered })
    else (false, s)

-- `deleteNote`
unfoldable pub delete_note : NoteEnv → String → NoteManager → Bool × NoteManager
delete_note env id s = delete_found env id (map_get s.files id) s

abbrev pub count_if : Bool → ℕ → ℕ
count_if true n = suc n
count_if false n = n

unfoldable pub delete_notes : NoteEnv → List String → NoteManager → ℕ × NoteManager
unfolding delete_note
delete_notes env [] s = (0, s)
delete_notes env (id ∷ ids) s =
    let (deleted, s') = delete_note env id s in
    let (count, s'') = delete_notes env ids s' in (count_if deleted count, s'')

-- `clearNotes`; the order in which `listNotes` gives the notes is not read
unfoldable pub clear_notes : NoteEnv → NoteManager → ℕ × NoteManager
unfolding delete_notes read_all_notes
clear_notes env s = delete_notes env (note_ids (read_all_notes s.files)) s

abbrev pub acknowledge_one : NoteEnv → String → Option (Option UserNote) → NoteManager → NoteManager
acknowledge_one env id none s = s
acknowledge_one env id (some none) s = s
acknowledge_one env id (some (some note)) s =
    if note.permanent
    then (if env.writes id
        then record s {
          files = map_set s.files id (some (record note { acknowledged_at = some env.now }));
        }
        else s)
    else (if env.removes id
        then record s { files = map_delete s.files id; delivered = forget id s.delivered }
        else s)

unfoldable pub acknowledge_each : NoteEnv → List String → NoteManager → NoteManager
acknowledge_each env [] s = s
acknowledge_each env (id ∷ ids) s =
    acknowledge_each env ids (acknowledge_one env id (map_get s.files id) s)

-- `acknowledgeNotes`
unfoldable pub acknowledge_notes : NoteEnv → NoteManager → NoteManager
unfolding acknowledge_each
acknowledge_notes env s = acknowledge_each env s.delivered s

abbrev older : NoteEnv → ℕ → Option ℕ → Bool
older env ttl none = false
older env ttl (some created) = ltb (created + ttl) env.now_ms

-- what `cleanupStaleNotes` removes: an acknowledged volatile note, or an expired one
abbrev pub is_stale : NoteEnv → ℕ → Option UserNote → Bool
is_stale env ttl none = false
is_stale env ttl (some note) =
    not note.permanent
    && (is_truthy note.acknowledged_at || older env ttl (env.time_of note.created_at))

unfoldable pub clean_files :
    NoteEnv → ℕ → List (String × Option UserNote) → ℕ × List (String × Option UserNote)
clean_files env ttl [] = (0, [])
clean_files env ttl ((name, file) ∷ files) =
    let (count, rest) = clean_files env ttl files in
    if is_stale env ttl file && env.removes name
    then (suc count, rest)
    else (count, (name, file) ∷ rest)

-- `cleanupStaleNotes`
unfoldable pub cleanup_stale_notes : NoteEnv → ℕ → NoteManager → ℕ × NoteManager
unfolding clean_files
cleanup_stale_notes env ttl s =
    let (count, files) = clean_files env ttl s.files in (count, record s { files = files })
