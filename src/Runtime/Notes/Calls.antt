-- ===== src/Runtime/Notes/Calls.antt =====
-- The operations on notes, one after the other.
use saivage.Base.{ℕ, String, Bool, true, false, not, List, [], ◌∷◌, ◌++◌, ◌==◌}
use saivage.Runtime.Notes.{
  UserNote, NoteManager, NoteEnv, note_ids, pull_deliverables, create_user_note, acknowledge_note,
  delete_note, clear_notes, acknowledge_notes, cleanup_stale_notes, reset_delivered,
}

pub data NoteCall : Type 0 where
  create_call : UserNote → NoteCall
  pull_call reset_call acknowledge_all_call clear_call : NoteCall
  acknowledge_call delete_call : String → NoteCall
  cleanup_call : ℕ → NoteCall

-- The call neither resets the context, nor creates a note with the id, nor acknowledges it by its id.
abbrev pub spares : String → NoteCall → Bool
spares id (create_call note) = not (note.id == id)
spares id reset_call = false
spares id (acknowledge_call other) = not (other == id)
spares id _ = true

-- the ids that a call delivers, and the state after it
unfoldable pub note_step : NoteEnv → NoteCall → NoteManager → List String × NoteManager
unfolding create_user_note pull_deliverables reset_delivered acknowledge_notes clear_notes
    acknowledge_note delete_note cleanup_stale_notes
note_step env (create_call note) s = ([], create_user_note env note s)
note_step env pull_call s = let (notes, s') = pull_deliverables env s in (note_ids notes, s')
note_step env reset_call s = ([], reset_delivered s)
note_step env acknowledge_all_call s = ([], acknowledge_notes env s)
note_step env clear_call s = ([], (clear_notes env s).1)
note_step env (acknowledge_call id) s = ([], (acknowledge_note env id s).1)
note_step env (delete_call id) s = ([], (delete_note env id s).1)
note_step env (cleanup_call ttl) s = ([], (cleanup_stale_notes env ttl s).1)

-- the ids that calls deliver, each with what it finds outside
unfoldable pub delivered_by : List (NoteEnv × NoteCall) → NoteManager → List String
unfolding note_step
delivered_by [] s = []
delivered_by ((env, call) ∷ calls) s =
    let (ids, s') = note_step env call s in ids ++ delivered_by calls s'
