-- ===== src/Runtime/Notes/Once.antt =====
-- Delivered notes under the operations of `NoteManager`, src/runtime/notes.ts.
use saivage.Base.{
  String, ◌≡◌, refl, true, false, List, [], ◌∷◌, ◌++◌, arith, elem, elem-append, all, inl, inr,
  map_get,
}
use saivage.Runtime.Notes.{
  NoteManager, NoteEnv, read_all_notes, deliverables, note_ids, pull_deliverables, acknowledge_note,
  delete_note, clear_notes, acknowledge_notes, cleanup_stale_notes,
}
use saivage.Runtime.Notes.Calls.{
  NoteCall, create_call, pull_call, reset_call, acknowledge_all_call, clear_call, acknowledge_call,
  delete_call, cleanup_call, spares, note_step, delivered_by,
}
use saivage.Runtime.Notes.Hidden.{Hidden, WellNamed, deliverables-Hidden}
use saivage.Runtime.Notes.Changes.{
  acknowledge_each-Hidden, delete_found-Hidden, delete_notes-Hidden, acknowledge_found-Hidden,
  clean_files-Hidden, created-Hidden, pulled-Hidden,
}

note_step-Hidden :
    (env : NoteEnv) (id : String) (call : NoteCall) (s : NoteManager)
    → spares id call ≡ true
    → Hidden id s
    → (elem id (note_step env call s).0 ≡ false) × Hidden id (note_step env call s).1
unfolding note_step pull_deliverables acknowledge_notes clear_notes acknowledge_note delete_note
    cleanup_stale_notes
note_step-Hidden env id (create_call note) s spared h =
    (refl, created-Hidden env id note s (ground (arith, spared)) h)
note_step-Hidden env id pull_call s spared h =
    (deliverables-Hidden env id s h, pulled-Hidden env id s h)
note_step-Hidden env id reset_call s spared h = cc spared
note_step-Hidden env id acknowledge_all_call s spared h =
    (refl, acknowledge_each-Hidden env id s.delivered s h)
note_step-Hidden env id clear_call s spared h =
    (refl, delete_notes-Hidden env id (note_ids (read_all_notes s.files)) s h)
note_step-Hidden env id (acknowledge_call other) s spared h = (
  refl,
  acknowledge_found-Hidden env id other (map_get s.files other) s (ground (arith, spared)) refl h,
)
note_step-Hidden env id (delete_call other) s spared h =
    (refl, delete_found-Hidden env id other (map_get s.files other) s h)
note_step-Hidden env id (cleanup_call ttl) s spared (keyed, hidden) =
    let (keyed', gone') = clean_files-Hidden env ttl id s.files keyed in
    (refl, (keyed', elim hidden [ inl seen ↦ inl seen | inr gone ↦ inr (gone' gone) ]))

delivered_by-Hidden :
    (id : String) (calls : List (NoteEnv × NoteCall)) (s : NoteManager)
    → all (λ call. spares id call.1) calls ≡ true
    → Hidden id s
    → elem id (delivered_by calls s) ≡ false
unfolding delivered_by
delivered_by-Hidden id [] s spared h = refl
delivered_by-Hidden id ((env, call) ∷ calls) s spared h =
    let (none_now, next) = note_step-Hidden env id call s (ground (arith, spared)) h in
    let later =
      delivered_by-Hidden id calls (note_step env call s).1 (ground (arith, spared)) next in
    cc (
      elem-append id (note_step env call s).0 (delivered_by calls (note_step env call s).1),
      none_now,
      later,
    )

-- Where each note stands in the file that its id names: a note that pullDeliverables gives is not
-- delivered again by any later operations, if none resets the context, creates a note with its id,
-- or acknowledges it by its id.
pub pull_deliverables-once :
    (env : NoteEnv) (id : String) (calls : List (NoteEnv × NoteCall)) (s : NoteManager)
    → WellNamed s
    → elem id (note_ids (pull_deliverables env s).0) ≡ true
    → all (λ call. spares id call.1) calls ≡ true
    → elem id (delivered_by calls (pull_deliverables env s).1) ≡ false
unfolding pull_deliverables
pull_deliverables-once env id calls s named_well pulled spared =
    let seen : elem id (s.delivered ++ note_ids (deliverables env s)) ≡ true =
      ground (arith, elem-append id s.delivered (note_ids (deliverables env s)), pulled) in
    delivered_by-Hidden id calls (pull_deliverables env s).1 spared (named_well, inl seen)
