-- ===== src/Runtime/Notes/Kept.antt =====
-- Permanent notes and the reset of the context, src/runtime/notes.ts.
use saivage.Base.{
  String, ◌≡◌, refl, ◌∙◌, Bool, true, false, not, ◌||◌, Option, none, some, List, [], ◌∷◌, arith,
  filter, elem, any, all, any-sort, inl, inr, Bool-cases, ◌==◌, map_get,
}
use saivage.Runtime.Notes.{
  UserNote, NoteManager, NoteEnv, is_planner_self_note, read_all_notes, deliverables,
  pull_deliverables, reset_delivered, is_truthy,
}
use saivage.Runtime.Notes.Calls.{NoteCall, note_step}
use saivage.Runtime.Notes.Lasts.{is_lasting, Lasts, leaves, note_step-Lasts}

-- the state after calls
unfoldable pub note_run : List (NoteEnv × NoteCall) → NoteManager → NoteManager
unfolding note_step
note_run [] s = s
note_run ((env, call) ∷ calls) s = note_run calls (note_step env call s).1

note_run-Lasts :
    (id content : String) (calls : List (NoteEnv × NoteCall)) (s : NoteManager)
    → all (λ call. leaves id call.1) calls ≡ true
    → Lasts id content s
    → Lasts id content (note_run calls s)
unfolding note_run
note_run-Lasts id content [] s left h = h
note_run-Lasts id content ((env, call) ∷ calls) s left h =
    note_run-Lasts id content calls (note_step env call s).1 (ground (arith, left))
      (note_step-Lasts env id content call s (ground (arith, left)) h)

read_all_notes-any :
    (id content : String) (files : List (String × Option UserNote)) (note : UserNote)
    → map_get files id ≡ some (some note)
    → is_lasting id content note ≡ true
    → any (is_lasting id content) (read_all_notes files) ≡ true
unfolding read_all_notes
read_all_notes-any id content [] note h lasting = cc h
read_all_notes-any id content ((name, none) ∷ files) note h lasting =
    read_all_notes-any id content files note (ground (arith, h)) lasting
read_all_notes-any id content ((name, some n) ∷ files) note h lasting =
    elim (Bool-cases (name == id)) [
      | inl same ↦
          let first : n ≡ note = cc (h, same) in
          let lasts : is_lasting id content n ≡ true = cc (lasting, first) in
          let user : is_planner_self_note n ≡ false = ground (arith, lasts) in cc (user, lasts)
      | inr apart ↦ ground (arith, read_all_notes-any id content files note (cc (h, apart)) lasting)
    ]

any-filter-keep :
    (p q : UserNote → Bool) (notes : List UserNote)
    → ((n : UserNote) → p n ≡ true → q n ≡ true)
    → any p notes ≡ true
    → any p (filter q notes) ≡ true
any-filter-keep p q [] keeps h = h
any-filter-keep p q (n ∷ ns) keeps h = elim (Bool-cases (p n)) [
  | inl found ↦ cc (keeps n found, found)
  | inr passed ↦ ground (arith, h, passed, any-filter-keep p q ns keeps)
]

-- A permanent note that is not the planner's own, in the file that its id names, and that no
-- operations delete or create anew: after any such operations and a reset of the context, the next
-- pull delivers a permanent note with its id and content.
pub pull_deliverables-again :
    (env : NoteEnv) (id content : String) (calls : List (NoteEnv × NoteCall)) (s : NoteManager)
    → Lasts id content s
    → all (λ call. leaves id call.1) calls ≡ true
    → any (is_lasting id content) (pull_deliverables env (reset_delivered (note_run calls s))).0
      ≡ true
unfolding pull_deliverables reset_delivered deliverables
pull_deliverables-again env id content calls s h left =
    let (note, found, lasting) = note_run-Lasts id content calls s left h in
    let files = (note_run calls s).files in
    let leq : UserNote → UserNote → Bool = λ a b. env.not_after a.created_at b.created_at in
    let fresh = filter (λ note. not (elem note.id [])) (read_all_notes files) in
    let due : UserNote → Bool = λ note. note.permanent || not (is_truthy note.acknowledged_at) in
    any-sort (is_lasting id content) leq (filter due fresh)
    ∙ any-filter-keep (is_lasting id content) due fresh (λ n l. ground (arith, l))
        (any-filter-keep (is_lasting id content) (λ note. not (elem note.id []))
          (read_all_notes files) (λ n l. refl)
          (read_all_notes-any id content files note found lasting))
