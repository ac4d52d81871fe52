-- ===== src/Runtime/Notes/Lasts.antt =====
-- The file of a permanent note under the operations of src/runtime/notes.ts.
use saivage.Base.{
  ℕ, String, ◌≡◌, refl, sym, subst, ◌∙◌, Bool, true, false, not, ◌&&◌, Option, none, some, List, [],
  ◌∷◌, arith, inl, inr, Bool-cases, if◌then◌else◌, ◌==◌, eq_of_test, map_get, map_set, map_delete,
  map_get-map_set, map_get-map_delete,
}
use saivage.Runtime.Notes.{
  UserNote, NoteMutation, acknowledged, NoteManager, NoteEnv, is_planner_self_note,
  pull_deliverables, forget, create_user_note, acknowledge_found, acknowledge_note, delete_found,
  delete_note, acknowledge_one, acknowledge_each, acknowledge_notes, is_stale, clean_files,
  cleanup_stale_notes, reset_delivered, is_truthy,
}
use saivage.Runtime.Notes.Calls.{
  NoteCall, create_call, pull_call, reset_call, acknowledge_all_call, clear_call, acknowledge_call,
  delete_call, cleanup_call, note_step,
}

-- a permanent note with the id and content, not of the planner itself
abbrev pub is_lasting : String → String → UserNote → Bool
is_lasting id content note =
    note.permanent
    && (not (is_planner_self_note note) && (note.id == id && note.content == content))

-- The folder has it in the file that the id names.
abbrev pub Lasts : String → String → NoteManager → Type 0
Lasts id content s =
    (note : UserNote) × (map_get s.files id ≡ some (some note))
    × (is_lasting id content note ≡ true)

-- The call neither deletes the note, nor all notes, nor creates one with its id.
abbrev pub leaves : String → NoteCall → Bool
leaves id (create_call note) = not (note.id == id)
leaves id (delete_call other) = not (other == id)
leaves id clear_call = false
leaves id _ = true

if-any : {A : Type 0} (P : A → Type 0) (b : Bool) {x y : A} → P x → P y → P (if b then x else y)
if-any P true p q = p
if-any P false p q = q

if-true :
    {A : Type 0} (P : A → Type 0) {b : Bool} {x : A} (y : A)
    → b ≡ true
    → P x
    → P (if b then x else y)
if-true P {b} {x} y h p = subst (λ c. P (if c then x else y)) (sym h) p

-- what a call does to another file
abbrev SameAt : String → NoteManager → NoteManager → Type 0
SameAt id s s' = map_get s'.files id ≡ map_get s.files id

SameAt-Lasts :
    (id content : String) (s s' : NoteManager)
    → SameAt id s s'
    → Lasts id content s
    → Lasts id content s'
SameAt-Lasts id content s s' same (note, found, lasting) = (note, same ∙ found, lasting)

set-SameAt :
    (id other : String) (note : Option UserNote) (s : NoteManager)
    → (other == id) ≡ false
    → map_get (map_set s.files other note) id ≡ map_get s.files id
set-SameAt id other note s apart = cc (map_get-map_set s.files other id note, apart)

delete-SameAt :
    (id other : String) (s : NoteManager)
    → (other == id) ≡ false
    → map_get (map_delete s.files other) id ≡ map_get s.files id
delete-SameAt id other s apart = cc (map_get-map_delete s.files other id, apart)

acknowledge_one-SameAt :
    (env : NoteEnv) (id other : String) (file : Option (Option UserNote)) (s : NoteManager)
    → (other == id) ≡ false
    → SameAt id s (acknowledge_one env other file s)
acknowledge_one-SameAt env id other none s apart = refl
acknowledge_one-SameAt env id other (some none) s apart = refl
acknowledge_one-SameAt env id other (some (some note)) s apart =
    if-any (SameAt id s) note.permanent
      (if-any (SameAt id s) (env.writes other)
        (set-SameAt id other (some (record note { acknowledged_at = some env.now })) s apart) refl)
      (if-any (SameAt id s) (env.removes other) (delete-SameAt id other s apart) refl)

acknowledge_one-Lasts :
    (env : NoteEnv) (id content other : String) (s : NoteManager)
    → Lasts id content s
    → Lasts id content (acknowledge_one env other (map_get s.files other) s)
unfolding is_planner_self_note
acknowledge_one-Lasts env id content other s (note, found, lasting) =
    elim (Bool-cases (other == id)) [
      | inr apart ↦
          SameAt-Lasts id content s (acknowledge_one env other (map_get s.files other) s)
            (acknowledge_one-SameAt env id other (map_get s.files other) s apart)
            (note, found, lasting)
      | inl same ↦
          let e = eq_of_test other id same in
          let found' : map_get s.files other ≡ some (some note) = cc (found, e) in
          let permanent : note.permanent ≡ true = ground (arith, lasting) in
          let written : UserNote = record note { acknowledged_at = some env.now } in
          let stored = map_get-map_set s.files other id (some written) in
          subst (λ file. Lasts id content (acknowledge_one env other file s)) (sym found')
            (if-true (Lasts id content)
              (if env.removes other
                then record s {
                  files = map_delete s.files other;
                  delivered = forget other s.delivered;
                }
                else s)
              permanent
              (if-any (Lasts id content) (env.writes other) (written, cc (stored, same), lasting)
                (note, found, lasting)))
    ]

acknowledge_each-Lasts :
    (env : NoteEnv) (id content : String) (ids : List String) (s : NoteManager)
    → Lasts id content s
    → Lasts id content (acknowledge_each env ids s)
unfolding acknowledge_each
acknowledge_each-Lasts env id content [] s h = h
acknowledge_each-Lasts env id content (other ∷ ids) s h =
    acknowledge_each-Lasts env id content ids (acknowledge_one env other (map_get s.files other) s)
      (acknowledge_one-Lasts env id content other s h)

acknowledge_found-SameAt :
    (env : NoteEnv) (id other : String) (file : Option (Option UserNote)) (s : NoteManager)
    → (other == id) ≡ false
    → SameAt id s (acknowledge_found env other file s).1
acknowledge_found-SameAt env id other none s apart = refl
acknowledge_found-SameAt env id other (some none) s apart = refl
acknowledge_found-SameAt env id other (some (some note)) s apart =
    let P : Option NoteMutation × NoteManager → Type 0 = λ r. SameAt id s r.1 in
    if-any P note.permanent
      (if-any P (env.writes other) (set-SameAt id other (some (acknowledged env note)) s apart)
        refl)
      (if-any P (env.removes other) (delete-SameAt id other s apart) refl)

acknowledged-is_lasting :
    (env : NoteEnv) (id content : String) (note : UserNote)
    → is_lasting id content note ≡ true
    → is_lasting id content (acknowledged env note) ≡ true
unfolding is_planner_self_note
acknowledged-is_lasting env id content note h =
    if-any (λ (n : UserNote). is_lasting id content n ≡ true) (is_truthy note.acknowledged_at) h h

acknowledge_note-Lasts :
    (env : NoteEnv) (id content other : String) (s : NoteManager)
    → Lasts id content s
    → Lasts id content (acknowledge_note env other s).1
unfolding acknowledge_note
acknowledge_note-Lasts env id content other s (note, found, lasting) =
    elim (Bool-cases (other == id)) [
      | inr apart ↦
          SameAt-Lasts id content s (acknowledge_found env other (map_get s.files other) s).1
            (acknowledge_found-SameAt env id other (map_get s.files other) s apart)
            (note, found, lasting)
      | inl same ↦
          let e = eq_of_test other id same in
          let found' : map_get s.files other ≡ some (some note) = cc (found, e) in
          let permanent : note.permanent ≡ true = ground (arith, lasting) in
          let stored = map_get-map_set s.files other id (some (acknowledged env note)) in
          let P : Option NoteMutation × NoteManager → Type 0 = λ r. Lasts id content r.1 in
          subst (λ file. P (acknowledge_found env other file s)) (sym found')
            (if-true P
              (if env.removes other
                then (
                  some (record { note = note; deleted = true }),
                  record s {
                    files = map_delete s.files other;
                    delivered = forget other s.delivered;
                  },
                )
                else (none, record s { delivered = forget other s.delivered }))
              permanent
              (if-any P (env.writes other)
                (
                  acknowledged env note,
                  cc (stored, same),
                  acknowledged-is_lasting env id content note lasting,
                )
                (note, found, lasting)))
    ]

clean_files-Lasts :
    (env : NoteEnv) (ttl : ℕ) (id : String) (files : List (String × Option UserNote))
    (note : UserNote)
    → note.permanent ≡ true
    → map_get files id ≡ some (some note)
    → map_get (clean_files env ttl files).1 id ≡ some (some note)
unfolding clean_files
clean_files-Lasts env ttl id [] note permanent h = h
clean_files-Lasts env ttl id ((name, file) ∷ files) note permanent h =
    elim (Bool-cases (name == id)) [
      | inl same ↦
          let first : file ≡ some note = cc (h, same) in
          let kept : is_stale env ttl file ≡ false = ground (arith, first, permanent) in
          cc (kept, same, first)
      | inr apart ↦
          let rest = clean_files-Lasts env ttl id files note permanent (cc (h, apart)) in
          if-any (λ (r : ℕ × List (String × Option UserNote)). map_get r.1 id ≡ some (some note))
            (is_stale env ttl file && env.removes name) rest (cc (rest, apart))
    ]

delete_found-SameAt :
    (env : NoteEnv) (id other : String) (file : Option (Option UserNote)) (s : NoteManager)
    → (other == id) ≡ false
    → SameAt id s (delete_found env other file s).1
delete_found-SameAt env id other none s apart = refl
delete_found-SameAt env id other (some file) s apart =
    if-any (λ (r : Bool × NoteManager). SameAt id s r.1) (env.removes other)
      (delete-SameAt id other s apart) refl

pub note_step-Lasts :
    (env : NoteEnv) (id content : String) (call : NoteCall) (s : NoteManager)
    → leaves id call ≡ true
    → Lasts id content s
    → Lasts id content (note_step env call s).1
unfolding note_step create_user_note pull_deliverables reset_delivered acknowledge_notes delete_note
    cleanup_stale_notes
note_step-Lasts env id content (create_call note) s left h =
    if-any (Lasts id content) (env.writes note.id)
      (SameAt-Lasts id content s (record s { files = map_set s.files note.id (some note) })
        (set-SameAt id note.id (some note) s (ground (arith, left))) h)
      h
note_step-Lasts env id content pull_call s left h = h
note_step-Lasts env id content reset_call s left h = h
note_step-Lasts env id content acknowledge_all_call s left h =
    acknowledge_each-Lasts env id content s.delivered s h
note_step-Lasts env id content clear_call s left h = cc left
note_step-Lasts env id content (acknowledge_call other) s left h =
    acknowledge_note-Lasts env id content other s h
note_step-Lasts env id content (delete_call other) s left h =
    SameAt-Lasts id content s (delete_note env other s).1
      (delete_found-SameAt env id other (map_get s.files other) s (ground (arith, left))) h
note_step-Lasts env id content (cleanup_call ttl) s left (note, found, lasting) =
    (note, clean_files-Lasts env ttl id s.files note (ground (arith, lasting)) found, lasting)
