-- ===== src/Runtime/Notes/Changes.antt =====
-- What the operations of src/runtime/notes.ts do to a hidden note.
use saivage.Base.{
  ℕ, String, ◌≡◌, refl, ◌∙◌, Bool, true, false, ◌&&◌, Option, none, some, List, [], ◌∷◌, arith,
  elem-append, all, inl, inr, Bool-cases, if◌then◌else◌, ◌==◌, eq_refl, eq_of_test, map_get,
  map_set, map_delete, map_get-map_set, map_get-map_delete,
}
use saivage.Runtime.Notes.{
  UserNote, NoteMutation, acknowledged, NoteManager, NoteEnv, deliverables, note_ids,
  pull_deliverables, forget, create_user_note, acknowledge_found, delete_found, delete_note,
  delete_notes, acknowledge_one, acknowledge_each, is_stale, clean_files, is_truthy,
}
use saivage.Runtime.Notes.Hidden.{named, Hidden, map_delete-named, elem-forget}

-- A file is removed.
removed-Hidden :
    (id other : String) (s : NoteManager)
    → Hidden id s
    → Hidden id
        (record s { files = map_delete s.files other; delivered = forget other s.delivered })
removed-Hidden id other s (keyed, hidden) = (
  map_delete-named s.files other keyed,
  elim (Bool-cases (other == id)) [
    | inl same ↦ inr (cc (map_get-map_delete s.files other id, same))
    | inr apart ↦ elim hidden [
      | inl seen ↦ inl (elem-forget id other s.delivered apart ∙ seen)
      | inr gone ↦ inr (cc (map_get-map_delete s.files other id, apart, gone))
    ]
  ],
)

-- A file that is there is written again.
rewritten-Hidden :
    (id other : String) (note : UserNote) (file : Option UserNote) (s : NoteManager)
    → (note.id == other) ≡ true
    → map_get s.files other ≡ some file
    → Hidden id s
    → Hidden id (record s { files = map_set s.files other (some note) })
rewritten-Hidden id other note file s same found (keyed, hidden) = (
  ground (arith, same, map_delete-named s.files other keyed),
  elim hidden [
    | inl seen ↦ inl seen
    | inr gone ↦ elim (Bool-cases (other == id)) [
      | inl here ↦ ground (arith, found, gone, eq_of_test other id here)
      | inr apart ↦ inr (cc (map_get-map_set s.files other id (some note), apart, gone))
    ]
  ],
)

map_get-named :
    (files : List (String × Option UserNote)) (name : String) {note : UserNote}
    → all named files ≡ true
    → map_get files name ≡ some (some note)
    → (note.id == name) ≡ true
map_get-named [] name h e = cc e
map_get-named ((other, none) ∷ files) name {note} h e =
    ground (arith, h, e, map_get-named files name {note = note})
map_get-named ((other, some n) ∷ files) name {note} h e = elim (Bool-cases (other == name)) [
  | inl same ↦
      let same_note : n ≡ note = cc (e, same) in
      let first : (n.id == other) ≡ true = ground (arith, h) in
      cc (first, same_note, eq_of_test other name same)
  | inr apart ↦ map_get-named files name {note = note} (ground (arith, h)) (cc (e, apart))
]

if-both : {A : Type 0} (P : A → Type 0) (b : Bool) {x y : A} → P x → P y → P (if b then x else y)
if-both P true p q = p
if-both P false p q = q

acknowledge_one-Hidden :
    (env : NoteEnv) (id other : String) (file : Option (Option UserNote)) (s : NoteManager)
    → map_get s.files other ≡ file
    → Hidden id s
    → Hidden id (acknowledge_one env other file s)
acknowledge_one-Hidden env id other none s found h = h
acknowledge_one-Hidden env id other (some none) s found h = h
acknowledge_one-Hidden env id other (some (some note)) s found h =
    if-both (Hidden id) note.permanent
      (if-both (Hidden id) (env.writes other)
        (rewritten-Hidden id other (record note { acknowledged_at = some env.now }) (some note) s
          (map_get-named s.files other h.0 found) found h)
        h)
      (if-both (Hidden id) (env.removes other) (removed-Hidden id other s h) h)

pub acknowledge_each-Hidden :
    (env : NoteEnv) (id : String) (ids : List String) (s : NoteManager)
    → Hidden id s
    → Hidden id (acknowledge_each env ids s)
unfolding acknowledge_each
acknowledge_each-Hidden env id [] s h = h
acknowledge_each-Hidden env id (other ∷ ids) s h =
    acknowledge_each-Hidden env id ids (acknowledge_one env other (map_get s.files other) s)
      (acknowledge_one-Hidden env id other (map_get s.files other) s refl h)

pub delete_found-Hidden :
    (env : NoteEnv) (id other : String) (file : Option (Option UserNote)) (s : NoteManager)
    → Hidden id s
    → Hidden id (delete_found env other file s).1
delete_found-Hidden env id other none s h = h
delete_found-Hidden env id other (some file) s h =
    if-both (λ (r : Bool × NoteManager). Hidden id r.1) (env.removes other)
      (removed-Hidden id other s h) h

pub delete_notes-Hidden :
    (env : NoteEnv) (id : String) (ids : List String) (s : NoteManager)
    → Hidden id s
    → Hidden id (delete_notes env ids s).1
unfolding delete_notes delete_note
delete_notes-Hidden env id [] s h = h
delete_notes-Hidden env id (other ∷ ids) s h =
    delete_notes-Hidden env id ids (delete_note env other s).1
      (delete_found-Hidden env id other (map_get s.files other) s h)

acknowledged-named :
    (env : NoteEnv) (note : UserNote) (name : String)
    → (note.id == name) ≡ true
    → ((acknowledged env note).id == name) ≡ true
acknowledged-named env note name h =
    if-both (λ (n : UserNote). (n.id == name) ≡ true) (is_truthy note.acknowledged_at) h h

-- acknowledging another note
pub acknowledge_found-Hidden :
    (env : NoteEnv) (id other : String) (file : Option (Option UserNote)) (s : NoteManager)
    → (other == id) ≡ false
    → map_get s.files other ≡ file
    → Hidden id s
    → Hidden id (acknowledge_found env other file s).1
acknowledge_found-Hidden env id other none s apart found h = h
acknowledge_found-Hidden env id other (some none) s apart found h = h
acknowledge_found-Hidden env id other (some (some note)) s apart found h =
    let forgotten : Hidden id (record s { delivered = forget other s.delivered }) = (
      h.0,
      elim h.1 [
        | inl seen ↦ inl (elem-forget id other s.delivered apart ∙ seen)
        | inr gone ↦ inr gone
      ],
    ) in
    let P : Option NoteMutation × NoteManager → Type 0 = λ r. Hidden id r.1 in
    let forgetful : NoteManager = record s { delivered = forget other s.delivered } in
    if-both P note.permanent
      (if-both P (env.writes other)
        (rewritten-Hidden id other (acknowledged env note) (some note) forgetful
          (acknowledged-named env note other (map_get-named s.files other h.0 found)) found
          forgotten)
        forgotten)
      (if-both P (env.removes other) (removed-Hidden id other s h) forgotten)

pub clean_files-Hidden :
    (env : NoteEnv) (ttl : ℕ) (id : String) (files : List (String × Option UserNote))
    → all named files ≡ true
    → (all named (clean_files env ttl files).1 ≡ true)
      × (map_get files id ≡ none → map_get (clean_files env ttl files).1 id ≡ none)
unfolding clean_files
clean_files-Hidden env ttl id [] h = (refl, λ e. e)
clean_files-Hidden env ttl id ((name, file) ∷ files) h =
    let (keyed, gone) = clean_files-Hidden env ttl id files (ground (arith, h)) in
    if-both
      (λ (r : ℕ × List (String × Option UserNote)).
        (all named r.1 ≡ true) × (map_get ((name, file) ∷ files) id ≡ none → map_get r.1 id ≡ none))
      (is_stale env ttl file && env.removes name) (keyed, λ e. gone (ground (arith, e)))
      (ground (arith, h, keyed), λ e. ground (arith, e, gone))

pub created-Hidden :
    (env : NoteEnv) (id : String) (note : UserNote) (s : NoteManager)
    → (note.id == id) ≡ false
    → Hidden id s
    → Hidden id (create_user_note env note s)
unfolding create_user_note
created-Hidden env id note s apart (keyed, hidden) =
    if-both (Hidden id) (env.writes note.id)
      (
        ground (arith, eq_refl note.id, map_delete-named s.files note.id keyed),
        elim hidden [
          | inl seen ↦ inl seen
          | inr gone ↦ inr (cc (map_get-map_set s.files note.id id (some note), apart, gone))
        ],
      )
      (keyed, hidden)

pub pulled-Hidden :
    (env : NoteEnv) (id : String) (s : NoteManager)
    → Hidden id s
    → Hidden id (pull_deliverables env s).1
unfolding pull_deliverables
pulled-Hidden env id s (keyed, hidden) = (
  keyed,
  elim hidden [
    | inl seen ↦ inl (cc (elem-append id s.delivered (note_ids (deliverables env s)), seen))
    | inr gone ↦ inr gone
  ],
)
