-- ===== src/Runtime/Notes/Hidden.antt =====
-- A note that no pull gives: it has been delivered, or has no file.
use saivage.Base.{
  String, ◌≡◌, ◌⊎◌, refl, ◌∙◌, Bool, true, false, not, ◌||◌, Option, none, some, List, [], ◌∷◌,
  arith, filter, elem, any, all, any-sort, inl, inr, Bool-cases, ◌==◌, eq_iff, eq_of_test, map_get,
  map_delete,
}
use saivage.Runtime.Notes.{
  UserNote, NoteManager, NoteEnv, read_all_notes, deliverables, note_ids, forget, is_truthy,
}

abbrev pub named : String × Option UserNote → Bool
named (name, none) = true
named (name, some note) = note.id == name

-- Each note stands in the file that its id names.
abbrev pub WellNamed : NoteManager → Type 0
WellNamed s = all named s.files ≡ true

-- No pull gives a note of the id.
abbrev pub Hidden : String → NoteManager → Type 0
Hidden id s =
    (all named s.files ≡ true) × ((elem id s.delivered ≡ true) ⊎ (map_get s.files id ≡ none))

pub elem-note_ids :
    (id : String) (notes : List UserNote)
    → elem id (note_ids notes) ≡ any (λ note. note.id == id) notes
elem-note_ids id [] = refl
elem-note_ids id (n ∷ ns) = ground (arith, elem-note_ids id ns)

read_all_notes-none :
    (id : String) (files : List (String × Option UserNote))
    → all named files ≡ true
    → map_get files id ≡ none
    → any (λ note. note.id == id) (read_all_notes files) ≡ false
unfolding read_all_notes
read_all_notes-none id [] h e = refl
read_all_notes-none id ((name, none) ∷ files) h e =
    read_all_notes-none id files h (ground (arith, e))
read_all_notes-none id ((name, some note) ∷ files) h e = ground (
  arith,
  h,
  e,
  read_all_notes-none id files,
  eq_iff note.id name,
  eq_iff note.id id,
  eq_iff name id,
)

any-filter :
    (p q : UserNote → Bool) (notes : List UserNote)
    → any q notes ≡ false
    → any q (filter p notes) ≡ false
any-filter p q [] h = refl
any-filter p q (n ∷ ns) h = ground (arith, h, any-filter p q ns)

not_delivered-filter :
    (id : String) (ids : List String) (notes : List UserNote)
    → elem id ids ≡ true
    → any (λ note. note.id == id) (filter (λ note. not (elem note.id ids)) notes) ≡ false
not_delivered-filter id ids [] h = refl
not_delivered-filter id ids (n ∷ ns) h = elim (Bool-cases (n.id == id)) [
  | inl same ↦
      let seen : elem n.id ids ≡ true = cc (h, eq_of_test n.id id same) in
      cc (seen, not_delivered-filter id ids ns h)
  | inr other ↦ ground (arith, other, not_delivered-filter id ids ns h)
]

pub map_delete-named :
    (files : List (String × Option UserNote)) (id : String)
    → all named files ≡ true
    → all named (map_delete files id) ≡ true
map_delete-named [] id h = refl
map_delete-named ((name, none) ∷ files) id h = ground (arith, map_delete-named files id h)
map_delete-named ((name, some note) ∷ files) id h = ground (arith, h, map_delete-named files id)

pub elem-forget :
    (id other : String) (ids : List String)
    → (other == id) ≡ false
    → elem id (forget other ids) ≡ elem id ids
elem-forget id other [] h = refl
elem-forget id other (x ∷ xs) h =
    ground (arith, h, elem-forget id other xs, eq_iff x other, eq_iff x id, eq_iff other id)

pub deliverables-Hidden :
    (env : NoteEnv) (id : String) (s : NoteManager)
    → Hidden id s
    → elem id (note_ids (deliverables env s)) ≡ false
unfolding deliverables
deliverables-Hidden env id s (keyed, hidden) =
    let leq : UserNote → UserNote → Bool = λ a b. env.not_after a.created_at b.created_at in
    let fresh = filter (λ note. not (elem note.id s.delivered)) (read_all_notes s.files) in
    let due = filter (λ note. note.permanent || not (is_truthy note.acknowledged_at)) fresh in
    let none_fresh : any (λ note. note.id == id) fresh ≡ false = elim hidden [
      | inl seen ↦ not_delivered-filter id s.delivered (read_all_notes s.files) seen
      | inr gone ↦
          any-filter (λ note. not (elem note.id s.delivered)) (λ note. note.id == id)
            (read_all_notes s.files) (read_all_notes-none id s.files keyed gone)
    ] in
    elem-note_ids id (deliverables env s)
    ∙ any-sort (λ note. note.id == id) leq due
    ∙ any-filter (λ note. note.permanent || not (is_truthy note.acknowledged_at))
        (λ note. note.id == id) fresh none_fresh
