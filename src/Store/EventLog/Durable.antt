-- ===== src/Store/EventLog/Durable.antt =====
-- Appends to the log of src/store/stage-run-store.ts, and reading after them.
use saivage.Base.{
  String, ◌≡◌, refl, sym, ap, ◌∙◌, subst, Bool, true, false, not, ◌&&◌, ◌||◌, Option, none, some,
  List, [], ◌∷◌, ◌++◌, arith, inl, inr, Bool-cases, elem, all, Distinct, map, map-append,
  append-nil, append_assoc, if◌then◌else◌, eq_comm,
}
use saivage.Store.EventLog.{
  StageRunEvent, event_ok, LineReading, blank, bad_json, bad_shape, event, Codec, Lawful, LogFile,
  written, refused, torn, Appended, before, event_ids, read_from, read_events, append_event,
  append_all,
}

-- the events with one more, unless its id has been seen
abbrev pub with_new : List String → List StageRunEvent → StageRunEvent → List StageRunEvent
with_new seen es e =
    if elem e.event_id seen || elem e.event_id (event_ids es) then es else es ++ e ∷ []

before-some :
    (d : StageRunEvent) (o : Option (List StageRunEvent)) {es : List StageRunEvent}
    → before d o ≡ some es
    → (ds : List StageRunEvent) × (o ≡ some ds) × (es ≡ d ∷ ds)
before-some d none h = cc
before-some d (some ds) {es} h = (ds, refl, cc)

with_new-cons :
    (seen : List String) (d : StageRunEvent) (ds : List StageRunEvent) (e : StageRunEvent)
    → d ∷ with_new (d.event_id ∷ seen) ds e ≡ with_new seen (d ∷ ds) e
with_new-cons seen d ds e = ground arith

read_from-snoc :
    (seen : List String) (rs : List LineReading) (e : StageRunEvent) (es : List StageRunEvent)
    → read_from seen rs blank ≡ some es
    → read_from seen (rs ++ event e ∷ []) blank ≡ some (with_new seen es e)
unfolding read_from
read_from-snoc seen [] e es h = ground arith
read_from-snoc seen (blank ∷ rs) e es h = read_from-snoc seen rs e es h
read_from-snoc seen (bad_json ∷ rs) e es h = cc
read_from-snoc seen (bad_shape ∷ rs) e es h = cc
read_from-snoc seen (event d ∷ rs) e es h = elim (Bool-cases (elem d.event_id seen)) [
  | inl y ↦ ground (arith, read_from-snoc seen rs e es)
  | inr n ↦
      let (ds, r, c) =
        before-some d (read_from (d.event_id ∷ seen) rs blank) {es = es} (ground arith) in
      ground (arith, read_from-snoc (d.event_id ∷ seen) rs e ds r, with_new-cons seen d ds e)
]

abbrev is_torn : {Text : Type 0} → Appended Text → Bool
is_torn (torn part) = true
is_torn _ = false

-- the events whose appends succeed
abbrev pub written_events :
    {Text : Type 0} → List (StageRunEvent × Appended Text) → List StageRunEvent
written_events [] = []
written_events ((e, written) ∷ calls) = e ∷ written_events calls
written_events ((e, refused) ∷ calls) = written_events calls
written_events ((e, torn part) ∷ calls) = written_events calls

-- No append is cut off, and each event fits the schema.
abbrev pub all_whole : {Text : Type 0} → List (StageRunEvent × Appended Text) → Bool
all_whole = all (λ call. event_ok call.0 && not (is_torn call.1))

elem-event_ids-append :
    (id : String) (ds es : List StageRunEvent)
    → elem id (event_ids (ds ++ es)) ≡ (elem id (event_ids ds) || elem id (event_ids es))
elem-event_ids-append id [] es = refl
elem-event_ids-append id (d ∷ ds) es = ground (arith, elem-event_ids-append id ds es)

Distinct-elem :
    (ds : List StageRunEvent) (e : StageRunEvent) (es : List StageRunEvent)
    → Distinct (event_ids (ds ++ e ∷ es))
    → elem e.event_id (event_ids ds) ≡ false
Distinct-elem [] e es d = refl
Distinct-elem (x ∷ ds) e es (fresh, d) = ground (
  arith,
  Distinct-elem ds e es d,
  elem-event_ids-append x.event_id ds (e ∷ es),
  eq_comm e.event_id x.event_id,
)

module _ {Text : Type 0} (codec : Codec Text) (lawful : Lawful codec) where
  pub read_events-append_event :
      (file : LogFile Text) (e : StageRunEvent) (es : List StageRunEvent)
      → file.tail ≡ codec.empty
      → event_ok e ≡ true
      → read_events codec file ≡ some es
      → read_events codec (append_event codec file e written) ≡ some (with_new [] es e)
  unfolding read_events append_event
  read_events-append_event file e es closed ok h =
      let line : codec.read_line (codec.join file.tail (codec.print e)) ≡ event e =
        cc (closed, lawful.join_empty (codec.print e), lawful.read_print e ok) in
      let before_it : read_from [] (map codec.read_line file.lines) blank ≡ some es =
        cc (h, closed, lawful.empty_blank) in
      let after_it = read_from-snoc [] (map codec.read_line file.lines) e es before_it in
      cc (
        after_it,
        line,
        lawful.empty_blank,
        map-append codec.read_line file.lines (codec.join file.tail (codec.print e) ∷ []),
      )

  -- With a lawful codec, and from a log that reads and whose last line is ended: appends that each
  -- succeed or fail whole, of events that fit the schema and with no id that stands twice, after
  -- which reading the log gives the events that were there and those whose appends succeeded, in
  -- order.
  pub append_all-read_events :
      (file : LogFile Text) (es : List StageRunEvent) (calls : List (StageRunEvent × Appended Text))
      → file.tail ≡ codec.empty
      → read_events codec file ≡ some es
      → all_whole calls ≡ true
      → Distinct (event_ids (es ++ written_events calls))
      → read_events codec (append_all codec file calls) ≡ some (es ++ written_events calls)
  unfolding append_event append_all
  append_all-read_events file es [] closed h whole d = cc (h, append-nil es)
  append_all-read_events file es ((e, written) ∷ calls) closed h whole d =
      let fresh = Distinct-elem es e (written_events calls) d in
      let once : read_events codec (append_event codec file e written) ≡ some (es ++ e ∷ []) =
        cc (read_events-append_event file e es closed (ground arith) h, fresh) in
      let assoc = append_assoc es (e ∷ []) (written_events calls) in
      let d' = subst (λ es'. Distinct (event_ids es')) (sym assoc) d in
      append_all-read_events (append_event codec file e written) (es ++ e ∷ []) calls refl once
        (ground arith) d'
      ∙ ap some assoc
  append_all-read_events file es ((e, refused) ∷ calls) closed h whole d =
      append_all-read_events file es calls closed h (ground arith) d
  append_all-read_events file es ((e, torn part) ∷ calls) closed h whole d = ground arith
