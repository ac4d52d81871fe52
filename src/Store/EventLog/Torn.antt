-- ===== src/Store/EventLog/Torn.antt =====
-- A line of the log of src/store/stage-run-store.ts that was cut off.
use saivage.Base.{
  String, ◌≡◌, refl, sym, ◌∙◌, none, List, [], ◌∷◌, ◌++◌, arith, map, map-append, append_assoc,
  append-nil,
}
use saivage.Store.EventLog.{
  StageRunEvent, LineReading, blank, bad_json, bad_shape, event, Codec, Lawful, LogFile, Appended,
  written, refused, torn, read_from, read_events, append_event, append_all,
}

read_from-bad_json :
    (seen : List String) (rs more : List LineReading) (last : LineReading)
    → read_from seen (rs ++ bad_json ∷ more) last ≡ none
unfolding read_from
read_from-bad_json seen [] more last = refl
read_from-bad_json seen (blank ∷ rs) more last = read_from-bad_json seen rs more last
read_from-bad_json seen (bad_json ∷ rs) more last = refl
read_from-bad_json seen (bad_shape ∷ rs) more last = refl
read_from-bad_json seen (event e ∷ rs) more last = ground (
  arith,
  read_from-bad_json seen rs more last,
  read_from-bad_json (e.event_id ∷ seen) rs more last,
)

-- The last line does not count while it is no JSON.
read_from-last :
    (seen : List String) (rs : List LineReading)
    → read_from seen rs bad_json ≡ read_from seen rs blank
unfolding read_from
read_from-last seen [] = refl
read_from-last seen (blank ∷ rs) = read_from-last seen rs
read_from-last seen (bad_json ∷ rs) = refl
read_from-last seen (bad_shape ∷ rs) = refl
read_from-last seen (event e ∷ rs) =
    ground (arith, read_from-last seen rs, read_from-last (e.event_id ∷ seen) rs)

module _ {Text : Type 0} (codec : Codec Text) (lawful : Lawful codec) where
  append_all-lines :
      (file : LogFile Text) (calls : List (StageRunEvent × Appended Text))
      → (more : List Text) × ((append_all codec file calls).lines ≡ file.lines ++ more)
  unfolding append_all append_event
  append_all-lines file [] = ([], sym (append-nil file.lines))
  append_all-lines file ((e, written) ∷ calls) =
      let line = codec.join file.tail (codec.print e) in
      let (more, h) = append_all-lines (append_event codec file e written) calls in
      (line ∷ more, h ∙ append_assoc file.lines (line ∷ []) more)
  append_all-lines file ((e, refused) ∷ calls) = append_all-lines file calls
  append_all-lines file ((e, torn part) ∷ calls) =
      append_all-lines (append_event codec file e (torn part)) calls

  read_events-torn :
      (file : LogFile Text) (e : StageRunEvent) (part : Text)
      → codec.read_line file.tail ≡ blank
      → codec.read_line (codec.join file.tail part) ≡ bad_json
      → read_events codec (append_event codec file e (torn part)) ≡ read_events codec file
  unfolding read_events append_event
  read_events-torn file e part open_line cut =
      cc (open_line, cut, read_from-last [] (map codec.read_line file.lines))

  append_all-spoils :
      (file : LogFile Text) (e : StageRunEvent) (calls : List (StageRunEvent × Appended Text))
      → codec.read_line file.tail ≡ bad_json
      → read_events codec (append_all codec file ((e, written) ∷ calls)) ≡ none
  unfolding append_all append_event read_events
  append_all-spoils file e calls cut =
      let (more, h) = append_all-lines (append_event codec file e written) calls in
      let file' = append_all codec (append_event codec file e written) calls in
      let spoilt : map codec.read_line file'.lines
          ≡ map codec.read_line file.lines ++ bad_json ∷ map codec.read_line more =
        cc (
          h,
          lawful.read_join file.tail e cut,
          append_assoc file.lines (codec.join file.tail (codec.print e) ∷ []) more,
          map-append codec.read_line file.lines (codec.join file.tail (codec.print e) ∷ more),
        ) in
      cc (
        spoilt,
        read_from-bad_json [] (map codec.read_line file.lines) (map codec.read_line more)
            (codec.read_line file'.tail),
      )

  -- With a lawful codec: if an append behind a blank last line is cut off and leaves one that is
  -- no JSON, the log reads as before; but once another append succeeds, reading throws, whatever
  -- is appended after.
  pub append_event-torn :
      (file : LogFile Text) (e next : StageRunEvent) (part : Text)
      (calls : List (StageRunEvent × Appended Text))
      → codec.read_line file.tail ≡ blank
      → codec.read_line (codec.join file.tail part) ≡ bad_json
      → (read_events codec (append_event codec file e (torn part)) ≡ read_events codec file)
        × (read_events codec
              (append_all codec (append_event codec file e (torn part)) ((next, written) ∷ calls))
            ≡ none)
  unfolding append_event
  append_event-torn file e next part calls open_line cut = (
    read_events-torn file e part open_line cut,
    append_all-spoils (append_event codec file e (torn part)) next calls cut,
  )
