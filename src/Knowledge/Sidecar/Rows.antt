-- ===== src/Knowledge/Sidecar/Rows.antt =====
-- The row of an id after each change of the table.
use mathlib.Core.Option
use saivage.Base.{
  String, ◌≡◌, refl, Bool, false, not, Option, none, some, List, [], ◌∷◌, ◌++◌, arith, any, filter,
  find?, if◌then◌else◌, ◌==◌, eq_iff,
}
use saivage.Knowledge.Permissions.{Kind}
use saivage.Knowledge.Records.{RecordRow, same_kind}
use saivage.Knowledge.Sidecar.{update_where, archive_rows, as_archived, clear_pending_reingest}

abbrev pub find_row : String → List RecordRow → Option RecordRow
find_row id = find? (λ r. r.id == id)

abbrev pub or_row : Option RecordRow → Option RecordRow → Option RecordRow
or_row none b = b
or_row (some a) b = some a

abbrev pub KeepsId : (RecordRow → RecordRow) → Type 0
KeepsId f = (r : RecordRow) → (f r).id ≡ r.id

pub find_row-update_where :
    (f : RecordRow → RecordRow)
    → KeepsId f
    → (id j : String) (rows : List RecordRow)
    → find_row j (update_where id f rows)
      ≡ (if id == j then Option.map f (find_row j rows) else find_row j rows)
unfolding update_where
find_row-update_where f k id j [] = ground arith
find_row-update_where f k id j (r ∷ rows) =
    ground
      (arith, k r, find_row-update_where f k id j rows, eq_iff r.id id, eq_iff r.id j, eq_iff id j)

pub find_row-append :
    (j : String) (rows rows' : List RecordRow)
    → find_row j (rows ++ rows') ≡ or_row (find_row j rows) (find_row j rows')
find_row-append j [] rows' = refl
find_row-append j (r ∷ rows) rows' = ground (arith, find_row-append j rows rows')

pub find_row-delete :
    (id j : String) (rows : List RecordRow)
    → find_row j (filter (λ r. not (r.id == id)) rows) ≡ (if id == j then none else find_row j rows)
find_row-delete id j [] = ground arith
find_row-delete id j (r ∷ rows) =
    ground (arith, find_row-delete id j rows, eq_iff r.id id, eq_iff r.id j, eq_iff id j)

abbrev pub archived_if : (RecordRow → Bool) → String → RecordRow → RecordRow
archived_if p ts r = if p r then as_archived ts r else r

pub find_row-archive_rows :
    (p : RecordRow → Bool) (ts j : String) (rows : List RecordRow)
    → find_row j (archive_rows p ts rows) ≡ Option.map (archived_if p ts) (find_row j rows)
unfolding archive_rows
find_row-archive_rows p ts j [] = refl
find_row-archive_rows p ts j (r ∷ rows) = ground (arith, find_row-archive_rows p ts j rows)

abbrev pub indexed_if : Kind → RecordRow → RecordRow
indexed_if kind r = if same_kind r.kind kind then record r { pending_reingest = false } else r

pub find_row-clear_pending :
    (kind : Kind) (j : String) (rows : List RecordRow)
    → find_row j (clear_pending_reingest kind rows) ≡ Option.map (indexed_if kind) (find_row j rows)
unfolding clear_pending_reingest
find_row-clear_pending kind j [] = refl
find_row-clear_pending kind j (r ∷ rows) = ground (arith, find_row-clear_pending kind j rows)

-- no row has the id
pub find_row-absent :
    (j : String) (rows : List RecordRow)
    → any (λ r. r.id == j) rows ≡ false
    → find_row j rows ≡ none
find_row-absent j [] h = refl
find_row-absent j (r ∷ rows) h = ground (arith, find_row-absent j rows)

pub find_row-id :
    (j : String) (rows : List RecordRow) {r : RecordRow} → find_row j rows ≡ some r → r.id ≡ j
find_row-id j [] h = cc
find_row-id j (x ∷ rows) {r} h = ground (arith, find_row-id j rows {r = r}, eq_iff x.id j)
