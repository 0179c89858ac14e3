-- ===== src/QueueTable.antt =====
-- The table of queue entries of src/db/queue.cpp, with the columns and the constraints that
-- src/db/core.cpp gives it. Each SQL statement is the function on the rows that it stands for. The
-- rows are listed by id, which is the order in which SQLite's UPDATE visits them.
pub mod Gap
pub mod Shift
pub mod Rows
pub mod Places
pub mod Calls
pub mod Stands
pub mod Index
pub mod Statements
pub mod Refine
pub mod Insert
pub mod Queues
pub mod QueueCalls
mod Tests
use Prim.Native.String.{String}
use caudio.Prelude.{
  ℕ, zero, suc, ◌+◌, ◌-◌, Bool, true, false, not, ◌&&◌, ◌||◌, List, [], ◌∷◌, ◌++◌, map, Option,
  none, some, ltb, leb, ◌==◌, if◌then◌else◌, is_neg, length, Expected, ok, unexpected, make_error,
  invalid_arg, not_found, internal,
}

-- QueueItem, and a row of the table. Positions are not negative.
pub record QueueItem : Type 0 where
  id : ℕ
  queue_id : ℕ
  track_id : ℕ
  position : ℕ
  added : ℕ

-- What a call finds besides the table: whether there is a database, the ids in the tables of tracks and of libraries,
-- the time, and the text of SQLite's last error.
pub record Sql : Type 0 where
  opened : Bool
  is_track : ℕ → Bool
  is_library : ℕ → Bool
  now : ℕ
  errmsg : String

unfoldable pub or_default : ℕ → ℕ
or_default qid = if qid == 0 then 1 else qid

-- UNIQUE(queue_id, position).
unfoldable pub taken_at : ℕ → ℕ → List QueueItem → Bool
taken_at q pos [] = false
taken_at q pos (r ∷ rs) = (r.queue_id == q && r.position == pos) || taken_at q pos rs

-- The rows that a WHERE clause names, and the others.
abbrev pub where_rows : (QueueItem → Bool) → List QueueItem → List QueueItem
where_rows p [] = []
where_rows p (r ∷ rs) = let rest = where_rows p rs in if p r then r ∷ rest else rest

-- UPDATE queue SET position: row by row, none where a row meets a position that is taken; the
-- statement then changes nothing.
unfoldable pub update_rows :
    (QueueItem → Bool) → (ℕ → ℕ) → List QueueItem → List QueueItem → Option (List QueueItem)
unfolding taken_at
update_rows p f done [] = some done
update_rows p f done (r ∷ rs) =
    let r' = record r { position = f r.position } in
    let moved = update_rows p f (done ++ r' ∷ []) rs in
    let kept = update_rows p f (done ++ r ∷ []) rs in
    if p r then (if taken_at r'.queue_id r'.position (done ++ rs) then none else moved) else kept

-- The result of an UPDATE is dropped: the rows are as before where it fails.
abbrev pub or_same : List QueueItem → Option (List QueueItem) → List QueueItem
or_same rows none = rows
or_same rows (some changed) = changed

-- UPDATE queue SET position=position+1 WHERE queue_id=? AND position>=?
unfoldable pub shift_up : ℕ → ℕ → List QueueItem → List QueueItem
unfolding update_rows
shift_up q pos rows =
    or_same rows
      (update_rows (λ (r : QueueItem). r.queue_id == q && leb pos r.position) (λ n. n + 1) [] rows)

-- UPDATE queue SET position=position-1 WHERE queue_id=? AND position>?
unfoldable pub shift_down : ℕ → ℕ → List QueueItem → List QueueItem
unfolding update_rows
shift_down q pos rows =
    or_same rows
      (update_rows (λ (r : QueueItem). r.queue_id == q && ltb pos r.position) (λ n. n - 1) [] rows)

-- SELECT COALESCE(MAX(position), -1)+1 FROM queue WHERE queue_id=?
unfoldable pub next_position : ℕ → List QueueItem → ℕ
next_position q [] = 0
next_position q (r ∷ rs) =
    let rest = next_position q rs in
    if r.queue_id == q && leb rest r.position then r.position + 1 else rest

-- The id of a new row.
unfoldable pub next_id : List QueueItem → ℕ
next_id [] = 1
next_id (r ∷ rs) = let rest = next_id rs in if leb rest r.id then r.id + 1 else rest

-- INSERT INTO queue (queue_id, track_id, position) VALUES (?,?,?), with the constraints of the table.
unfoldable pub insert_row : Sql → ℕ → ℕ → ℕ → List QueueItem → Option (List QueueItem)
unfolding taken_at next_id
insert_row w q tid pos rows =
    if taken_at q pos rows || not (w.is_track tid)
    then none
    else some (
        rows
        ++ record { id = next_id rows; queue_id = q; track_id = tid; position = pos; added = w.now }
          ∷ [])

unfoldable pub inserted : Sql → ℕ → ℕ → ℕ → List QueueItem → List QueueItem × Expected (Unit {0})
unfolding insert_row
inserted w q tid pos rows = elim (insert_row w q tid pos rows) [
  | none ↦ (rows, unexpected (make_error internal w.errmsg))
  | some changed ↦ (changed, ok tt)
]

unfoldable pub queue_enqueue :
    Sql → ℕ → ℕ → ℕ → List QueueItem → List QueueItem × Expected (Unit {0})
unfolding or_default shift_up next_position inserted
queue_enqueue w qid tid pos rows =
    if tid == 0
    then (rows, unexpected (make_error invalid_arg ""))
    else if not w.opened
    then (rows, unexpected (make_error internal "no db"))
    else if is_neg pos
    then inserted w (or_default qid) tid (next_position (or_default qid) rows) rows
    else inserted w (or_default qid) tid pos (shift_up (or_default qid) pos rows)

-- ORDER BY position.
unfoldable pub insert_sorted : QueueItem → List QueueItem → List QueueItem
insert_sorted r [] = r ∷ []
insert_sorted r (s ∷ rs) =
    let rest = insert_sorted r rs in if leb r.position s.position then r ∷ s ∷ rs else s ∷ rest

unfoldable pub by_position : List QueueItem → List QueueItem
unfolding insert_sorted
by_position [] = []
by_position (r ∷ rs) = insert_sorted r (by_position rs)

abbrev pub in_queue : ℕ → QueueItem → Bool
in_queue q r = r.queue_id == q

unfoldable pub entries : ℕ → List QueueItem → List QueueItem
unfolding by_position
entries q rows = by_position (where_rows (in_queue q) rows)

-- DELETE FROM queue WHERE id=?
abbrev pub delete_id : ℕ → List QueueItem → List QueueItem
delete_id i rows = where_rows (λ (r : QueueItem). not (r.id == i)) rows

unfoldable pub queue_dequeue : Sql → ℕ → List QueueItem → List QueueItem × Expected QueueItem
unfolding or_default entries shift_down
queue_dequeue w qid rows =
    if not w.opened
    then (rows, unexpected (make_error internal "no db"))
    else elim (entries (or_default qid) rows) [
      | [] ↦ (rows, unexpected (make_error not_found ""))
      | it ∷ rest ↦ (shift_down (or_default qid) it.position (delete_id it.id rows), ok it)
    ]

-- DELETE FROM queue WHERE queue_id=? AND position=?; sqlite3_changes is 0 where no row goes.
abbrev pub delete_at : ℕ → ℕ → List QueueItem → List QueueItem
delete_at q pos rows =
    where_rows (λ (r : QueueItem). not (r.queue_id == q && r.position == pos)) rows

unfoldable pub queue_remove : Sql → ℕ → ℕ → List QueueItem → List QueueItem × Expected (Unit {0})
unfolding or_default shift_down taken_at
queue_remove w qid pos rows =
    if not w.opened
    then (rows, unexpected (make_error internal "no db"))
    else if not (taken_at (or_default qid) pos rows)
    then (rows, unexpected (make_error not_found ""))
    else (shift_down (or_default qid) pos (delete_at (or_default qid) pos rows), ok tt)

unfoldable pub queue_clear : Sql → ℕ → List QueueItem → List QueueItem × Expected (Unit {0})
unfolding or_default
queue_clear w qid rows =
    if not w.opened
    then (rows, unexpected (make_error internal "no db"))
    else (where_rows (λ (r : QueueItem). not (in_queue (or_default qid) r)) rows, ok tt)

unfoldable pub queue_list : Sql → ℕ → List QueueItem → Expected (List QueueItem)
unfolding or_default entries
queue_list w qid rows =
    if not w.opened
    then unexpected (make_error internal "no db")
    else ok (entries (or_default qid) rows)

unfoldable pub queue_count : Sql → ℕ → List QueueItem → ℕ
unfolding or_default
queue_count w qid rows =
    if not w.opened then 0 else length (where_rows (in_queue (or_default qid)) rows)

-- SELECT MIN(position) FROM queue WHERE queue_id=? AND track_id=?
unfoldable pub min_position : ℕ → ℕ → List QueueItem → Option ℕ
min_position q tid [] = none
min_position q tid (r ∷ rs) =
    let rest = min_position q tid rs in
    if r.queue_id == q && r.track_id == tid
    then elim rest [
      | none ↦ some r.position
      | some pos ↦ some (if leb r.position pos then r.position else pos)
    ]
    else rest

unfoldable pub queue_index_of : Sql → ℕ → ℕ → List QueueItem → Option ℕ
unfolding or_default min_position
queue_index_of w qid tid rows =
    if not w.opened || tid == 0 then none else elim (min_position (or_default qid) tid rows) [
      | none ↦ none
      | some pos ↦ some (
          length (
            where_rows (λ (r : QueueItem). r.queue_id == or_default qid && ltb r.position pos)
              rows))
    ]
