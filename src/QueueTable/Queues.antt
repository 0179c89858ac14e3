-- ===== src/QueueTable/Queues.antt =====
-- The table of queues of src/db/queue.cpp: each statement as the function on the rows, by id.
use Prim.Native.String.{String}
use caudio.Prelude.{
  ℕ, ◌+◌, Bool, false, not, List, [], ◌∷◌, ◌++◌, Option, none, some, leb, ◌==◌, if◌then◌else◌,
  Expected, ok, unexpected, make_error, invalid_arg, not_found, internal, is_empty_string,
}
use caudio.QueueTable.{QueueItem, Sql, or_default, where_rows, in_queue}

-- Queue, and a row of the table.
pub record Queue : Type 0 where
  pub id : ℕ
  pub name : String
  pub repeat_mode : ℕ
  pub temp : Bool
  pub library_id : ℕ

-- SELECT ... FROM queues WHERE id=?
unfoldable pub find_queue : ℕ → List Queue → Option Queue
find_queue q [] = none
find_queue q (r ∷ rs) = let rest = find_queue q rs in if r.id == q then some r else rest

unfoldable pub get_queue : Sql → ℕ → List Queue → Expected Queue
unfolding or_default find_queue
get_queue w qid rows =
    if not w.opened
    then unexpected (make_error internal "no db")
    else elim (find_queue (or_default qid) rows) [
      | none ↦ unexpected (make_error not_found "")
      | some q ↦ ok q
    ]

-- ORDER BY id is the order of the rows.
unfoldable pub list_queues : Sql → List Queue → Expected (List Queue)
list_queues w rows = if not w.opened then unexpected (make_error internal "no db") else ok rows

unfoldable pub next_queue_id : List Queue → ℕ
next_queue_id [] = 1
next_queue_id (r ∷ rs) = let rest = next_queue_id rs in if leb rest r.id then r.id + 1 else rest

-- The result is the id of the new row.
unfoldable pub create_queue : Sql → String → ℕ → List Queue → List Queue × Expected ℕ
unfolding next_queue_id
create_queue w name library_id rows =
    if is_empty_string name
    then (rows, unexpected (make_error invalid_arg ""))
    else if not w.opened
    then (rows, unexpected (make_error internal "no db"))
    else if not (w.is_library library_id)
    then (rows, unexpected (make_error internal w.errmsg))
    else (
      rows
          ++ record {
            id = next_queue_id rows;
            name = name;
            repeat_mode = 0;
            temp = false;
            library_id = library_id;
          }
            ∷ [],
      ok (next_queue_id rows),
    )

-- DELETE FROM queues WHERE id=?
unfoldable pub delete_queue_row : ℕ → List Queue → List Queue
delete_queue_row q [] = []
delete_queue_row q (r ∷ rs) =
    let rest = delete_queue_row q rs in if r.id == q then rest else r ∷ rest

-- UPDATE queues SET ... WHERE id=?
unfoldable pub update_queue : ℕ → (Queue → Queue) → List Queue → List Queue
update_queue q f [] = []
update_queue q f (r ∷ rs) =
    let rest = update_queue q f rs in if r.id == q then f r ∷ rest else r ∷ rest

-- sqlite3_changes is 0 where no row has the id.
unfoldable pub changed : ℕ → List Queue → Expected (Unit {0})
unfolding find_queue
changed q rows = elim (find_queue q rows) [
  | none ↦ unexpected (make_error not_found "")
  | some _ ↦ ok tt
]

-- The entries go first, whether or not there is such a queue.
unfoldable pub delete_queue :
    Sql → ℕ → List Queue → List QueueItem → (List Queue × List QueueItem) × Expected (Unit {0})
unfolding or_default delete_queue_row changed
delete_queue w qid rows items =
    if not w.opened then ((rows, items), unexpected (make_error internal "no db")) else (
      (
        delete_queue_row (or_default qid) rows,
        where_rows (λ (r : QueueItem). not (in_queue (or_default qid) r)) items,
      ),
      changed (or_default qid) rows,
    )

abbrev pub with_repeat : ℕ → Queue → Queue
with_repeat mode q = record q { repeat_mode = mode }

abbrev pub with_temp : Bool → Queue → Queue
with_temp temp q = record q { temp = temp }

unfoldable pub set_queue_repeat : Sql → ℕ → ℕ → List Queue → List Queue × Expected (Unit {0})
unfolding or_default update_queue changed
set_queue_repeat w qid mode rows =
    if not w.opened
    then (rows, unexpected (make_error internal "no db"))
    else (update_queue (or_default qid) (with_repeat mode) rows, changed (or_default qid) rows)

unfoldable pub set_queue_temp : Sql → ℕ → Bool → List Queue → List Queue × Expected (Unit {0})
unfolding or_default update_queue changed
set_queue_temp w qid temp rows =
    if not w.opened
    then (rows, unexpected (make_error internal "no db"))
    else (update_queue (or_default qid) (with_temp temp) rows, changed (or_default qid) rows)
