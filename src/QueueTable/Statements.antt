-- ===== src/QueueTable/Statements.antt =====
-- The branches of the functions of src/db/queue.cpp.
use caudio.Prelude.{
  ℕ, ◌≡◌, refl, true, false, not, List, [], ◌∷◌, ◌++◌, none, some, ◌==◌, length, invalid_arg,
  not_found, internal, ok, unexpected, make_error,
}
use caudio.QueueTable.{
  QueueItem, Sql, or_default, taken_at, where_rows, in_queue, next_position, next_id, insert_row,
  inserted, entries, delete_id, delete_at, shift_down, queue_enqueue, queue_dequeue, queue_remove,
  queue_clear, queue_list, queue_count,
}
use caudio.QueueTable.Places.{remove_at}
use caudio.QueueTable.Calls.{dequeues, failed, first_track, at_end, with_queue, promised}

pub enqueue_at_end :
    (w : Sql) (q t : ℕ) (rows : List QueueItem)
    → w.opened ≡ true
    → (t == 0) ≡ false
    → queue_enqueue w q t at_end rows
      ≡ inserted w (or_default q) t (next_position (or_default q) rows) rows
unfolding queue_enqueue
enqueue_at_end w q t rows opened given = rw (given, opened) refl

insert_row_free :
    (w : Sql) (q t p : ℕ) (rows : List QueueItem)
    → taken_at q p rows ≡ false
    → w.is_track t ≡ true
    → insert_row w q t p rows
      ≡ some (
          rows
          ++ record { id = next_id rows; queue_id = q; track_id = t; position = p; added = w.now }
            ∷ [])
unfolding insert_row
insert_row_free w q t p rows free known = rw (free, known) refl

insert_row_unknown :
    (w : Sql) (q t p : ℕ) (rows : List QueueItem)
    → taken_at q p rows ≡ false
    → w.is_track t ≡ false
    → insert_row w q t p rows ≡ none
unfolding insert_row
insert_row_unknown w q t p rows free known = rw (free, known) refl

pub inserted_free :
    (w : Sql) (q t p : ℕ) (rows : List QueueItem)
    → taken_at q p rows ≡ false
    → w.is_track t ≡ true
    → inserted w q t p rows ≡ (
      rows
          ++ record { id = next_id rows; queue_id = q; track_id = t; position = p; added = w.now }
            ∷ [],
      ok tt,
    )
unfolding inserted
inserted_free w q t p rows free known = rw (inserted, insert_row_free w q t p rows free known) refl

pub inserted_unknown :
    (w : Sql) (q t p : ℕ) (rows : List QueueItem)
    → taken_at q p rows ≡ false
    → w.is_track t ≡ false
    → inserted w q t p rows ≡ (rows, unexpected (make_error internal w.errmsg))
unfolding inserted
inserted_unknown w q t p rows free known =
    rw (inserted, insert_row_unknown w q t p rows free known) refl

pub zero_refused :
    (w : Sql) (q t : ℕ) (rows : List QueueItem)
    → (t == 0) ≡ true
    → queue_enqueue w q t at_end rows ≡ (rows, unexpected (make_error invalid_arg ""))
unfolding queue_enqueue
zero_refused w q t rows e = rw e refl

pub dequeue_none :
    (w : Sql) (q : ℕ) (rows : List QueueItem)
    → w.opened ≡ true
    → entries (or_default q) rows ≡ []
    → queue_dequeue w q rows ≡ (rows, unexpected (make_error not_found ""))
unfolding queue_dequeue
dequeue_none w q rows opened e = rw (opened, e) refl

pub dequeue_first :
    (w : Sql) (q : ℕ) (rows : List QueueItem) (it : QueueItem) (rest : List QueueItem)
    → w.opened ≡ true
    → entries (or_default q) rows ≡ it ∷ rest
    → queue_dequeue w q rows ≡ (shift_down (or_default q) it.position (delete_id it.id rows), ok it)
unfolding queue_dequeue
dequeue_first w q rows it rest opened e = rw (opened, e) refl

pub remove_first : (t : ℕ) (ts : List ℕ) → remove_at 0 (t ∷ ts) ≡ ts
unfolding remove_at
remove_first t ts = refl

pub promised_none :
    (w : Sql) (qid : ℕ) (queues : ℕ → List ℕ)
    → queues (or_default qid) ≡ []
    → promised w.is_track (dequeues qid) queues ≡ (queues, failed not_found)
unfolding promised
promised_none w qid queues e = rw (promised, e) refl

pub promised_first :
    (w : Sql) (qid : ℕ) (queues : ℕ → List ℕ) (t : ℕ) (ts : List ℕ)
    → queues (or_default qid) ≡ t ∷ ts
    → promised w.is_track (dequeues qid) queues
      ≡ (with_queue (or_default qid) ts queues, first_track t)
unfolding promised
promised_first w qid queues t ts e = rw (promised, e) refl

pub remove_there :
    (w : Sql) (q p : ℕ) (rows : List QueueItem)
    → w.opened ≡ true
    → taken_at (or_default q) p rows ≡ true
    → queue_remove w q p rows
      ≡ (shift_down (or_default q) p (delete_at (or_default q) p rows), ok tt)
unfolding queue_remove
remove_there w q p rows opened e = rw (opened, e) refl

pub remove_not_there :
    (w : Sql) (q p : ℕ) (rows : List QueueItem)
    → w.opened ≡ true
    → taken_at (or_default q) p rows ≡ false
    → queue_remove w q p rows ≡ (rows, unexpected (make_error not_found ""))
unfolding queue_remove
remove_not_there w q p rows opened e = rw (opened, e) refl

pub clear_lem :
    (w : Sql) (q : ℕ) (rows : List QueueItem)
    → w.opened ≡ true
    → queue_clear w q rows
      ≡ (where_rows (λ (r : QueueItem). not (in_queue (or_default q) r)) rows, ok tt)
unfolding queue_clear
clear_lem w q rows opened = rw opened refl

pub list_lem :
    (w : Sql) (q : ℕ) (rows : List QueueItem)
    → w.opened ≡ true
    → queue_list w q rows ≡ ok (entries (or_default q) rows)
unfolding queue_list
list_lem w q rows opened = rw opened refl

pub count_lem :
    (w : Sql) (q : ℕ) (rows : List QueueItem)
    → w.opened ≡ true
    → queue_count w q rows ≡ length (where_rows (in_queue (or_default q)) rows)
unfolding queue_count
count_lem w q rows opened = rw opened refl
