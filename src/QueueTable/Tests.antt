-- ===== src/QueueTable/Tests.antt =====
-- The table of src/db/queue.cpp at instances.
use caudio.Prelude.{
  ℕ, ok, not_found, false, none, suc, ◌≡◌, ◌≢◌, refl, arith, true, List, [], ◌∷◌, ltb, internal,
  unexpected, make_error, some,
}
use caudio.QueueTable.{
  QueueItem, Sql, or_default, where_rows, in_queue, queue_enqueue, queue_remove, queue_index_of,
}
use caudio.QueueTable.Gap.{Contiguous}
use caudio.QueueTable.Rows.{tracks}
use caudio.QueueTable.Calls.{
  Call, appends, dequeues, removes, clears, lists, counts, finds, run, promised_run,
}
use caudio.QueueTable.Refine.{run_refines_lists}
use caudio.QueueTable.Insert.{queue_enqueue_inside}
use caudio.QueueTable.Queues.{find_queue, get_queue, next_queue_id, set_queue_temp}
use caudio.QueueTable.QueueCalls.{
  creates, deletes, Tables, tables_after, queue_after, items_after, tables_after_lem,
}

-- A database with the tracks 1 to 99.
abbrev database : Sql
database = record {
  opened = true;
  is_track = λ t. ltb t 100;
  is_library = λ l. ltb l 10;
  now = 0;
  errmsg = "UNIQUE constraint failed: queue.queue_id, queue.position";
}

abbrev calls : List Call
calls =
    appends 0 5
    ∷ appends 2 6
    ∷ appends 1 7
    ∷ appends 1 8
    ∷ appends 1 100
    ∷ removes 1 1
    ∷ removes 1 2
    ∷ lists 0
    ∷ finds 1 8
    ∷ dequeues 2
    ∷ dequeues 2
    ∷ counts 1
    ∷ clears 1
    ∷ lists 1
    ∷ []

run_refines_lists_example : run database calls [] ≡ promised_run database.is_track calls (λ _. [])
run_refines_lists_example = run_refines_lists database calls refl

abbrev entry : ℕ → ℕ → ℕ → QueueItem
entry i t p = record { id = i; queue_id = 1; track_id = t; position = p; added = 0 }

abbrev three : List QueueItem
three = entry 1 5 0 ∷ entry 2 6 1 ∷ entry 3 7 2 ∷ []

three-Contiguous : Contiguous 1 0 three
unfolding Contiguous
three-Contiguous = (λ _. refl, (λ _. refl, (λ _. refl, tt)))

some_track : (n : ℕ) → suc n ≢ 0
some_track n e = omega arith

queue_enqueue_inside_example :
    queue_enqueue database 0 9 1 three ≡ (three, unexpected (make_error internal database.errmsg))
unfolding or_default tracks
queue_enqueue_inside_example =
    queue_enqueue_inside database 0 9 1 three refl (some_track 8) (omega arith) three-Contiguous
      (omega arith)

-- Before the last track there is room; the rows are then no longer in the order of their positions,
-- and removing the first one leaves a gap.
abbrev four : List QueueItem
four = entry 1 5 0 ∷ entry 2 6 1 ∷ entry 3 7 3 ∷ entry 4 9 2 ∷ []

enqueue_before_last : (queue_enqueue database 1 9 2 three).0 ≡ four
unfolding queue_enqueue
enqueue_before_last = refl

remove_leaves_gap :
    (queue_remove database 1 0 four).0 ≡ entry 2 6 1 ∷ entry 3 7 3 ∷ entry 4 9 2 ∷ []
unfolding queue_remove
remove_leaves_gap = refl

index_found : queue_index_of database 1 7 four ≡ some 3
unfolding queue_index_of
index_found = refl

abbrev tables : Tables
tables = record {
  queues =
      record { id = 1; name = "default"; repeat_mode = 0; temp = false; library_id = 1 }
      ∷ record { id = 4; name = "party"; repeat_mode = 2; temp = true; library_id = 1 }
      ∷ [];
  items = three;
}

tables_after_lem_example :
    ((k : ℕ)
      → (find_queue k (tables_after database (deletes 0) tables).queues
          ≡ queue_after database (deletes 0) tables.queues k)
        × (where_rows (in_queue k) (tables_after database (deletes 0) tables).items
            ≡ items_after (deletes 0) three k))
    × (find_queue (next_queue_id tables.queues) tables.queues ≡ none)
tables_after_lem_example = tables_after_lem database (deletes 0) tables refl

new_queue :
    get_queue database 5 (tables_after database (creates "quiet" 1) tables).queues
    ≡ ok (record { id = 5; name = "quiet"; repeat_mode = 0; temp = false; library_id = 1 })
unfolding get_queue tables_after
new_queue = refl

temporary : (set_queue_temp database 9 true tables.queues).1 ≡ unexpected (make_error not_found "")
unfolding set_queue_temp
temporary = refl
