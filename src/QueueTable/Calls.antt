-- ===== src/QueueTable/Calls.antt =====
-- Calls on the table of src/db/queue.cpp against lists of tracks.
use native.Mathlib.Decide.{ℕ_discrete}
use mathlib.Core.Logic.{ite}
use caudio.Prelude.{
  ℕ, Bool, List, [], ◌∷◌, ◌++◌, map, Option, none, ltb, ◌==◌, if◌then◌else◌, length, StatusCode,
  invalid_arg, not_found, internal, Expected, ok, unexpected,
}
use caudio.QueueTable.{
  QueueItem, Sql, or_default, queue_enqueue, queue_dequeue, queue_remove, queue_clear, queue_list,
  queue_count, queue_index_of,
}
use caudio.QueueTable.Index.{position_of}
use caudio.QueueTable.Places.{remove_at}

-- Calls that leave no gap between positions: `appends` is queueEnqueueLocked with position -1.
pub data Call : Type 0 where
  appends : ℕ → ℕ → Call
  dequeues clears lists counts : ℕ → Call
  removes finds : ℕ → ℕ → Call

-- What a caller sees of the results.
pub data Reply : Type 0 where
  succeeded : Reply
  failed : StatusCode → Reply
  first_track : ℕ → Reply
  all_tracks : List ℕ → Reply
  number : ℕ → Reply
  place : Option ℕ → Reply

unfoldable pub reply : Expected (Unit {0}) → Reply
reply (ok _) = succeeded
reply (unexpected e) = failed e.code

unfoldable pub item_reply : Expected QueueItem → Reply
item_reply (ok it) = first_track it.track_id
item_reply (unexpected e) = failed e.code

unfoldable pub list_reply : Expected (List QueueItem) → Reply
list_reply (ok items) = all_tracks (map (λ (r : QueueItem). r.track_id) items)
list_reply (unexpected e) = failed e.code

-- The bits of -1.
abbrev pub at_end : ℕ
at_end = 0xffff_ffff_ffff_ffff

unfoldable pub call : Sql → Call → List QueueItem → List QueueItem × Reply
unfolding reply item_reply list_reply
call w (appends q t) rows = let (rows', r) = queue_enqueue w q t at_end rows in (rows', reply r)
call w (dequeues q) rows = let (rows', r) = queue_dequeue w q rows in (rows', item_reply r)
call w (removes q n) rows = let (rows', r) = queue_remove w q n rows in (rows', reply r)
call w (clears q) rows = let (rows', r) = queue_clear w q rows in (rows', reply r)
call w (lists q) rows = (rows, list_reply (queue_list w q rows))
call w (counts q) rows = (rows, number (queue_count w q rows))
call w (finds q t) rows = (rows, place (queue_index_of w q t rows))

unfoldable pub run : Sql → List Call → List QueueItem → List Reply
unfolding call
run w [] rows = []
run w (c ∷ cs) rows = let (rows', r) = call w c rows in r ∷ run w cs rows'

-- What the table promises: a list of tracks for each queue.
abbrev pub with_queue : ℕ → List ℕ → (ℕ → List ℕ) → ℕ → List ℕ
with_queue q ts queues k = ite (ℕ_discrete q k) ts (queues k)

unfoldable pub promised : (ℕ → Bool) → Call → (ℕ → List ℕ) → (ℕ → List ℕ) × Reply
promised is_track (appends qid t) queues =
    let q = or_default qid in
    if t == 0
    then (queues, failed invalid_arg)
    else if is_track t
    then (with_queue q (queues q ++ t ∷ []) queues, succeeded)
    else (queues, failed internal)
promised is_track (dequeues qid) queues =
    let q = or_default qid in
    elim (queues q) [
      | [] ↦ (queues, failed not_found)
      | t ∷ ts ↦ (with_queue q ts queues, first_track t)
    ]
promised is_track (removes qid n) queues =
    let q = or_default qid in
    if ltb n (length (queues q))
    then (with_queue q (remove_at n (queues q)) queues, succeeded)
    else (queues, failed not_found)
promised is_track (clears qid) queues = (with_queue (or_default qid) [] queues, succeeded)
promised is_track (lists qid) queues = (queues, all_tracks (queues (or_default qid)))
promised is_track (counts qid) queues = (queues, number (length (queues (or_default qid))))
promised is_track (finds qid t) queues =
    (queues, place (if t == 0 then none else position_of t (queues (or_default qid))))

unfoldable pub promised_run : (ℕ → Bool) → List Call → (ℕ → List ℕ) → List Reply
unfolding promised
promised_run is_track [] queues = []
promised_run is_track (c ∷ cs) queues =
    let (queues', r) = promised is_track c queues in r ∷ promised_run is_track cs queues'
