-- ===== src/QueueTable/Insert.antt =====
-- queueEnqueueLocked of src/db/queue.cpp at a position inside a queue.
use caudio.Prelude.{
  ℕ, ◌+◌, ◌^◌, ◌≤◌, ◌<◌, ◌≡◌, ◌≢◌, refl, ap, ◌∙◌, inl, inr, Bool-cases, true, false, ◌&&◌, List, [],
  ◌∷◌, ◌++◌, none, arith, leb, ◌==◌, length, is_neg, internal, unexpected, make_error,
}
use caudio.QueueTable.{
  QueueItem, Sql, or_default, taken_at, in_queue, update_rows, shift_up, or_same, insert_row,
  inserted, queue_enqueue,
}
use caudio.QueueTable.Gap.{Contiguous}
use caudio.QueueTable.Rows.{tracks}
use caudio.QueueTable.Places.{taken_at_lem}

taken_at-append_right :
    (q p : ℕ) (xs ys : List QueueItem) → taken_at q p ys ≡ true → taken_at q p (xs ++ ys) ≡ true
unfolding taken_at
taken_at-append_right q p [] ys h = h
taken_at-append_right q p (x ∷ xs) ys h = ground (arith, taken_at-append_right q p xs ys h)

-- The first row that moves up meets the row behind it.
update_up :
    (q pos m : ℕ) (done rs : List QueueItem)
    → m ≤ pos
    → pos + 1 < m + length (tracks q rs)
    → Contiguous q m rs
    → update_rows (λ (r : QueueItem). r.queue_id == q && leb pos r.position) (λ n. n + 1) done rs
      ≡ none
unfolding update_rows Contiguous tracks
update_up q pos m done [] low room h = absurd (omega arith)
update_up q pos m done (r ∷ rs) low room (one, h) = elim (Bool-cases (in_queue q r)) [
  | inr e ↦ rw e (update_up q pos m (done ++ r ∷ []) rs low (rw e at room) (rw e at h))
  | inl e ↦ elim (Bool-cases (leb pos m)) [
    | inr before ↦
        let stays : leb pos r.position ≡ false = ground (arith, one e, before) in
        let room' = rw e at room in
        rw (e, stays)
          (update_up q pos (m + 1) (done ++ r ∷ []) rs (ground (arith, before))
            (omega (arith, room')) (rw e at h))
    | inl here ↦
        let goes : leb pos r.position ≡ true = ground (arith, one e, here) in
        let same_queue : r.queue_id ≡ q = ground (arith, e) in
        let up : r.position + 1 ≡ m + 1 = omega (arith, one e) in
        let room' = rw e at room in
        let two : pos ≡ m = ground (arith, here, low) in
        let met : taken_at r.queue_id (r.position + 1) (done ++ rs) ≡ true =
          rw (same_queue, up)
            (taken_at-append_right q (m + 1) done rs (
              taken_at_lem q (m + 1) 0 (m + 1) rs (omega arith) (rw e at h)
              ∙ ground (arith, room', two))) in
        rw (e, goes, met) refl
  ]
]

insert_row_taken :
    (w : Sql) (q t p : ℕ) (rows : List QueueItem)
    → taken_at q p rows ≡ true
    → insert_row w q t p rows ≡ none
unfolding insert_row
insert_row_taken w q t p rows taken = rw taken refl

inserted_taken :
    (w : Sql) (q t p : ℕ) (rows : List QueueItem)
    → taken_at q p rows ≡ true
    → inserted w q t p rows ≡ (rows, unexpected (make_error internal w.errmsg))
unfolding inserted
inserted_taken w q t p rows taken = rw (inserted, insert_row_taken w q t p rows taken) refl

shift_up_fails :
    (q pos : ℕ) (rows : List QueueItem)
    → pos + 1 < length (tracks q rows)
    → Contiguous q 0 rows
    → shift_up q pos rows ≡ rows
unfolding shift_up
shift_up_fails q pos rows room h =
    ap (or_same rows) (update_up q pos 0 [] rows (omega arith) (omega (arith, room)) h)

enqueue_at :
    (w : Sql) (q t pos : ℕ) (rows : List QueueItem)
    → w.opened ≡ true
    → (t == 0) ≡ false
    → is_neg pos ≡ false
    → queue_enqueue w q t pos rows
      ≡ inserted w (or_default q) t pos (shift_up (or_default q) pos rows)
unfolding queue_enqueue
enqueue_at w q t pos rows opened given inside = rw (given, opened, inside) refl

-- A track other than 0 is not enqueued before two or more tracks of a queue whose positions have no
-- gap, in the order of the rows: the call fails with Internal and SQLite's message, and the table
-- is as before.
pub queue_enqueue_inside :
    (w : Sql) (qid t pos : ℕ) (rows : List QueueItem)
    → w.opened ≡ true
    → t ≢ 0
    → pos < 2 ^ 63
    → Contiguous (or_default qid) 0 rows
    → pos + 1 < length (tracks (or_default qid) rows)
    → queue_enqueue w qid t pos rows ≡ (rows, unexpected (make_error internal w.errmsg))
queue_enqueue_inside w qid t pos rows opened given inside h room =
    enqueue_at w qid t pos rows opened (ground (arith, given)) (ground (arith, inside))
    ∙ ap (inserted w q t pos) (shift_up_fails q pos rows room h)
    ∙ inserted_taken w q t pos rows
        (taken_at_lem q 0 pos pos rows (omega arith) h ∙ ground (arith, room))
  where
    q : ℕ
    q = or_default qid
