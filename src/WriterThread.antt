-- ===== src/WriterThread.antt =====
-- WriterThread of src/db/write_thread.cpp: operations pushed on an event queue and run one by one by
-- a worker, whose steps interleave with the calls of other threads.
pub mod Steps
pub mod Kept
pub mod Order
mod Tests
use Prim.Native.String.{String}
use caudio.Prelude.{
  ℕ, ◌+◌, ◌-◌, Bool, true, false, not, ◌&&◌, List, [], ◌∷◌, ◌++◌, Option, none, some, ◌==◌,
  if◌then◌else◌, Expected, ok, unexpected, make_error, corrupt, is_empty_string,
}
use caudio.Mpsc.{MpscQueue, make, push, pop, empty}

-- WriteOperation: its text, whether it has a statement, whether it has a callback.
pub record WriteOperation : Type 0 where
  pub sql : String
  pub stmt : Bool
  pub cb : Bool

-- The database, and the message with which SQLite refuses an operation.
pub record Sqlite : Type 0 where
  pub opened : Bool
  pub refuses : WriteOperation → Option String

unfoldable pub outcome : Sqlite → WriteOperation → Expected (Unit {0})
outcome w op =
    if op.stmt
    then elim (w.refuses op) [ none ↦ ok tt | some m ↦ unexpected (make_error corrupt m) ]
    else if not (is_empty_string op.sql) && w.opened
    then elim (w.refuses op) [ none ↦ ok tt | some m ↦ unexpected (make_error corrupt m) ]
    else ok tt

-- Where the worker stands: at the test of its loop, behind the wait, with an operation that it has
-- popped, counted in in_flight_, run, and counted out again, or behind the loop.
pub data Worker : Type 0 where
  looping polling ended : Worker
  waiting : Worker
  taken counted : WriteOperation → Worker
  executed answering : WriteOperation → Worker

-- The thread, and what has happened: the operations that push took, those that ran, those that
-- close dropped, and the callbacks that were made.
pub record WriterThread : Type 0 where
  pub queue : MpscQueue WriteOperation
  pub worker : Worker
  pub in_flight : ℕ
  pub stop_requested : Bool
  pub accepted : List WriteOperation
  pub ran : List WriteOperation
  pub dropped : List WriteOperation
  pub answers : List (WriteOperation × Expected (Unit {0}))

unfoldable pub opened_thread : ℕ → WriterThread
opened_thread batch = record {
  queue = make (if batch == 0 then 256 else batch);
  worker = looping;
  in_flight = 0;
  stop_requested = false;
  accepted = [];
  ran = [];
  dropped = [];
  answers = [];
}

unfoldable pub push_operation : WriteOperation → WriterThread → WriterThread × Expected (Unit {0})
push_operation op s =
    let (q, r) = push op s.queue in
    elim r [
      | ok _ ↦ (record s { queue = q; accepted = s.accepted ++ op ∷ [] }, ok tt)
      | unexpected e ↦ (record s { queue = q }, unexpected e)
    ]

-- The test that flush waits for.
unfoldable pub flushed : WriterThread → Bool
flushed s = empty s.queue && s.in_flight == 0

-- What the callback of an operation is given, where it has one.
unfoldable pub answer : Sqlite → WriteOperation → List (WriteOperation × Expected (Unit {0}))
unfolding outcome
answer w op = if op.cb then (op, outcome w op) ∷ [] else []

-- `auto popped = queue_->pop()` and what follows from it.
unfoldable pub poll : WriterThread → WriterThread
poll s =
    let (q, r) = pop s.queue in
    elim r [
      | ok op ↦ record s { queue = q; worker = taken op }
      | unexpected e ↦ record s { queue = q; worker = if s.stop_requested then ended else looping }
    ]

-- One step of the worker. The wait ends when the queue has an operation, at a stop, and after
-- 200 milliseconds, so at any time.
unfoldable pub work : Sqlite → WriterThread → WriterThread
unfolding poll answer
work w s = elim s.worker [
  | looping ↦ record s { worker = if s.stop_requested then ended else waiting }
  | waiting ↦ record s { worker = if s.stop_requested && empty s.queue then ended else polling }
  | polling ↦ poll s
  | taken op ↦ record s { worker = counted op; in_flight = s.in_flight + 1 }
  | counted op ↦ record s { worker = executed op; ran = s.ran ++ op ∷ [] }
  | executed op ↦ record s { worker = answering op; in_flight = s.in_flight - 1 }
  | answering op ↦ record s { worker = looping; answers = s.answers ++ answer w op }
  | ended ↦ s
]

-- `auto v = queue_->pop()` of close.
unfoldable pub discard : WriterThread → WriterThread
discard s =
    let (q, r) = pop s.queue in
    elim r [
      | ok op ↦ record s { queue = q; dropped = s.dropped ++ op ∷ [] }
      | unexpected e ↦ record s { queue = q }
    ]

-- One turn of the loop of close, behind the join of the worker.
unfoldable pub drop_one : WriterThread → WriterThread
unfolding discard
drop_one s = elim s.worker [ ended ↦ discard s | other ↦ s ]

pub data Move : Type 0 where
  pushes : WriteOperation → Move
  works requests_stop drops : Move

unfoldable pub move : Sqlite → Move → WriterThread → WriterThread
unfolding push_operation work drop_one
move w (pushes op) s = (push_operation op s).0
move w works s = work w s
move w requests_stop s = record s { stop_requested = true }
move w drops s = drop_one s

unfoldable pub run : Sqlite → List Move → WriterThread → WriterThread
unfolding move
run w [] s = s
run w (m ∷ ms) s = run w ms (move w m s)
