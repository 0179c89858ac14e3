-- ===== src/WriterThread/Steps.antt =====
-- The branches of push and of the worker of src/db/write_thread.cpp.
use caudio.Prelude.{
  ◌+◌, ◌≤◌, ◌<◌, ◌≡◌, refl, ap, List, [], ◌∷◌, ◌++◌, arith, word, ok, unexpected, make_error, busy,
  bad_state, if◌then◌else◌,
}
use caudio.Mpsc.{MpscQueue, push, pop}
use caudio.Mpsc.Fifo.{Holds, pop-Holds}
use caudio.WriterThread.{WriteOperation, looping, taken, ended, WriterThread, push_operation, poll}

pub wr-push :
    (op : WriteOperation) (q : MpscQueue WriteOperation)
    → q.wr + 1 < word
    → (push op q).0.wr ≤ q.wr + 1
unfolding push
wr-push op q h = ground arith

pub wr-pop :
    (q : MpscQueue WriteOperation) (x : WriteOperation) (xs : List WriteOperation)
    → Holds q (x ∷ xs)
    → (pop q).0.wr ≡ q.wr
unfolding pop
wr-pop q x xs h = ground (arith, pop-Holds q x xs h)

pub push_taken :
    (op : WriteOperation) (s : WriterThread)
    → (push op s.queue).1 ≡ ok tt
    → (push_operation op s).0
      ≡ record s { queue = (push op s.queue).0; accepted = s.accepted ++ op ∷ [] }
unfolding push_operation
push_taken op s e = rw (push_operation, e) refl

pub push_refused :
    (op : WriteOperation) (s : WriterThread)
    → push op s.queue ≡ (s.queue, unexpected (make_error busy "queue full"))
    → (push_operation op s).0 ≡ s
unfolding push_operation
push_refused op s e =
    rw (push_operation, ap (λ t. t.1) e) (ap (λ q. record s { queue = q }) (ap (λ t. t.0) e))

pub poll_first :
    (op : WriteOperation) (s : WriterThread)
    → (pop s.queue).1 ≡ ok op
    → poll s ≡ record s { queue = (pop s.queue).0; worker = taken op }
unfolding poll
poll_first op s e = rw (poll, e) refl

pub poll_empty :
    (s : WriterThread)
    → pop s.queue ≡ (s.queue, unexpected (make_error bad_state "queue empty"))
    → poll s ≡ record s { worker = if s.stop_requested then ended else looping }
unfolding poll
poll_empty s e =
    rw (poll, ap (λ t. t.1) e)
      (ap (λ q. record s { queue = q; worker = if s.stop_requested then ended else looping })
        (ap (λ t. t.0) e))
