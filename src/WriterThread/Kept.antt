-- ===== src/WriterThread/Kept.antt =====
-- What holds behind each step of the writer thread of src/db/write_thread.cpp.
use native.Mathlib.Decide.{dec_lt}
use mathlib.Core.List.{append_assoc, append-nil}
use caudio.Prelude.{
  ℕ, ◌+◌, ◌≤◌, ◌<◌, ◌≡◌, refl, ap, sym, ◌∙◌, Bool, true, false, List, [], ◌∷◌, ◌++◌, arith, word,
  length, Expected, if◌then◌else◌, ◌&&◌,
}
use caudio.Mpsc.{empty}
use caudio.Mpsc.Fifo.{Holds, push-Holds, push_full, pop-Holds, pop_empty}
use caudio.WriterThread.{
  WriteOperation, Sqlite, Worker, looping, waiting, polling, taken, counted, executed, answering,
  ended, WriterThread, push_operation, answer, poll, work,
}
use caudio.WriterThread.Steps.{wr-push, wr-pop, push_taken, push_refused, poll_first, poll_empty}

-- Popped and not yet run.
unfoldable pub pending : Worker → List WriteOperation
pending (taken op) = op ∷ []
pending (counted op) = op ∷ []
pending other = []

-- Run, and the callback not yet made.
unfoldable pub owed : Sqlite → Worker → List (WriteOperation × Expected (Unit {0}))
unfolding answer
owed w (executed op) = answer w op
owed w (answering op) = answer w op
owed w other = []

unfoldable pub answers_for :
    Sqlite → List WriteOperation → List (WriteOperation × Expected (Unit {0}))
unfolding answer
answers_for w [] = []
answers_for w (op ∷ ops) = answer w op ++ answers_for w ops

unfoldable pub at_end : Worker → Bool
at_end ended = true
at_end other = false

pub record Inv (w : Sqlite) (n : ℕ) (s : WriterThread) (xs : List WriteOperation) : Type 0 where
  pub holds : Holds s.queue xs
  pub few : s.queue.wr ≤ n
  pub order : s.accepted ≡ s.ran ++ pending s.worker ++ s.dropped ++ xs
  pub no_drop : at_end s.worker ≡ false → s.dropped ≡ []
  pub answered : s.answers ++ owed w s.worker ≡ answers_for w s.ran

abbrev pub Kept : Sqlite → ℕ → WriterThread → Type 0
Kept w n s = (xs : List WriteOperation) × Inv w n s xs

answers_for-snoc :
    (w : Sqlite) (ops : List WriteOperation) (op : WriteOperation)
    → answers_for w (ops ++ op ∷ []) ≡ answers_for w ops ++ answer w op
unfolding answers_for
answers_for-snoc w [] op = append-nil (answer w op)
answers_for-snoc w (x ∷ xs) op =
    ap (λ t. answer w x ++ t) (answers_for-snoc w xs op)
    ∙ sym (append_assoc (answer w x) (answers_for w xs) (answer w op))

pub push-Kept :
    (w : Sqlite) (n : ℕ) (op : WriteOperation) (s : WriterThread)
    → n + 1 < word
    → Kept w n s
    → Kept w (n + 1) (push_operation op s).0
push-Kept w n op s small (xs, h) = elim (dec_lt (length xs) s.queue.cap) [
  | yes room ↦
      let (kept, r) = push-Holds op s.queue xs h.holds (omega (arith, h.few)) room in
      rw (push_taken op s r) (
        xs ++ op ∷ [],
        record {
          holds = kept;
          few = omega (arith, h.few, wr-push op s.queue (omega (arith, h.few)));
          order =
              ap (λ t. t ++ op ∷ []) h.order
              ∙ append_assoc (s.ran ++ pending s.worker ++ s.dropped) xs (op ∷ []);
          no_drop = h.no_drop;
          answered = h.answered;
        },
      )
  | no full ↦
      rw (push_refused op s (push_full op s.queue xs h.holds (omega (arith, h.holds.bounded)))) (
        xs,
        record {
          holds = h.holds;
          few = omega (arith, h.few);
          order = h.order;
          no_drop = h.no_drop;
          answered = h.answered;
        },
      )
]

-- The worker goes on with nothing in its hands.
idle-Kept :
    (w : Sqlite) (n : ℕ) (s : WriterThread) (next : Worker)
    → pending next ≡ []
    → owed w next ≡ []
    → pending s.worker ≡ []
    → owed w s.worker ≡ []
    → at_end s.worker ≡ false
    → Kept w n s
    → Kept w n (record s { worker = next })
idle-Kept w n s next p o p' o' alive (xs, h) = (
  xs,
  record {
    holds = h.holds;
    few = h.few;
    order = h.order ∙ ap (λ t. s.ran ++ t ++ s.dropped ++ xs) (p' ∙ sym p);
    no_drop = λ _. h.no_drop alive;
    answered = ap (λ t. s.answers ++ t) (o ∙ sym o') ∙ h.answered;
  },
)

rest_or_end :
    (w : Sqlite) (b : Bool) (next : Worker)
    → pending next ≡ []
    → owed w next ≡ []
    → (pending (if b then ended else next) ≡ []) × (owed w (if b then ended else next) ≡ [])
unfolding pending owed
rest_or_end w true next p o = (refl, refl)
rest_or_end w false next p o = (p, o)

poll-Kept :
    (w : Sqlite) (n : ℕ) (s : WriterThread) → s.worker ≡ polling → Kept w n s → Kept w n (poll s)
unfolding pending owed at_end
poll-Kept w n s here ([], h) =
    let (p, o) = rest_or_end w s.stop_requested looping refl refl in
    rw (poll_empty s (pop_empty s.queue h.holds)) (
      idle-Kept w n s (if s.stop_requested then ended else looping) p o (rw here refl)
        (rw here refl) (rw here refl) ([], h))
poll-Kept w n s here (x ∷ xs, h) =
    let (kept, r) = pop-Holds s.queue x xs h.holds in
    let none_dropped : s.dropped ≡ [] = h.no_drop (rw here refl) in
    let order = rw (here, none_dropped) at h.order in
    let answered = rw here at h.answered in
    rw (poll_first x s r) (
      xs,
      record {
        holds = kept;
        few = omega (arith, h.few, wr-pop s.queue x xs h.holds);
        order = rw none_dropped (order ∙ simp (append-nil, append_assoc));
        no_drop = λ _. none_dropped;
        answered = answered;
      },
    )

pub work-Kept :
    (w : Sqlite) (n : ℕ) (s : WriterThread) (here : Worker)
    → s.worker ≡ here
    → Kept w n s
    → Kept w n (work w s)
unfolding pending owed at_end work
work-Kept w n s looping e k =
    let (p, o) = rest_or_end w s.stop_requested waiting refl refl in
    rw (work, e)
      (idle-Kept w n s (if s.stop_requested then ended else waiting) p o (rw e refl) (rw e refl)
        (rw e refl) k)
work-Kept w n s waiting e k =
    let (p, o) = rest_or_end w (s.stop_requested && empty s.queue) polling refl refl in
    rw (work, e)
      (idle-Kept w n s (if s.stop_requested && empty s.queue then ended else polling) p o
        (rw e refl) (rw e refl) (rw e refl) k)
work-Kept w n s polling e k = rw (work, e) (poll-Kept w n s e k)
work-Kept w n s (taken op) e (xs, h) =
    let order = rw e at h.order in
    let answered = rw e at h.answered in
    let none_dropped = h.no_drop (rw e refl) in
    rw (work, e)
      (
        xs,
        record {
          holds = h.holds;
          few = h.few;
          order = order;
          no_drop = λ _. none_dropped;
          answered = answered;
        },
      )
work-Kept w n s (counted op) e (xs, h) =
    let order = rw e at h.order in
    let answered = rw e at h.answered in
    let none_dropped = h.no_drop (rw e refl) in
    rw (work, e)
      (
        xs,
        record {
          holds = h.holds;
          few = h.few;
          order = order ∙ simp (append-nil, append_assoc);
          no_drop = λ _. none_dropped;
          answered =
              ap (λ t. t ++ answer w op) (sym (append-nil s.answers) ∙ answered)
              ∙ sym (answers_for-snoc w s.ran op);
        },
      )
work-Kept w n s (executed op) e (xs, h) =
    let order = rw e at h.order in
    let answered = rw e at h.answered in
    let none_dropped = h.no_drop (rw e refl) in
    rw (work, e)
      (
        xs,
        record {
          holds = h.holds;
          few = h.few;
          order = order;
          no_drop = λ _. none_dropped;
          answered = answered;
        },
      )
work-Kept w n s (answering op) e (xs, h) =
    let order = rw e at h.order in
    let answered = rw e at h.answered in
    let none_dropped = h.no_drop (rw e refl) in
    rw (work, e)
      (
        xs,
        record {
          holds = h.holds;
          few = h.few;
          order = order;
          no_drop = λ _. none_dropped;
          answered = append-nil (s.answers ++ answer w op) ∙ answered;
        },
      )
work-Kept w n s ended e k = rw (work, e) k
