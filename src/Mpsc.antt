-- ===== src/Mpsc.antt =====
-- src/utils/mpsc_queue.hpp: the bounded queue behind the engine's events and the writer thread.
-- Each method holds `mutex_` for its whole body, so a call is one step; the condition variable
-- shows only as the `blocks` result of `wait_pop`.
pub mod Fifo
pub mod Refine
mod Tests
use caudio.Prelude.{
  ℕ, ◌+◌, ◌-◌, ◌%◌, Bool, true, false, not, ◌&&◌, List, Option, none, some, ◌==◌, leb,
  if◌then◌else◌, word, add_size, get_or, set, replicate, Expected, ok, unexpected, make_error, busy,
  bad_state, internal,
}

-- `wr` and `rd` are counters of 64 bits; the slot is `counter % cap`.
pub record MpscQueue {ℓ} (A : Type ℓ) : Type ℓ where
  pub cap : ℕ
  pub buf : List (Option A)
  pub wr : ℕ
  pub rd : ℕ

pub data Waited {ℓ} (A : Type ℓ) : Type ℓ where
  blocks : Waited A
  returns : Option A → Waited A

module _ {ℓ} {A : Type ℓ} where
  -- `MpscQueue(capacity)`: capacity 0 becomes 1.
  unfoldable pub make : ℕ → MpscQueue A
  make capacity =
      let cap = if capacity == 0 then 1 else capacity in
      record { cap = cap; buf = replicate cap none; wr = 0; rd = 0 }

  -- `wr_ - rd_` of `std::size_t`.
  unfoldable pub size : MpscQueue A → ℕ
  size q = (q.wr + word - q.rd) % word

  unfoldable pub empty : MpscQueue A → Bool
  empty q = q.wr == q.rd

  -- All of the copying `push`, the moving `push` and `emplace`.
  unfoldable pub push : A → MpscQueue A → MpscQueue A × Expected (Unit {0})
  unfolding size
  push value q =
      if leb q.cap (size q)
      then (q, unexpected (make_error busy "queue full"))
      else (record q { buf = set q.buf (q.wr % q.cap) (some value); wr = add_size q.wr 1 }, ok tt)

  -- Reading a slot that holds nothing is undefined behaviour; `Fifo.pop-Holds` rules it out.
  take_slot : Option A → MpscQueue A → MpscQueue A × Expected A
  take_slot none q = (q, unexpected (make_error internal "disengaged slot"))
  take_slot (some v) q =
      (record q { buf = set q.buf (q.rd % q.cap) none; rd = add_size q.rd 1 }, ok v)

  unfoldable pub pop : MpscQueue A → MpscQueue A × Expected A
  unfolding take_slot
  pop q =
      if q.wr == q.rd
      then (q, unexpected (make_error bad_state "queue empty"))
      else take_slot (get_or q.buf (q.rd % q.cap) none) q

  returned : MpscQueue A × Expected A → MpscQueue A × Waited A
  returned (q, ok v) = (q, returns (some v))
  returned (q, unexpected e) = (q, returns none)

  -- `waitPop(st)`, where `stop` says whether stop has been requested of `st`.
  unfoldable pub wait_pop : Bool → MpscQueue A → MpscQueue A × Waited A
  unfolding pop returned
  wait_pop stop q =
      if q.wr == q.rd && not stop
      then (q, blocks)
      else if stop
      then (q, returns none)
      else returned (pop q)
