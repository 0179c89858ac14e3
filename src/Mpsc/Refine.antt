-- ===== src/Mpsc/Refine.antt =====
-- Any sequence of calls on the queue of mpsc_queue.hpp against a bounded list.
use caudio.Prelude.{
  ℕ, ◌+◌, ◌≤◌, ◌<◌, ◌≡◌, refl, ap, ap₂, ◌∙◌, Bool, true, false, List, [], ◌∷◌, ◌++◌, none, some,
  arith, leb, ◌==◌, if◌then◌else◌, word, length, Expected, ok, unexpected, make_error, busy,
  bad_state,
}
use native.Mathlib.Decide.{dec_lt}
use caudio.Mpsc.{MpscQueue, Waited, blocks, returns, make, push, pop, wait_pop}
use caudio.Mpsc.Fifo.{Holds, make-Holds, push-Holds, push_full, pop-Holds, pop_empty}

pub data Call {ℓ} (A : Type ℓ) : Type ℓ where
  pushes : A → Call A
  pops : Call A
  waits : Bool → Call A

pub data Reply {ℓ} (A : Type ℓ) : Type ℓ where
  pushed : Expected (Unit {0}) → Reply A
  popped : Expected A → Reply A
  waited : Waited A → Reply A

module _ {ℓ} {A : Type ℓ} where
  -- One call on the queue.
  step : MpscQueue A → Call A → MpscQueue A × Reply A
  step q (pushes v) = let (q', r) = push v q in (q', pushed r)
  step q pops = let (q', r) = pop q in (q', popped r)
  step q (waits stop) = let (q', r) = wait_pop stop q in (q', waited r)

  pub run : MpscQueue A → List (Call A) → List (Reply A)
  run q [] = []
  run q (c ∷ cs) = let (q', r) = step q c in r ∷ run q' cs

  -- What the queue promises: a list of at most `cap` values, oldest first.
  fifo_step : ℕ → List A → Call A → List A × Reply A
  fifo_step cap xs (pushes v) =
      if leb cap (length xs)
      then (xs, pushed (unexpected (make_error busy "queue full")))
      else (xs ++ v ∷ [], pushed (ok tt))
  fifo_step cap [] pops = ([], popped (unexpected (make_error bad_state "queue empty")))
  fifo_step cap (x ∷ xs) pops = (xs, popped (ok x))
  fifo_step cap xs (waits true) = (xs, waited (returns none))
  fifo_step cap [] (waits false) = ([], waited blocks)
  fifo_step cap (x ∷ xs) (waits false) = (xs, waited (returns (some x)))

  pub fifo_run : ℕ → List A → List (Call A) → List (Reply A)
  fifo_run cap xs [] = []
  fifo_run cap xs (c ∷ cs) = let (xs', r) = fifo_step cap xs c in r ∷ fifo_run cap xs' cs

  cap-step : (q : MpscQueue A) (c : Call A) → (step q c).0.cap ≡ q.cap
  unfolding step push pop wait_pop
  cap-step q (pushes v) = ground arith
  cap-step q pops = ground arith
  cap-step q (waits stop) = ground arith

  wr-step : (q : MpscQueue A) (c : Call A) → q.wr + 1 < word → (step q c).0.wr ≤ q.wr + 1
  unfolding step push pop wait_pop
  wr-step q (pushes v) w = ground arith
  wr-step q pops w = ground arith
  wr-step q (waits stop) w = ground arith

  wait_stopped : (q : MpscQueue A) → wait_pop true q ≡ (q, returns none)
  unfolding wait_pop
  wait_stopped q = ground arith

  wait_empty : (q : MpscQueue A) → Holds q [] → wait_pop false q ≡ (q, blocks)
  unfolding wait_pop
  wait_empty q h = ground (arith, h.counters)

  wait-Holds :
      (q : MpscQueue A) (x : A) (xs : List A)
      → Holds q (x ∷ xs)
      → Holds (wait_pop false q).0 xs × ((wait_pop false q).1 ≡ returns (some x))
  unfolding wait_pop
  wait-Holds q x xs h = ground (arith, h.counters, pop-Holds q x xs h)

  fifo_full :
      (v : A) (cap : ℕ) (xs : List A)
      → cap ≤ length xs
      → fifo_step cap xs (pushes v) ≡ (xs, pushed (unexpected (make_error busy "queue full")))
  unfolding fifo_step
  fifo_full v cap xs h = ground arith

  fifo_room :
      (v : A) (cap : ℕ) (xs : List A)
      → length xs < cap
      → fifo_step cap xs (pushes v) ≡ (xs ++ v ∷ [], pushed (ok tt))
  unfolding fifo_step
  fifo_room v cap xs h = ground arith

  push_refines :
      (v : A) (q : MpscQueue A) (xs : List A)
      → Holds q xs
      → q.wr + 1 < word
      → Holds (step q (pushes v)).0 (fifo_step q.cap xs (pushes v)).0
        × ((step q (pushes v)).1 ≡ (fifo_step q.cap xs (pushes v)).1)
  unfolding step
  push_refines v q xs h w = elim (dec_lt (length xs) q.cap) [
    | yes room ↦
        let (kept, r) = push-Holds v q xs h w room in
        rw (fifo_room v q.cap xs room) (kept, ap pushed r)
    | no full ↦
        rw (fifo_full v q.cap xs (omega arith), push_full v q xs h (omega (arith, h.bounded)))
          (h, refl)
  ]

  step_refines :
      (q : MpscQueue A) (xs : List A) (c : Call A)
      → Holds q xs
      → q.wr + 1 < word
      → Holds (step q c).0 (fifo_step q.cap xs c).0 × ((step q c).1 ≡ (fifo_step q.cap xs c).1)
  unfolding step fifo_step
  step_refines q xs (pushes v) h w = push_refines v q xs h w
  step_refines q [] pops h w = rw (pop_empty q h) (h, refl)
  step_refines q (x ∷ xs) pops h w = let (kept, r) = pop-Holds q x xs h in (kept, ap popped r)
  step_refines q [] (waits true) h w = rw (wait_stopped q) (h, refl)
  step_refines q (x ∷ xs) (waits true) h w = rw (wait_stopped q) (h, refl)
  step_refines q [] (waits false) h w = rw (wait_empty q h) (h, refl)
  step_refines q (x ∷ xs) (waits false) h w =
      let (kept, r) = wait-Holds q x xs h in (kept, ap waited r)

  run_refines :
      (cs : List (Call A)) (q : MpscQueue A) (xs : List A)
      → Holds q xs
      → q.wr + length cs < word
      → run q cs ≡ fifo_run q.cap xs cs
  unfolding run fifo_run
  run_refines [] q xs h w = refl
  run_refines (c ∷ cs) q xs h w =
      let (kept, r) = step_refines q xs c h (omega arith) in
      ap₂ ◌∷◌ r (
        run_refines cs (step q c).0 (fifo_step q.cap xs c).0 kept
          (omega (arith, wr-step q c (omega arith)))
        ∙ ap (λ n. fifo_run n (fifo_step q.cap xs c).0 cs) (cap-step q c))

  -- Every sequence of fewer than 2^64 calls on a fresh queue returns, call by call, what a list
  -- bounded by the capacity (1 for capacity 0) returns: `busy` exactly when it is full, the values
  -- in the order of their pushes, and on a requested stop nothing, with nothing taken.
  pub run-make_refines :
      (capacity : ℕ) (cs : List (Call A))
      → length cs < word
      → run (make capacity) cs ≡ fifo_run (if capacity == 0 then 1 else capacity) [] cs
  run-make_refines capacity cs w =
      unfold make in run_refines cs (make capacity) [] (make-Holds capacity) (omega arith)
