-- ===== src/Engine/Events.antt =====
-- The event queue between src/engine/engine.cpp and its caller: pushEvent, drainEvents, drainAll.
use native.Mathlib.Decide.{dec_lt}
use caudio.Prelude.{
  ℕ, zero, suc, ◌+◌, ◌≤◌, ◌<◌, ◌≡◌, ◌⊎◌, inl, inr, refl, ap, ◌∙◌, true, false, List, [], ◌∷◌, ◌++◌,
  arith, word, length, take, drop, ok, unexpected, make_error, bad_state,
}
use caudio.Mpsc
use caudio.Mpsc.Fifo.{Holds, push-Holds, push_full, pop-Holds, pop_empty, size-Holds}
use caudio.Engine.{Floats, Engine, EngineEvent, Called}
use caudio.Engine.Play.{dispatched, push_event}
use caudio.Engine.Notified.{Notifies, dispatched-Notifies, prepend_lem}
use caudio.Engine.Settings.{drain, drain_events, drain_all}

module _ {F : Type 0} ⦃fl : Floats F⦄ where
  popped_none :
      (q : Mpsc.MpscQueue (EngineEvent F))
      → Holds q []
      → Holds (Mpsc.pop q).0 [] × ((Mpsc.pop q).1 ≡ unexpected (make_error bad_state "queue empty"))
  popped_none q h = rw (pop_empty q h) (h, refl)

  drain-Holds :
      (n : ℕ) (e : Engine F) (xs : List (EngineEvent F))
      → Holds e.events xs
      → Holds (drain n e).0.events (drop n xs) × ((drain n e).1 ≡ take n xs)
  unfolding drain
  drain-Holds zero e xs h = (h, refl)
  drain-Holds (suc n) e [] h = let (kept, r) = popped_none e.events h in rw (r, drain) (kept, refl)
  drain-Holds (suc n) e (x ∷ xs) h =
      let (kept, r) = pop-Holds e.events x xs h in
      let (rest, evs) = drain-Holds n (record e { events = (Mpsc.pop e.events).0 }) xs kept in
      rw (r, drain) (rest, ap (◌∷◌ x) evs)

  take_all : (n : ℕ) (xs : List (EngineEvent F)) → length xs ≤ n → take n xs ≡ xs
  take_all zero [] le = refl
  take_all zero (x ∷ xs) le = absurd (omega arith)
  take_all (suc n) [] le = refl
  take_all (suc n) (x ∷ xs) le = ap (◌∷◌ x) (take_all n xs (omega arith))

  drop_all : (n : ℕ) (xs : List (EngineEvent F)) → length xs ≤ n → drop n xs ≡ []
  drop_all zero [] le = refl
  drop_all zero (x ∷ xs) le = absurd (omega arith)
  drop_all (suc n) [] le = refl
  drop_all (suc n) (x ∷ xs) le = drop_all n xs (omega arith)

  -- `drainAll` ends, returns every pending event, oldest first, and leaves none.
  pub drain_all_lem :
      (e : Engine F) (xs : List (EngineEvent F))
      → Holds e.events xs
      → ((drain_all e).1 ≡ xs) × Holds (drain_all e).0.events []
  unfolding drain_all
  drain_all_lem e xs h =
      let (kept, evs) = drain-Holds (Mpsc.size e.events + 1) e xs h in
      let fits : length xs ≤ Mpsc.size e.events + 1 = omega (arith, size-Holds e.events xs h) in
      (evs ∙ take_all _ xs fits, rw (drop_all (Mpsc.size e.events + 1) xs fits) at kept)

  -- `drainEvents` with a buffer of `cap` events fills it with the oldest ones, as far as there are
  -- any, and leaves the others.
  pub drain_events_lem :
      (cap : ℕ) (e : Engine F) (xs : List (EngineEvent F))
      → Holds e.events xs
      → ((drain_events true true cap e).1 ≡ ok (take cap xs))
        × Holds (drain_events true true cap e).0.events (drop cap xs)
  unfolding drain_events
  drain_events_lem cap e xs h = let (kept, evs) = drain-Holds cap e xs h in (ap ok evs, kept)

  push_room :
      (ev : EngineEvent F) (e : Engine F) (xs : List (EngineEvent F))
      → Holds e.events xs
      → e.events.wr + 1 < word
      → length xs < e.events.cap
      → Holds (push_event ev e).events (xs ++ ev ∷ [])
        × ((push_event ev e).calls ≡ dispatched e.callbacks ev.type ev ++ e.calls)
  unfolding push_event
  push_room ev e xs h w room =
      let (kept, r) = push-Holds ev e.events xs h w room in
      rw r (kept, prepend_lem (dispatched e.callbacks ev.type ev) e.calls)

  -- With room in the queue an event is queued behind the pending ones, and the callback for its
  -- kind runs once where it is set: the start of a track with the track, its end with the track and
  -- the percentage heard, between 0 and 100 and 0 without a duration, a change with the queue, an
  -- error with its message; progress has no callback. With a full queue the event is dropped, no
  -- callback runs, and nothing changes. The write counter is below its last value, and 100 is not
  -- below 0.
  pub push_event_lem :
      (ev : EngineEvent F) (e : Engine F) (xs : List (EngineEvent F))
      → Holds e.events xs
      → e.events.wr + 1 < word
      → fl.lt (fl.of_int 100) (fl.of_int 0) ≡ false
      → (length xs < e.events.cap)
          × Holds (push_event ev e).events (xs ++ ev ∷ [])
          × ((new : List (Called F)) × Notifies e.callbacks ev new
              × ((push_event ev e).calls ≡ new ++ e.calls))
        ⊎ (length xs ≡ e.events.cap) × (push_event ev e ≡ e)
  unfolding push_event
  push_event_lem ev e xs h w usual = elim (dec_lt (length xs) e.events.cap) [
    | yes room ↦
        let (kept, told) = push_room ev e xs h w room in
        inl (room, kept, (_, dispatched-Notifies e.callbacks ev ev.type refl usual, told))
    | no full ↦
        let at : length xs ≡ e.events.cap = omega (arith, h.bounded) in
        inr (at, rw (push_full ev e.events xs h at))
  ]
