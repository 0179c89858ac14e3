-- ===== src/Engine/Traverse/Shuffled.antt =====
-- The order in which queueNextLocked of src/engine/engine.cpp visits the queue with shuffle on.

use native.Mathlib.Nat.{mod-eq_of_lt, mod_self}
use native.Mathlib.Decide.{dec_lt}
use caudio.Prelude.{
  ℕ, ◌+◌, ◌%◌, ◌≤◌, ◌<◌, ◌≡◌, ◌≢◌, refl, sym, ap, ◌∙◌, true, false, List, [], ◌∷◌, map, arith, word,
  length, get_or, ok,
}
use caudio.Engine.{Floats, Track, QueueState, World, Engine}
use caudio.Engine.Persist.{fetch_track_by_pos_locked, has_db}
use caudio.Engine.Traverse.Cycle.{next_run, cycle_run, queue-move_cursor, has_db-move_cursor}
use caudio.Engine.Traverse.{
  is_one, is_empty, positions, move_cursor, take_shuffled, queue_next_locked,
}

module _ {F : Type 0} ⦃fl : Floats F⦄ (w : World F) (track_at : ℕ → Track F) (p : List ℕ) where
  -- The track at index `i` of the shuffle order.
  abbrev pub item : ℕ → Track F
  item i = track_at (get_or p i 0)

  -- A queue whose shuffle order is `p`, none of whose tracks fails to load.
  pub record Draws (e : Engine F) : Type 0 where
    pub open_db : has_db w e ≡ true
    pub shuffled : e.queue.shuffle ≡ true
    pub named : e.queue.queue_id ≢ 0
    pub wraps : is_one e.queue.repeat ≡ false
    pub order : e.queue.perm ≡ p
    pub loads :
        (i : ℕ) → i < length p → w.db.queue_track_at e.queue.queue_id (get_or p i 0) ≡ ok (item i)
    pub nonempty : 0 < length p
    pub sized : length p < word
    pub placed : e.queue.cursor ≤ length p

  take_shuffled_lem :
      (e : Engine F)
      → Draws e
      → e.queue.cursor < length p
      → take_shuffled w e ≡ (move_cursor w (e.queue.cursor + 1) e, ok (item e.queue.cursor))
  unfolding take_shuffled fetch_track_by_pos_locked
  take_shuffled_lem e h lt = ground (
    arith,
    h.loads e.queue.cursor lt,
    h.open_db,
    h.order,
    h.sized,
    has_db-move_cursor w (e.queue.cursor + 1) e,
    queue-move_cursor w (e.queue.cursor + 1) e,
  )

  Draws-move_cursor : (c : ℕ) (e : Engine F) → c ≤ length p → Draws e → Draws (move_cursor w c e)
  Draws-move_cursor c e le h = record {
    open_db = has_db-move_cursor w c e ∙ h.open_db;
    shuffled = rw (queue-move_cursor w c e) h.shuffled;
    named = rw (queue-move_cursor w c e) h.named;
    wraps = rw (queue-move_cursor w c e) h.wraps;
    order = rw (queue-move_cursor w c e) h.order;
    loads = rw (queue-move_cursor w c e) h.loads;
    nonempty = h.nonempty;
    sized = h.sized;
    placed = rw (queue-move_cursor w c e) le;
  }

  has_order : (e : Engine F) → Draws e → is_empty e.queue.perm ≡ false
  has_order e h = rw h.order (filled p h.nonempty)
    where
      filled : (xs : List ℕ) → 0 < length xs → is_empty xs ≡ false
      filled [] lt = absurd (omega arith)
      filled (x ∷ xs) lt = refl

  next_inside :
      (e : Engine F)
      → Draws e
      → e.queue.cursor < length p
      → queue_next_locked w e ≡ take_shuffled w e
  unfolding queue_next_locked
  next_inside e h lt =
      ground (arith, h.shuffled, h.named, has_order e h, h.order, ap length h.order)

  -- At the end of the order `setShuffleLocked(true)` finds shuffle on and an order drawn, and
  -- returns at once.
  next_at_end :
      (e : Engine F)
      → Draws e
      → e.queue.cursor ≡ length p
      → queue_next_locked w e ≡ take_shuffled w (move_cursor w 0 e)
  unfolding queue_next_locked
  next_at_end e h at =
      ground (arith, h.shuffled, h.named, has_order e h, h.wraps, ap length h.order)

  pub record Drawn (e : Engine F) : Type 0 where
    pub still : Draws (queue_next_locked w e).0
    pub moved : (queue_next_locked w e).0.queue.cursor ≡ e.queue.cursor % length p + 1
    pub track : (queue_next_locked w e).1 ≡ ok (item (e.queue.cursor % length p))
    pub same_queue :
        (queue_next_locked w e).0.queue ≡ record e.queue { cursor = e.queue.cursor % length p + 1 }

  Drawn-by :
      (e e' : Engine F) (c : ℕ)
      → queue_next_locked w e ≡ take_shuffled w e'
      → Draws e'
      → e'.queue.cursor ≡ c
      → c < length p
      → c ≡ e.queue.cursor % length p
      → record e'.queue { cursor = c + 1 } ≡ record e.queue { cursor = c + 1 }
      → Drawn e
  Drawn-by e e' c run h stands lt at same = record {
    still = rw run' (Draws-move_cursor (c + 1) e' (omega arith) h);
    moved = rw (run', queue-move_cursor w (c + 1) e', ← at);
    track = rw (run', ← at);
    same_queue = rw (run', queue-move_cursor w (c + 1) e', ← at) same;
  }
    where
      run' : queue_next_locked w e ≡ (move_cursor w (c + 1) e', ok (item c))
      run' =
          run
          ∙ take_shuffled_lem e' h (omega arith)
          ∙ ap (λ (i : ℕ). (move_cursor w (i + 1) e', ok (item i))) stands

  pub next_Drawn : (e : Engine F) → Draws e → Drawn e
  next_Drawn e h = elim (dec_lt e.queue.cursor (length p)) [
    | yes lt ↦
        Drawn-by e e e.queue.cursor (next_inside e h lt) h refl lt (sym (mod-eq_of_lt lt)) refl
    | no ge ↦
        let at : e.queue.cursor ≡ length p = omega (arith, h.placed) in
        let e' = move_cursor w 0 e in
        Drawn-by e e' 0 (next_at_end e h at) (Draws-move_cursor 0 e (omega arith) h)
          (ap (λ (q : QueueState). q.cursor) (queue-move_cursor w 0 e)) h.nonempty
          (rw at (sym (mod_self (length p)))) (rw (queue-move_cursor w 0 e))
  ]

  -- From any cursor up to the end, `n` calls follow the one drawn order round and round: the end
  -- of the order does not draw a new one.
  pub next_run_shuffled :
      (n : ℕ) (e : Engine F)
      → Draws e
      → next_run w n e ≡ map (λ i. ok (item (i % length p))) (positions e.queue.cursor n)
  next_run_shuffled n e h =
      cycle_run w Draws (length p) item
        (λ e' h'. let s = next_Drawn e' h' in (s.still, s.moved, s.track)) n e.queue.cursor e h refl

  -- At the end of the order the next call plays its first track and keeps the order.
  pub wrap_keeps_order :
      (e : Engine F)
      → Draws e
      → e.queue.cursor ≡ length p
      → ((queue_next_locked w e).1 ≡ ok (track_at (get_or p 0 0)))
        × ((queue_next_locked w e).0.queue ≡ record e.queue { cursor = 1 })
  wrap_keeps_order e h at =
      let s = next_Drawn e h in
      let zeroth : e.queue.cursor % length p ≡ 0 = rw at (mod_self (length p)) in
      (
        s.track ∙ ap (λ (i : ℕ). ok (item i)) zeroth,
        s.same_queue ∙ ap (λ (i : ℕ). record e.queue { cursor = i + 1 }) zeroth,
      )
