-- ===== src/Engine/Traverse/Linear.antt =====
-- The order in which queueNextLocked and queuePrevLocked of src/engine/engine.cpp visit the queue
-- with shuffle off.
use native.Mathlib.Nat.{mod-eq_of_lt, mod_self}
use native.Mathlib.Decide.{dec_lt}
use caudio.Prelude.{
  ℕ, ◌+◌, ◌-◌, ◌%◌, ◌≤◌, ◌<◌, ◌≡◌, ◌≢◌, refl, sym, ap, ◌∙◌, true, false, map, arith, word, ok,
}
use caudio.Engine.{Floats, Track, QueueState, World, Engine}
use caudio.Engine.Persist.{fetch_track_by_pos_locked, has_db}
use caudio.Engine.Traverse.Cycle.{next_run, cycle_run, queue-move_cursor, has_db-move_cursor}
use caudio.Engine.Traverse.{
  is_one, positions, with_cursor, move_cursor, take_linear, queue_next_locked, queue_prev_locked,
}

module _ {F : Type 0} ⦃fl : Floats F⦄ (w : World F) (track_at : ℕ → Track F) (cnt : ℕ) where
  -- A queue of `cnt` tracks, none of which fails to load, walked in its own order.
  pub record Walks (e : Engine F) : Type 0 where
    pub open_db : has_db w e ≡ true
    pub in_order : e.queue.shuffle ≡ false
    pub named : e.queue.queue_id ≢ 0
    pub wraps : is_one e.queue.repeat ≡ false
    pub counted : w.db.queue_count e.queue.queue_id ≡ cnt
    pub loads : (p : ℕ) → p < cnt → w.db.queue_track_at e.queue.queue_id p ≡ ok (track_at p)
    pub nonempty : 0 < cnt
    pub sized : cnt < word
    pub placed : e.queue.cursor ≤ cnt

  take_linear_lem :
      (e : Engine F)
      → Walks e
      → e.queue.cursor < cnt
      → take_linear w e ≡ (move_cursor w (e.queue.cursor + 1) e, ok (track_at e.queue.cursor))
  unfolding take_linear fetch_track_by_pos_locked
  take_linear_lem e h lt = ground (arith, h.loads e.queue.cursor lt, h.open_db, h.sized)

  take_linear_lem' :
      (e : Engine F)
      → Walks e
      → e.queue.cursor ≡ 0
      → take_linear w e ≡ (move_cursor w (0 + 1) e, ok (track_at 0))
  take_linear_lem' e h z =
      take_linear_lem e h (omega (arith, h.nonempty))
      ∙ ap (λ (c : ℕ). (move_cursor w (c + 1) e, ok (track_at c))) z

  pub Walks-move_cursor : (c : ℕ) (e : Engine F) → c ≤ cnt → Walks e → Walks (move_cursor w c e)
  Walks-move_cursor c e le h = record {
    open_db = has_db-move_cursor w c e ∙ h.open_db;
    in_order = rw (queue-move_cursor w c e) h.in_order;
    named = rw (queue-move_cursor w c e) h.named;
    wraps = rw (queue-move_cursor w c e) h.wraps;
    counted = rw (queue-move_cursor w c e) h.counted;
    loads = rw (queue-move_cursor w c e) h.loads;
    nonempty = h.nonempty;
    sized = h.sized;
    placed = rw (queue-move_cursor w c e) le;
  }

  pub next_inside :
      (e : Engine F)
      → Walks e
      → e.queue.cursor < cnt
      → queue_next_locked w e ≡ (move_cursor w (e.queue.cursor + 1) e, ok (track_at e.queue.cursor))
  unfolding queue_next_locked
  next_inside e h lt =
      ground (arith, h.in_order, h.named, h.counted, h.nonempty, take_linear_lem e h lt)

  next_at_end :
      (e : Engine F)
      → Walks e
      → e.queue.cursor ≡ cnt
      → queue_next_locked w e ≡ take_linear w (move_cursor w 0 e)
  unfolding queue_next_locked
  next_at_end e h at = ground (arith, h.in_order, h.named, h.counted, h.nonempty, h.wraps)

  -- What one call does: the track at the cursor modulo the count, and the cursor just after it.
  pub record Stepped (e : Engine F) : Type 0 where
    pub still : Walks (queue_next_locked w e).0
    pub moved : (queue_next_locked w e).0.queue.cursor ≡ e.queue.cursor % cnt + 1
    pub track : (queue_next_locked w e).1 ≡ ok (track_at (e.queue.cursor % cnt))
    pub same_queue :
        (queue_next_locked w e).0.queue ≡ record e.queue { cursor = e.queue.cursor % cnt + 1 }

  Stepped-by :
      (e e' : Engine F) (c : ℕ)
      → queue_next_locked w e ≡ (move_cursor w (c + 1) e', ok (track_at c))
      → Walks e'
      → c < cnt
      → c ≡ e.queue.cursor % cnt
      → record e'.queue { cursor = c + 1 } ≡ record e.queue { cursor = c + 1 }
      → Stepped e
  Stepped-by e e' c run h lt at same = record {
    still = rw run (Walks-move_cursor (c + 1) e' (omega arith) h);
    moved = rw (run, queue-move_cursor w (c + 1) e', ← at);
    track = rw (run, ← at);
    same_queue = rw (run, queue-move_cursor w (c + 1) e', ← at) same;
  }

  pub next_Stepped : (e : Engine F) → Walks e → Stepped e
  next_Stepped e h = elim (dec_lt e.queue.cursor cnt) [
    | yes lt ↦ Stepped-by e e e.queue.cursor (next_inside e h lt) h lt (sym (mod-eq_of_lt lt)) refl
    | no ge ↦
        let at : e.queue.cursor ≡ cnt = omega (arith, h.placed) in
        let e' = move_cursor w 0 e in
        let h' = Walks-move_cursor 0 e (omega arith) h in
        let zeroth : e'.queue.cursor ≡ 0 =
          ap (λ (q : QueueState). q.cursor) (queue-move_cursor w 0 e) in
        Stepped-by e e' 0 (next_at_end e h at ∙ take_linear_lem' e' h' zeroth) h' h.nonempty
          (rw at (sym (mod_self cnt))) (rw (queue-move_cursor w 0 e))
  ]

  -- With shuffle off, from any cursor up to the end, `n` calls of next deliver the tracks of the
  -- queue in its order, and after the last one the first again.
  pub next_run_linear :
      (n : ℕ) (e : Engine F)
      → Walks e
      → next_run w n e ≡ map (λ p. ok (track_at (p % cnt))) (positions e.queue.cursor n)
  next_run_linear n e h =
      cycle_run w Walks cnt track_at
        (λ e' h'. let s = next_Stepped e' h' in (s.still, s.moved, s.track)) n e.queue.cursor e h
        refl

  pub Walks-same :
      (e e' : Engine F) → e'.queue ≡ e.queue → has_db w e' ≡ has_db w e → Walks e → Walks e'
  Walks-same e e' q d h = record {
    open_db = d ∙ h.open_db;
    in_order = rw q h.in_order;
    named = rw q h.named;
    wraps = rw q h.wraps;
    counted = rw q h.counted;
    loads = rw q h.loads;
    nonempty = h.nonempty;
    sized = h.sized;
    placed = rw q h.placed;
  }

  pub Walks-with_cursor : (c : ℕ) (e : Engine F) → c ≤ cnt → Walks e → Walks (with_cursor e c)
  Walks-with_cursor c e le h = record {
    open_db = unfold has_db in h.open_db;
    in_order = h.in_order;
    named = h.named;
    wraps = h.wraps;
    counted = h.counted;
    loads = h.loads;
    nonempty = h.nonempty;
    sized = h.sized;
    placed = le;
  }

  prev_steps :
      (e : Engine F)
      → Walks e
      → 0 < e.queue.cursor
      → queue_prev_locked w e ≡ take_linear w (with_cursor e (e.queue.cursor - 2))
  unfolding queue_prev_locked
  prev_steps e h pos = ground (arith, h.in_order, h.counted, h.nonempty, h.placed)

  prev_back :
      (e : Engine F)
      → Walks e
      → 0 < e.queue.cursor
      → ((queue_prev_locked w e).1 ≡ ok (track_at (e.queue.cursor - 2)))
        × ((queue_prev_locked w e).0.queue ≡ record e.queue { cursor = e.queue.cursor - 2 + 1 })
  prev_back e h pos =
      let e' = with_cursor e (e.queue.cursor - 2) in
      let h' = Walks-with_cursor (e.queue.cursor - 2) e (omega (arith, h.placed)) h in
      rw (prev_steps e h pos, take_linear_lem e' h' (omega (arith, h.placed)))
        (refl, queue-move_cursor w (e.queue.cursor - 2 + 1) e')

  -- Two calls of next that do not wrap in between, then prev: the first call's track again, and the
  -- queue as the first call left it.
  pub prev-next-next :
      (e : Engine F)
      → Walks e
      → (queue_next_locked w e).0.queue.cursor < cnt
      → let first = queue_next_locked w e in
        let back = queue_prev_locked w (queue_next_locked w first.0).0 in
        (back.1 ≡ first.1) × (back.0.queue ≡ first.0.queue)
  prev-next-next e h lt =
      let s = next_Stepped e h in
      let e1 = (queue_next_locked w e).0 in
      let t = next_Stepped e1 s.still in
      let e2 = (queue_next_locked w e1).0 in
      let at : e2.queue.cursor ≡ e.queue.cursor % cnt + 2 =
        omega (arith, t.moved, s.moved, mod-eq_of_lt lt) in
      let (r, q) = prev_back e2 t.still (omega arith) in
      (
        r ∙ ap (λ (p : ℕ). ok (track_at p)) (omega arith) ∙ sym s.track,
        q
            ∙ ap (λ (u : QueueState). record u { cursor = e2.queue.cursor - 2 + 1 }) t.same_queue
            ∙ ap (λ (c : ℕ). record e1.queue { cursor = c }) (omega (arith, s.moved)),
      )
