-- ===== src/Engine/Replay.antt =====
-- stop of src/engine/engine.cpp and the track that plays next.
use native.Mathlib.Nat.{mod-eq_of_lt}
use caudio.Prelude.{◌&&◌, ℕ, ◌-◌, ◌%◌, ◌<◌, ◌≡◌, refl, ap, ◌∙◌, true, false, arith, sym, ◌+◌, ok}
use caudio.Engine.{Floats, Track, QueueState, World, Engine}
use caudio.Engine.Persist.{has_db, save_state, persist_cursor_locked}
use caudio.Engine.Traverse.{with_cursor, move_cursor, queue_next_locked}
use caudio.Engine.Traverse.Cycle.{queue-move_cursor}
use caudio.Engine.Traverse.Linear.{Walks, Walks-with_cursor, Walks-same, Stepped, next_Stepped}
use caudio.Engine.Play.{
  release_media, reset_playback_accounting, account_playback_time, do_play_track,
}
use caudio.Engine.Commands.{next, advance_locked, go_on, play_found}
use caudio.Engine.Whole.{play_same}
use caudio.Engine.Current.{play-current, found}
use caudio.Engine.Transport.{
  is_stopped, stopping, rewind_cursor, forget_position, save_if_open, stop,
}

module _ {F : Type 0} ⦃fl : Floats F⦄ (w : World F) where
  -- A step that leaves the queue and the database attachment alone.
  Leaves : Engine F → Engine F → Type 0
  Leaves e e' = (e'.queue ≡ e.queue) × (e'.attached ≡ e.attached)

  stopping-Leaves : (e : Engine F) → Leaves e (stopping w e)
  unfolding Leaves has_db stopping release_media reset_playback_accounting account_playback_time
  stopping-Leaves e = ground arith

  save_if_open-Leaves : (e : Engine F) → Leaves e (save_if_open w e)
  unfolding Leaves has_db save_if_open save_state
  save_if_open-Leaves e = ground arith

  forget-Leaves : (e : Engine F) → Leaves e (forget_position w e)
  unfolding Leaves has_db
  forget-Leaves e = (refl, refl)

  attached-move_cursor : (c : ℕ) (e : Engine F) → (move_cursor w c e).attached ≡ e.attached
  unfolding move_cursor persist_cursor_locked
  attached-move_cursor c e = ground arith

  rewind_lem :
      (e : Engine F)
      → w.queue_free ≡ true
      → 0 < e.queue.cursor
      → rewind_cursor w e ≡ move_cursor w (e.queue.cursor - 1) e
  unfolding rewind_cursor
  rewind_lem e free lt = ground arith

  stop_run :
      (e : Engine F)
      → is_stopped e.playback_state ≡ false
      → (stop w e).0 ≡ save_if_open w (forget_position w (rewind_cursor w (stopping w e)))
  unfolding stop
  stop_run e h = ground arith

  queue-stop :
      (e : Engine F)
      → is_stopped e.playback_state ≡ false
      → w.queue_free ≡ true
      → 0 < e.queue.cursor
      → ((stop w e).0.queue ≡ record e.queue { cursor = e.queue.cursor - 1 })
        × ((stop w e).0.attached ≡ e.attached)
  unfolding Leaves
  queue-stop e h free lt = rw (stop_run e h) (
    (save_if_open-Leaves rewound).0 ∙ (forget-Leaves back).0 ∙ queue-back,
    (save_if_open-Leaves rewound).1 ∙ (forget-Leaves back).1 ∙ attached-back,
  )
    where
      halted : Engine F
      halted = stopping w e

      back : Engine F
      back = rewind_cursor w halted

      rewound : Engine F
      rewound = forget_position w back

      cursor_halted : halted.queue.cursor ≡ e.queue.cursor
      cursor_halted = ap (λ (q : QueueState). q.cursor) (stopping-Leaves e).0

      run_back : back ≡ move_cursor w (halted.queue.cursor - 1) halted
      run_back = rewind_lem halted free (omega (arith, cursor_halted))

      queue-back : back.queue ≡ record e.queue { cursor = e.queue.cursor - 1 }
      queue-back =
          ap (λ (r : Engine F). r.queue) run_back
          ∙ queue-move_cursor w (halted.queue.cursor - 1) halted
          ∙ ap (λ (q : QueueState). record q { cursor = q.cursor - 1 }) (stopping-Leaves e).0

      attached-back : back.attached ≡ e.attached
      attached-back =
          ap (λ (r : Engine F). r.attached) run_back
          ∙ attached-move_cursor (halted.queue.cursor - 1) halted
          ∙ (stopping-Leaves e).1

module _ {F : Type 0} ⦃fl : Floats F⦄ (w : World F) (track_at : ℕ → Track F) (cnt : ℕ) where
  next_after_stop :
      (v : World F) (e : Engine F)
      → Walks w track_at cnt e
      → is_stopped e.playback_state ≡ false
      → v.queue_free ≡ true
      → 0 < e.queue.cursor
      → (queue_next_locked w (stop v e).0).1 ≡ ok (track_at (e.queue.cursor - 1))
  next_after_stop v e h running free lt =
      s.track
      ∙ ap (λ (p : ℕ). ok (track_at p))
          (ap (λ (q : QueueState). q.cursor % cnt) stopped_at.0
            ∙ mod-eq_of_lt (omega (arith, h.placed, h.nonempty)))
    where
      stopped_at :
          ((stop v e).0.queue ≡ record e.queue { cursor = e.queue.cursor - 1 })
          × ((stop v e).0.attached ≡ e.attached)
      stopped_at = queue-stop v e running free lt

      back : Walks w track_at cnt (with_cursor e (e.queue.cursor - 1))
      back = Walks-with_cursor w track_at cnt _ e (omega (arith, h.placed)) h

      same_db : has_db w (stop v e).0 ≡ has_db w (with_cursor e (e.queue.cursor - 1))
      same_db = unfold has_db in ap (λ b. b && w.db.is_open) stopped_at.1

      s : Stepped w track_at cnt (stop v e).0
      s = next_Stepped w track_at cnt (stop v e).0 (
          Walks-same w track_at cnt (with_cursor e (e.queue.cursor - 1)) (stop v e).0 stopped_at.0
            same_db back)

  next_run :
      (e : Engine F)
      → Walks w track_at cnt e
      → w.queue_free ≡ true
      → next w e ≡ play_found w (fl.of_int 0) (queue_next_locked w e)
  unfolding next advance_locked go_on
  next_run e h free = ground (arith, h.open_db, h.in_order, h.wraps, free)

  next_plays :
      (e : Engine F)
      → Walks w track_at cnt e
      → w.queue_free ≡ true
      → next w e
        ≡ do_play_track w (track_at (e.queue.cursor % cnt)) (fl.of_int 0) (queue_next_locked w e).0
  next_plays e h free =
      next_run e h free
      ∙ found w (fl.of_int 0) (queue_next_locked w e).0 _ _ (next_Stepped w track_at cnt e h).track

  next-Walks :
      (e : Engine F)
      → Walks w track_at cnt e
      → w.queue_free ≡ true
      → Walks w track_at cnt (next w e).0 × ((next w e).0.queue.cursor ≡ e.queue.cursor % cnt + 1)
  next-Walks e h free = rw (next_plays e h free) (
    Walks-same w track_at cnt e1 (do_play_track w t (fl.of_int 0) e1).0 kept.0 kept.1 s.still,
    ap (λ (q : QueueState). q.cursor) kept.0 ∙ s.moved,
  )
    where
      t : Track F
      t = track_at (e.queue.cursor % cnt)

      e1 : Engine F
      e1 = (queue_next_locked w e).0

      s : Stepped w track_at cnt e
      s = next_Stepped w track_at cnt e h

      kept :
          ((do_play_track w t (fl.of_int 0) e1).0.queue ≡ e1.queue)
          × (has_db w (do_play_track w t (fl.of_int 0) e1).0 ≡ has_db w e1)
      kept = play_same w t (fl.of_int 0) e1

  -- A track that `next` has started from a queue in its own order, and that is stopped then,
  -- whatever the clock and the database reply to the stop, the queue's lock being free in both, is
  -- the next one: the call of queueNextLocked after the stop delivers it.
  pub stop-next :
      (v : World F) (e : Engine F)
      → Walks w track_at cnt e
      → w.queue_free ≡ true
      → v.queue_free ≡ true
      → (next w e).1 ≡ ok tt
      → let e' = (next w e).0 in (queue_next_locked w (stop v e').0).1 ≡ ok e'.current_track
  stop-next v e h free free' went =
      next_after_stop v (next w e).0 still running free' (omega (arith, at))
      ∙ ap (λ (p : ℕ). ok (track_at p)) (omega (arith, at))
      ∙ ap ok (sym current)
    where
      still : Walks w track_at cnt (next w e).0
      still = (next-Walks e h free).0

      at : (next w e).0.queue.cursor ≡ e.queue.cursor % cnt + 1
      at = (next-Walks e h free).1

      shown :
          ((next w e).0.current_track ≡ track_at (e.queue.cursor % cnt))
          × (is_stopped (next w e).0.playback_state ≡ false)
      shown = rw (next_plays e h free) (
          play-current w _ (fl.of_int 0) (queue_next_locked w e).0
            (rw (next_plays e h free) at went))

      current : (next w e).0.current_track ≡ track_at (e.queue.cursor % cnt)
      current = shown.0

      running : is_stopped (next w e).0.playback_state ≡ false
      running = shown.1
