-- ===== src/Engine/Tick.antt =====
-- src/engine/engine.cpp: the monitor's tick (engineTick, doHistoryMark), and
-- src/engine/history.cpp: shouldMarkPlayed.
use caudio.Prelude.{
  ℕ, ◌+◌, ◌-◌, ◌%◌, Bool, true, false, not, ◌&&◌, ◌||◌, ◌∷◌, ◌==◌, leb, is_neg, if◌then◌else◌, word,
  ok, unexpected, has_value,
}
use caudio.Engine.{Floats, World, Engine, progress, marks_played}
use caudio.Engine.Persist.{now_ms, has_db, save_state, current_position_locked}
use caudio.Engine.Play.{account_playback_time, push_event}
use caudio.Engine.Transport.{Reply, is_playing}
use caudio.Engine.Commands.{auto_next}

-- An `int` above 0.
abbrev pub is_pos : ℕ → Bool
is_pos n = not (n == 0) && not (is_neg n)

abbrev pub or_default : ℕ → ℕ → ℕ
or_default n d = if n == 0 then d else n

module _ {F : Type 0} ⦃fl : Floats F⦄ where
  unfoldable pub should_mark_played : F → F → Bool → ℕ → ℕ → Bool
  should_mark_played len played marked pct_thr secs_thr =
      let pct =
        if is_pos pct_thr then fl.div (fl.of_int pct_thr) (fl.of_int 100) else fl.sixty_percent in
      let secs = if is_pos secs_thr then fl.of_int secs_thr else fl.of_int 90 in
      not marked && (fl.lt (fl.of_int 0) len && fl.le pct (fl.div played len) || fl.le secs played)

  -- The completion percentage of a history entry, at most 100 and 0 for an unknown duration.
  unfoldable pub completion_pct : F → F → F
  completion_pct pos dur =
      if fl.lt (fl.of_int 0) dur
      then (let pct = fl.mul (fl.div pos dur) (fl.of_int 100) in
          if fl.lt (fl.of_int 100) pct then fl.of_int 100 else pct)
      else fl.of_int 0

module _ {F : Type 0} ⦃fl : Floats F⦄ (w : World F) where
  unfoldable pub is_due : Engine F → Bool
  unfolding has_db should_mark_played
  is_due e =
      has_db w e
      && e.has_current
      && not e.marked_played
      && should_mark_played e.duration
          (fl.div (fl.of_int e.accumulated_playback_ms) (fl.of_int 1000)) false
          (or_default e.cfg.history_threshold_pct 60) (or_default e.cfg.history_threshold_secs 90)

  unfoldable pub do_history_mark : Engine F → Engine F
  unfolding is_due completion_pct
  do_history_mark e =
      if is_due e
      then (let pos = current_position_locked w e in
          record e {
            writes =
                marks_played e.current_track.id e.started_ms w.wall_ms
                  (fl.to_int (fl.mul pos (fl.of_int 1000))) (completion_pct pos e.duration)
                  (or_default e.queue.queue_id 1)
                ∷ e.writes;
            marked_played = has_value w.db.mark_played_reply;
          })
      else e

  -- `now - last` on `uint64_t`.
  abbrev elapsed : ℕ → ℕ
  elapsed last = (now_ms w + word - last) % word

  unfoldable pub report_progress : Engine F → Engine F
  report_progress e =
      if leb 500 (elapsed e.last_progress_ms)
      then push_event
          (record {
            type = progress;
            track_id = if e.has_current then e.current_track.id else e.state.current_track_id;
            queue_id = or_default e.queue.queue_id 1;
            position = current_position_locked w e;
            duration = e.duration;
            msg = "";
          })
          (record e { last_progress_ms = now_ms w })
      else e

  -- The current track is within the gapless window of its end.
  unfoldable pub in_gapless_window : Engine F → Bool
  in_gapless_window e =
      let remaining = fl.sub e.duration (current_position_locked w e) in
      fl.lt (fl.of_int 0) e.duration
      && (fl.le remaining (fl.div (fl.of_int e.cfg.gapless_ms) (fl.of_int 1000))
          && fl.le (fl.of_int 0) remaining)

  abbrev pub armed : Bool → Engine F → Engine F
  armed b e = record e { gapless_armed = b }

  -- A failed transition may be tried again at the next tick.
  abbrev pub after_advance : Reply F → Engine F
  after_advance (e, ok u) = e
  after_advance (e, unexpected x) = armed false e

  unfoldable pub gapless_advance : Engine F → Engine F
  unfolding in_gapless_window
  gapless_advance e =
      if in_gapless_window e && e.has_current && not e.gapless_armed
      then after_advance (auto_next w (armed true e))
      else e

  unfoldable pub checkpoint : Engine F → Engine F
  checkpoint e =
      if leb 5000 (elapsed e.last_pos_save_ms) && w.queue_free
      then (let (e1, r) =
            save_state w (record e { state = record e.state { cursor_pos = e.queue.cursor } }) in
          if has_value r then record e1 { last_pos_save_ms = now_ms w } else e1)
      else e

  -- The time played and the history mark, in every state.
  unfoldable pub accounted : Engine F → Engine F
  unfolding do_history_mark
  accounted e =
      do_history_mark (if is_playing e.playback_state then account_playback_time w e else e)

  unfoldable pub engine_tick : Engine F → Engine F
  unfolding accounted report_progress gapless_advance checkpoint
  engine_tick e =
      if is_playing (accounted e).playback_state
      then checkpoint (gapless_advance (report_progress (accounted e)))
      else accounted e
