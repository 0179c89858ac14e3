-- ===== src/Engine/Transport.antt =====
-- src/engine/engine.cpp: the transport commands that keep the current track (pause, resume, stop,
-- seek, suspendCurrentTrack, resumeAfterTagWrite) and the settings (volume, repeat, shuffle).
use Prim.Native.String.{String}
use caudio.Prelude.{
  ◌-◌, Bool, true, false, not, ◌&&◌, ◌||◌, Option, none, some, ◌==◌, ltb, if◌then◌else◌, Expected,
  ok, unexpected, make_error, bad_state, busy, invalid_arg,
}
use caudio.Ring
use caudio.Engine.{Floats, Track, World, Engine, Output, PlaybackState, stopped, playing, paused}
use caudio.Engine.Persist.{now_ms, has_db, current_position_locked, save_state}
use caudio.Engine.Traverse.{move_cursor}
use caudio.Engine.Play.{
  reset_playback_accounting, account_playback_time, release_media, do_play_track,
}

abbrev pub Reply : Type 0 → Type 0
Reply F = Engine F × Expected (Unit {0})

abbrev pub is_playing : PlaybackState → Bool
is_playing playing = true
is_playing _ = false

abbrev pub is_paused : PlaybackState → Bool
is_paused paused = true
is_paused _ = false

abbrev pub is_stopped : PlaybackState → Bool
is_stopped stopped = true
is_stopped _ = false

module _ {F : Type 0} where
  -- `if (output_) output_->start()`, and the same with `stop()`.
  abbrev pub output_running : Bool → Option (Output F) → Option (Output F)
  output_running b none = none
  output_running b (some o) = some (record o { running = b })

  abbrev pub set_running : Bool → Engine F → Engine F
  set_running b e = record e { output = output_running b e.output }

  -- `if (ring_) ring_->reset()`
  abbrev pub ring_reset : Engine F → Engine F
  ring_reset e = record e { ring = elim e.ring [ none ↦ none | some r ↦ some (Ring.reset r) ] }

module _ {F : Type 0} ⦃fl : Floats F⦄ (w : World F) where
  -- `if (hasDb()) (void)saveState()`
  unfoldable pub save_if_open : Engine F → Engine F
  save_if_open e = if has_db w e then (save_state w e).0 else e

  -- The position, the time played and the device of a track that is paused.
  unfoldable pub pausing : Engine F → Engine F
  pausing e =
      let e1 = account_playback_time w (record e { pause_pos = current_position_locked w e }) in
      set_running false (record e1 { last_playback_sample_ms = 0; playback_state = paused })

  unfoldable pub pause : Engine F → Reply F
  unfolding pausing save_if_open
  pause e =
      if is_playing e.playback_state
      then (save_if_open (pausing e), ok tt)
      else (e, unexpected (make_error bad_state "not playing"))

  -- Restart the clock and the device of a paused track: `resume`, and `play` when paused.
  unfoldable pub resume_paused : Engine F → Engine F
  resume_paused e = set_running true (record e {
    play_start_ns = w.now_ns;
    last_playback_sample_ms = now_ms w;
    playback_state = playing;
  })

  unfoldable pub resume : Engine F → Reply F
  unfolding resume_paused
  resume e =
      if is_paused e.playback_state
      then (resume_paused e, ok tt)
      else (e, unexpected (make_error bad_state "not paused"))

  -- The cursor addresses the next track: step back to the stopped one, if the lock is free.
  unfoldable pub rewind_cursor : Engine F → Engine F
  rewind_cursor e =
      if w.queue_free && ltb 0 e.queue.cursor then move_cursor w (e.queue.cursor - 1) e else e

  -- Everything of a stop but the queue: the media released, the accounting reset, no current track.
  unfoldable pub stopping : Engine F → Engine F
  stopping e =
      let e1 = if is_playing e.playback_state then account_playback_time w e else e in
      let e2 =
        release_media w (record e1 { last_playback_sample_ms = 0; playback_state = stopped }) in
      record (reset_playback_accounting w (record e2 { pause_pos = fl.of_int 0 })) {
        has_current = false;
      }

  abbrev pub forget_position : Engine F → Engine F
  forget_position e = record e { state = record e.state { position_ms = 0 } }

  unfoldable pub stop : Engine F → Reply F
  unfolding stopping rewind_cursor save_if_open
  stop e =
      if is_stopped e.playback_state
      then (e, ok tt)
      else (save_if_open (forget_position (rewind_cursor (stopping e))), ok tt)

  -- `decoder_->seek`, where there is a decoder.
  abbrev pub decoder_seek : F → Engine F → Expected (Unit {0})
  decoder_seek s e = elim e.decoder [ none ↦ ok tt | some m ↦ w.seek_reply s ]

  unfoldable pub sought : F → Engine F → Engine F
  unfolding save_if_open
  sought seconds e = save_if_open (
      ring_reset (record e {
        pause_pos = if fl.lt e.duration seconds then e.duration else seconds;
        play_start_ns = w.now_ns;
        last_playback_sample_ms = now_ms w;
        playback_state = playing;
      }))

  -- A seek that fails sets the state to playing, like one that succeeds.
  unfoldable pub after_seek : F → Engine F → Expected (Unit {0}) → Reply F
  unfolding sought
  after_seek seconds e (ok u) = (sought seconds e, ok tt)
  after_seek seconds e (unexpected x) = (record e { playback_state = playing }, unexpected x)

  unfoldable pub seek : F → Engine F → Reply F
  unfolding after_seek
  seek seconds e =
      if not e.has_current
      then (e, unexpected (make_error bad_state "no track"))
      else if not (fl.is_finite seconds) || fl.lt seconds (fl.of_int 0)
      then (e, unexpected (make_error invalid_arg "bad seconds"))
      else after_seek seconds e (decoder_seek seconds e)

  -- `tryLockQueue()` or `tryLockQueueFor(...)` around a body that ends by unlocking.
  abbrev pub locked : String → Engine F → (Engine F → Reply F) → Reply F
  locked msg e body = if w.queue_free then body e else (e, unexpected (make_error busy msg))

  -- The device stopped and the file handles gone; cursor, current track and history mark stay.
  unfoldable pub suspended : Engine F → Engine F
  suspended e = record (ring_reset (set_running false (record e { playback_state = paused }))) {
    decoder = none;
    has_reader = false;
  }

  unfoldable pub suspend_current_track : Engine F → Reply F
  unfolding suspended
  suspend_current_track e =
      if not e.has_current
      then (e, unexpected (make_error bad_state "no track"))
      else locked "queue busy" e (λ e. (suspended e, ok tt))

  -- What a reopened track keeps from before: the history mark and the time played.
  abbrev pub keep_accounting : Engine F → Engine F → Engine F
  keep_accounting old e = record e {
    marked_played = old.marked_played;
    accumulated_playback_ms = old.accumulated_playback_ms;
    last_playback_sample_ms = now_ms w;
  }

  unfoldable pub pause_reopened : Bool → Reply F → Reply F
  unfolding pause
  pause_reopened was_paused (e, ok u) = if was_paused then pause e else (e, ok tt)
  pause_reopened was_paused (e, unexpected x) = (e, unexpected x)

  unfoldable pub resume_after_tag_write : Track F → F → Bool → Engine F → Reply F
  unfolding pause_reopened
  resume_after_tag_write t pos was_paused e = locked "queue busy" e (λ e.
      if not e.has_current || not (e.state.current_track_id == t.id)
      then (e, ok tt)
      else (let (e', r) = do_play_track w t pos e in
          pause_reopened was_paused (keep_accounting e e', r)))
