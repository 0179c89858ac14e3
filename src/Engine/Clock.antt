-- ===== src/Engine/Clock.antt =====
-- The playback position of src/engine/engine.cpp over a pause.
use caudio.Prelude.{◌-◌, ◌≡◌, true, arith, if◌then◌else◌}
use caudio.Engine.{Floats, World, Engine, playing, paused}
use caudio.Engine.Persist.{save_state, current_position_locked, running_position}
use caudio.Engine.Play.{account_playback_time}
use caudio.Engine.Transport.{pausing, save_if_open, pause, resume_paused, resume}

module _ {F : Type 0} ⦃fl : Floats F⦄ where
  -- A position within the track.
  abbrev pub within : F → F → F
  within dur pos =
      let capped = if fl.lt dur pos then dur else pos in
      if fl.lt capped (fl.of_int 0) then fl.of_int 0 else capped

  record PausedAt (pos : F) (old e : Engine F) : Type 0 where
    pub stands : e.pause_pos ≡ pos
    pub state : e.playback_state ≡ paused
    pub track : e.has_current ≡ old.has_current
    pub length : e.duration ≡ old.duration

  pausing-PausedAt :
      (now : World F) (e : Engine F) → PausedAt (current_position_locked now e) e (pausing now e)
  unfolding pausing account_playback_time
  pausing-PausedAt now e = record {
    stands = ground arith;
    state = ground arith;
    track = ground arith;
    length = ground arith;
  }

  save-PausedAt :
      (now : World F) (pos : F) (old e : Engine F)
      → PausedAt pos old e
      → PausedAt pos old (save_if_open now e)
  unfolding save_if_open save_state
  save-PausedAt now pos old e h = record {
    stands = ground (arith, h.stands);
    state = ground (arith, h.state);
    track = ground (arith, h.track);
    length = ground (arith, h.length);
  }

  pause_run :
      (now : World F) (e : Engine F)
      → e.playback_state ≡ playing
      → (pause now e).0 ≡ save_if_open now (pausing now e)
  unfolding pause
  pause_run now e p = ground arith

  pause-PausedAt :
      (now : World F) (e : Engine F)
      → e.playback_state ≡ playing
      → PausedAt (current_position_locked now e) e (pause now e).0
  pause-PausedAt now e p = rw (pause_run now e p) (save-PausedAt now _ e _ (pausing-PausedAt now e))

  position_paused :
      (asked : World F) (pos : F) (old e : Engine F)
      → PausedAt pos old e
      → old.has_current ≡ true
      → current_position_locked asked e ≡ pos
  unfolding current_position_locked
  position_paused asked pos old e h c = ground (arith, h.stands, h.state, h.track)

  position_resumed :
      (later at : World F) (pos : F) (old e : Engine F)
      → PausedAt pos old e
      → old.has_current ≡ true
      → current_position_locked at (resume later e).0
        ≡ within old.duration (fl.add pos (fl.seconds_of_ns (at.now_ns - later.now_ns)))
  unfolding current_position_locked running_position resume resume_paused
  position_resumed later at pos old e h c = ground (arith, h.stands, h.state, h.track, h.length)

  -- While a track is paused its position stands still, whenever it is asked for; after a resume at
  -- `later` it goes on from there, so that the time spent in the pause does not count.
  pub pause-resume :
      (now asked later at : World F) (e : Engine F)
      → e.playback_state ≡ playing
      → e.has_current ≡ true
      → let held = (pause now e).0 in
        (current_position_locked asked held ≡ current_position_locked now e)
        × (current_position_locked at (resume later held).0
            ≡ within e.duration (
                fl.add
                  (current_position_locked now e)
                  (fl.seconds_of_ns (at.now_ns - later.now_ns))))
  pause-resume now asked later at e p c = (
    position_paused asked _ e _ (pause-PausedAt now e p) c,
    position_resumed later at _ e _ (pause-PausedAt now e p) c,
  )
