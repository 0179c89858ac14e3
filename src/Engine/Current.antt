-- ===== src/Engine/Current.antt =====
-- doPlayTrack of src/engine/engine.cpp, where it succeeds: the track is the current one.
use caudio.Prelude.{◌≡◌, refl, false, arith, Expected, ok, unexpected}
use caudio.Mpsc
use caudio.Engine.{Floats, Track, World, Engine, EngineEvent}
use caudio.Engine.Persist.{save_state}
use caudio.Engine.Play.{
  valid_start, release_media, open_path, playable, begin_track, finish_play, do_play_track,
  after_push, push_event,
}
use caudio.Engine.Transport.{is_stopped}
use caudio.Engine.Commands.{play_found}

module _ {F : Type 0} ⦃fl : Floats F⦄ (w : World F) where
  -- The track is the current one, and the engine is not stopped.
  Current : Track F → Engine F → Type 0
  Current t e = (e.current_track ≡ t) × (is_stopped e.playback_state ≡ false)

  begin-Current : (t : Track F) (s : F) (e : Engine F) → Current t (begin_track w t s e)
  unfolding Current begin_track save_state
  begin-Current t s e = ground arith

  push-Current :
      (t : Track F) (ev : EngineEvent F) (e : Engine F) → Current t e → Current t (push_event ev e)
  unfolding push_event Current
  push-Current t ev e h = pushed (Mpsc.push ev e.events).1
    where
      pushed :
          (r : Expected (Unit {0}))
          → Current t (after_push ev (record e { events = (Mpsc.push ev e.events).0 }) r)
      pushed (ok u) = h
      pushed (unexpected x) = h

  finish-Current :
      (t : Track F) (s : F) (r : Engine F × Expected (Unit {0}))
      → (finish_play w t s r).1 ≡ ok tt
      → Current t (finish_play w t s r).0
  unfolding finish_play
  finish-Current t s (e, ok u) went = push-Current t _ _ (begin-Current t s e)
  finish-Current t s (e, unexpected x) went = absurd (ground (arith, went))

  play-Current :
      (t : Track F) (s : F) (e : Engine F)
      → (do_play_track w t s e).1 ≡ ok tt
      → Current t (do_play_track w t s e).0
  unfolding do_play_track
  play-Current t s e went =
      let tried = open_path w t (valid_start w s) (release_media w e) in
      finish-Current t tried.1 (playable w t tried.2 tried.0) went

  pub play-current :
      (t : Track F) (s : F) (e : Engine F)
      → (do_play_track w t s e).1 ≡ ok tt
      → ((do_play_track w t s e).0.current_track ≡ t)
        × (is_stopped (do_play_track w t s e).0.playback_state ≡ false)
  unfolding Current
  play-current t s e went = play-Current t s e went

  pub found :
      (start : F) (e : Engine F) (r : Expected (Track F)) (t : Track F)
      → r ≡ ok t
      → play_found w start (e, r) ≡ do_play_track w t start e
  found start e r t h = rw h refl
