-- ===== src/Engine/Play.antt =====
-- src/engine/engine.cpp: starting a track (doPlayTrack, preroll, pushEvent and the accounting of
-- the time played).
use Prim.Native.String.{String, ◌++◌ as str_append}
use caudio.Prelude.{
  ℕ, ◌-◌, ◌*◌, ◌/◌, ◌%◌, ◌^◌, Bool, true, false, not, ◌&&◌, ◌||◌, List, [], ◌∷◌, none, some, ◌==◌,
  ltb, if◌then◌else◌, add_size, length, Expected, ok, unexpected, has_value, make_error, not_found,
  device, is_empty_string,
}
use caudio.Mpsc
use caudio.Ring
use caudio.Ring.{SpscRing}
use caudio.Engine.{
  Floats, Track, World, Engine, EngineEvent, EventType, track_started, track_ended, queue_changed,
  failure, Callbacks, Called, started, ended, changed, errored, Media, reader_failed,
  decoder_failed, opened, playing,
}
use caudio.Engine.Persist.{now_ms, has_db, save_state}

-- Frames of `ch` samples: how many a chunk may hold.
abbrev pub chunk_frames : ℕ → ℕ
chunk_frames ch = if ltb (2048 / ch) 1024 then 2048 / ch else 1024

abbrev pub message_or : String → String → String
message_or err fallback = if is_empty_string err then fallback else err

module _ {F : Type 0} ⦃fl : Floats F⦄ where
  -- The completion percentage handed to `on_track_ended`.
  unfoldable pub ended_pct : EngineEvent F → F
  ended_pct ev =
      if fl.lt (fl.of_int 0) ev.duration
      then (let pct = fl.mul (fl.div ev.position ev.duration) (fl.of_int 100) in
          let low = if fl.lt pct (fl.of_int 0) then fl.of_int 0 else pct in
          if fl.lt (fl.of_int 100) low then fl.of_int 100 else low)
      else fl.of_int 0

  -- The callbacks that an event invokes: one or none.
  unfoldable pub dispatched : Callbacks → EventType → EngineEvent F → List (Called F)
  unfolding ended_pct
  dispatched cbs track_started ev = if cbs.on_track_started then started ev.track_id ∷ [] else []
  dispatched cbs track_ended ev =
      if cbs.on_track_ended then ended ev.track_id (ended_pct ev) ∷ [] else []
  dispatched cbs queue_changed ev = if cbs.on_queue_changed then changed ev.queue_id ∷ [] else []
  dispatched cbs failure ev = if cbs.on_error then errored ev.msg ∷ [] else []
  dispatched cbs _ ev = []

  abbrev pub prepend : List (Called F) → List (Called F) → List (Called F)
  prepend [] cs = cs
  prepend (c ∷ new) cs = c ∷ prepend new cs

  abbrev pub after_push : EngineEvent F → Engine F → Expected (Unit {0}) → Engine F
  after_push ev e (ok u) = record e { calls = prepend (dispatched e.callbacks ev.type ev) e.calls }
  after_push ev e (unexpected x) = e

  unfoldable pub push_event : EngineEvent F → Engine F → Engine F
  unfolding dispatched
  push_event ev e = let (q, r) = Mpsc.push ev e.events in after_push ev (record e { events = q }) r

  -- The loop of `preroll`; the list is what the following `decode` calls deliver.
  unfoldable pub preroll_loop : ℕ → ℕ → List (List F) → SpscRing F → SpscRing F
  preroll_loop ch need [] ring = ring
  preroll_loop ch need (samples ∷ rest) ring =
      let frames = length samples / ch in
      let (ring', written) = Ring.write ring samples in
      let more = preroll_loop ch (need - frames) rest ring' in
      if need == 0 || ltb (Ring.available_write ring) (chunk_frames ch)
      then ring
      else if frames == 0
      then ring
      else if ltb written frames
      then ring'
      else if ltb frames need
      then more
      else ring'

  unfoldable pub preroll : Media → List (List F) → SpscRing F → SpscRing F
  unfolding preroll_loop
  preroll media decoded ring =
      let ch = if media.channels == 0 then 2 else media.channels in
      let need = Ring.available_write ring / 2 in
      if need == 0 then ring else preroll_loop ch need decoded ring

module _ {F : Type 0} ⦃fl : Floats F⦄ (w : World F) where
  unfoldable pub reset_playback_accounting : Engine F → Engine F
  reset_playback_accounting e = record e {
    accumulated_playback_ms = 0;
    last_playback_sample_ms = now_ms w;
  }

  unfoldable pub account_playback_time : Engine F → Engine F
  account_playback_time e =
      let now = now_ms w in
      let last = e.last_playback_sample_ms in
      let sampled = record e { last_playback_sample_ms = now } in
      if last == 0 || ltb now last then sampled else record sampled {
        accumulated_playback_ms = add_size e.accumulated_playback_ms (now - last);
      }

  -- `std::isfinite(startSec) && startSec >= 0`, else the head of the track.
  unfoldable pub valid_start : F → F
  valid_start s = if not (fl.is_finite s) || fl.lt s (fl.of_int 0) then fl.of_int 0 else s

  -- Stop the device and drop the decoder, the reader, the ring and the device.
  unfoldable pub release_media : Engine F → Engine F
  release_media e = record e { output = none; decoder = none; has_reader = false; ring = none }

  unfoldable pub media_duration : Media → Track F → F
  media_duration m t =
      let d =
        if m.total_frames == 0
        then t.duration
        else fl.div (fl.of_int m.total_frames) (fl.of_int m.sample_rate) in
      if fl.le d (fl.of_int 0)
      then (if fl.lt (fl.of_int 0) t.duration then t.duration else fl.of_int 1)
      else d

  -- The offset from which position tracking starts: 0 when the resume seek fails.
  unfoldable pub started_at : F → F → F
  started_at dur start =
      if fl.lt (fl.of_int 0) start
      then (let target = if fl.lt (fl.of_int 0) dur && fl.lt dur start then dur else start in
          if has_value (w.seek_reply target) then start else fl.of_int 0)
      else start

  -- The ring, and the device where it can be opened, for an open decoder. The capacity is a product
  -- of 32-bit words.
  unfoldable pub open_output : Media → Engine F → Engine F
  unfolding preroll
  open_output m e =
      let sr = if m.sample_rate == 0 then 48000 else m.sample_rate in
      let ch = if m.channels == 0 then 2 else m.channels in
      let ring = Ring.make (fl.of_int 0) (8192 * ch % 2 ^ 32) ch in
      elim w.output_reply [
        | ok u ↦ record e {
          ring = some (preroll m w.decoded ring);
          output =
              some (record { sample_rate = sr; channels = ch; gain = e.volume; running = true });
        }
        | unexpected x ↦ record e { ring = some ring; last_err = x.message }
      ]

  -- What is tried with the file: the engine, the start offset, and whether the decoder opened.
  unfoldable pub open_path : Track F → F → Engine F → Engine F × F × Bool
  unfolding media_duration started_at open_output
  open_path t start e =
      if is_empty_string t.path then (e, start, false) else elim (w.open_media t.path) [
        | reader_failed x ↦ (record e { last_err = x.message }, start, false)
        | decoder_failed x ↦ (record e { has_reader = true; last_err = x.message }, start, false)
        | opened m ↦
            (let dur = media_duration m t in
              (
                open_output m (record e { has_reader = true; decoder = some m; duration = dur }),
                started_at dur start,
                true,
              ))
      ]

  -- Refusals and the timer-only fallback, once the file has been tried.
  unfoldable pub playable : Track F → Bool → Engine F → Engine F × Expected (Unit {0})
  playable t true e = elim e.output [
    | some o ↦ (e, ok tt)
    | none ↦ if e.cfg.allow_simulated_playback then (e, ok tt) else (
      record e { decoder = none; has_reader = false; ring = none },
      unexpected (make_error device (message_or e.last_err "audio device unavailable")),
    )
  ]
  playable t false e =
      if e.cfg.allow_simulated_playback
      then (
        record e { duration = if fl.lt (fl.of_int 0) t.duration then t.duration else fl.of_int 1 },
        ok tt,
      )
      else (
        e,
        unexpected (
            make_error not_found
              (message_or e.last_err (str_append "track file not playable: " t.path))),
      )

  -- The track is current, playing from `start`, and its state is saved.
  unfoldable pub begin_track : Track F → F → Engine F → Engine F
  unfolding has_db save_state
  begin_track t start e =
      let e' = record e {
        current_track = t;
        has_current = true;
        marked_played = false;
        gapless_armed = false;
        started_ms = w.wall_ms;
        state = record e.state { current_track_id = t.id; cursor_pos = e.queue.cursor };
        playback_state = playing;
        pause_pos = start;
        play_start_ns = w.now_ns;
      } in
      if has_db w e' then (save_state w e').0 else e'

  abbrev pub event_of_track : Track F → Engine F → EngineEvent F
  event_of_track t e = record {
    type = track_started;
    track_id = t.id;
    queue_id = e.queue.queue_id;
    position = fl.of_int 0;
    duration = e.duration;
    msg = "";
  }

  -- Begin the track, and tell the listeners, where it is playable.
  unfoldable pub finish_play :
      Track F → F → Engine F × Expected (Unit {0}) → Engine F × Expected (Unit {0})
  unfolding begin_track push_event
  finish_play t start (e, ok u) =
      let e' = begin_track t start e in (push_event (event_of_track t e') e', ok tt)
  finish_play t start (e, unexpected x) = (e, unexpected x)

  unfoldable pub do_play_track : Track F → F → Engine F → Engine F × Expected (Unit {0})
  unfolding valid_start release_media open_path playable finish_play
  do_play_track t start_sec e =
      let (e1, start, was_opened) = open_path t (valid_start start_sec) (release_media e) in
      finish_play t start (playable t was_opened e1)
