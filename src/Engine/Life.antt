-- ===== src/Engine/Life.antt =====
-- src/engine/engine.cpp: the engine's construction, what it reports, and the iterations of its two
-- threads (monitorLoop, decodeLoop).
pub mod Born
pub mod Fill
use caudio.Prelude.{
  ℕ, zero, suc, ◌-◌, ◌*◌, ◌/◌, Bool, true, false, not, ◌&&◌, List, [], ◌∷◌, Option, none, some,
  ◌==◌, ltb, if◌then◌else◌, length, Expected, ok, unexpected,
}
use caudio.Mpsc
use caudio.Ring
use caudio.Ring.{SpscRing}
use caudio.Engine.{
  Floats, Track, EngineState, World, Engine, EngineConfig, Media, PlaybackState, stopped, off,
}
use caudio.Engine.Persist.{now_ms, current_position_locked}
use caudio.Engine.Transport.{is_playing}
use caudio.Engine.Tick.{is_pos, or_default}

module _ {F : Type 0} ⦃fl : Floats F⦄ (w : World F) where
  -- `Engine::Impl(cfg)`: the configuration's zeroes take their defaults; the event queue has room
  -- for 64 events.
  unfoldable pub construct : EngineConfig → Engine F
  construct cfg = record {
    cfg = record cfg {
      poll_ms = or_default cfg.poll_ms 10;
      gapless_ms = or_default cfg.gapless_ms 300;
      history_threshold_pct = or_default cfg.history_threshold_pct 60;
      history_threshold_secs = or_default cfg.history_threshold_secs 90;
    };
    state = record {
      shuffle_enabled = 0;
      repeat_mode = off;
      cursor_pos = 0;
      current_track_id = 0;
      volume = fl.of_int 1;
      active_queue_id = 1;
      pre_mute_volume = fl.half;
      position_ms = 0;
    };
    queue = record { shuffle = false; repeat = off; perm = []; cursor = 0; queue_id = 1 };
    current_track = record { id = 0; path = ""; duration = fl.of_int 0 };
    has_current = false;
    duration = fl.of_int 0;
    volume = fl.of_int 1;
    pre_mute = fl.half;
    playback_state = stopped;
    play_start_ns = 0;
    pause_pos = fl.of_int 0;
    accumulated_playback_ms = 0;
    last_playback_sample_ms = now_ms w;
    marked_played = false;
    started_ms = 0;
    last_err = "";
    attached = false;
    has_reader = false;
    decoder = none;
    ring = none;
    output = none;
    decode_run = false;
    mon_run = false;
    events = Mpsc.make 64;
    callbacks = cfg.callbacks;
    last_progress_ms = 0;
    last_vol_save_ms = 0;
    last_pos_save_ms = 0;
    gapless_armed = false;
    writes = [];
    calls = [];
  }

  -- `init()`: the threads run from here on.
  unfoldable pub init : Engine F → Engine F
  init e = record e {
    decode_run = true;
    mon_run = if e.cfg.enable_monitor_thread then true else e.mon_run;
  }

  unfoldable pub current_track_id : Engine F → ℕ
  current_track_id e = if e.has_current then e.current_track.id else e.state.current_track_id

  unfoldable pub position : Engine F → F
  position e = current_position_locked w e

  -- How long `monitorLoop` waits between two ticks, in milliseconds.
  unfoldable pub poll_interval : Engine F → ℕ
  poll_interval e =
      let poll = if is_pos e.cfg.poll_ms then e.cfg.poll_ms else 10 in
      if is_playing e.playback_state
      then if poll == 10 then 25 else poll
      else if poll == 10
      then 100
      else if ltb 100 poll
      then poll
      else 100

  -- The frames of `ch` samples that `decodeLoop` asks the decoder for when `avail` fit.
  unfoldable pub chunk_size : ℕ → ℕ → ℕ
  chunk_size avail ch =
      let n = if ltb 1024 (avail / ch) then 1024 else avail / ch in
      let m = if ltb (2048 / ch) n then 2048 / ch else n in if m == 0 then 1 else m

  abbrev pub channels_of : Media → ℕ
  channels_of m = if m.channels == 0 then 2 else m.channels

  -- What the decoder delivers into a buffer of `n` samples: the next chunk, or nothing at the end.
  abbrev pub decoded_into : ℕ → List (List F) → List F
  decoded_into n [] = []
  decoded_into n (samples ∷ rest) = samples

  -- Nothing is written at the end of the stream.
  unfoldable pub append_decoded : ℕ → List F → SpscRing F → SpscRing F × ℕ
  append_decoded ch samples ring =
      if length samples / ch == 0 then (ring, 0) else Ring.write ring samples

  -- One iteration of `decodeLoop` with a decoder and a ring: the ring after it, and how many of the
  -- decoded frames were written.
  unfoldable pub decode_into : Media → SpscRing F → SpscRing F × ℕ
  unfolding chunk_size append_decoded
  decode_into m ring =
      let ch = channels_of m in
      let avail = Ring.available_write ring in
      if avail == 0
      then (ring, 0)
      else append_decoded ch (decoded_into (chunk_size avail ch * ch) w.decoded) ring

  unfoldable pub decode_step : Engine F → Engine F
  unfolding decode_into
  decode_step e =
      if is_playing e.playback_state
      then elim e.decoder [
        | none ↦ e
        | some m ↦ elim e.ring [
          | none ↦ e
          | some ring ↦ record e { ring = some (decode_into m ring).0 }
        ]
      ]
      else e
