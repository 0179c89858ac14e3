-- ===== src/Engine/Tests.antt =====
-- Concrete engines for the code of src/engine/engine.cpp: runs, and the theorems at instances.
mod Orders
mod Machine
mod Stores
use Prim.Native.String.{String}
use caudio.Prelude.{
  ℕ, zero, suc, ◌+◌, ◌-◌, ◌*◌, ◌/◌, Bool, true, false, List, [], ◌∷◌, ◌++◌, Option, none, some, ltb,
  leb, if◌then◌else◌, Expected, ok, unexpected, make_error, not_found,
}
use caudio.Mpsc
use caudio.Engine.{
  Floats, Track, QueueState, EngineState, StoredState, Database, Media, opened, World, Engine,
  EngineConfig, Callbacks, PlaybackState, RepeatMode, off, all, stopped,
}

-- Whole numbers in place of the floating ones.
instance abbrev pub whole : Floats ℕ
whole = record {
  lt = ltb;
  le = leb;
  add = ◌+◌;
  sub = ◌-◌;
  mul = ◌*◌;
  div = ◌/◌;
  is_finite = λ x. true;
  of_int = λ x. x;
  to_int = λ x. x;
  half = 0;
  sixty_percent = 0;
  seconds_of_ns = λ ns. ns / 1_000_000_000;
}

abbrev pub song : ℕ → Track ℕ
song p = record { id = p + 100; path = "song.flac"; duration = 180 }

abbrev pub rotated : List ℕ → List ℕ
rotated [] = []
rotated (x ∷ xs) = xs ++ x ∷ []

abbrev pub settings : EngineState ℕ
settings = record {
  shuffle_enabled = 0;
  repeat_mode = all;
  cursor_pos = 0;
  current_track_id = 0;
  volume = 1;
  active_queue_id = 1;
  pre_mute_volume = 1;
  position_ms = 0;
}

-- A database with one queue of three tracks.
abbrev pub three_songs : Database ℕ
three_songs = record {
  is_open = true;
  queue_count = λ q. 3;
  queue_exists = λ q. ok true;
  queue_index_of = λ q t. some 1;
  queue_track_at = λ q p. if ltb p 3 then ok (song p) else unexpected (make_error not_found "row");
  load_engine_state = ok (record { core = settings; shuffle_perm = [] });
  save_engine_state = λ s. ok tt;
  save_engine_shuffle = λ on p c. ok tt;
  save_engine_cursor = λ c. ok tt;
  mark_played_reply = ok tt;
}

abbrev pub world : World ℕ
world = record {
  now_ns = 5_000_000_000;
  wall_ms = 1_000;
  queue_free = true;
  shuffled = rotated;
  db = three_songs;
  open_media =
      λ path. opened (record { total_frames = 48_000; sample_rate = 48_000; channels = 2 });
  seek_reply = λ s. ok tt;
  output_reply = ok tt;
  decoded = [];
}

abbrev pub in_order : QueueState
in_order = record { shuffle = false; repeat = all; perm = []; cursor = 0; queue_id = 1 }

abbrev pub no_callbacks : Callbacks
no_callbacks = record {
  on_track_started = false;
  on_track_ended = false;
  on_queue_changed = false;
  on_error = false;
}

abbrev pub options : EngineConfig
options = record {
  enable_monitor_thread = false;
  poll_ms = 100;
  gapless_ms = 0;
  history_threshold_pct = 50;
  history_threshold_secs = 240;
  allow_simulated_playback = true;
  auto_resume_on_play = false;
  callbacks = no_callbacks;
}

-- An engine with that database attached and `q` as its queue.
abbrev pub engine_at : QueueState → Engine ℕ
engine_at q = record {
  cfg = options;
  state = settings;
  queue = q;
  current_track = record { id = 0; path = ""; duration = 0 };
  has_current = false;
  duration = 0;
  volume = 1;
  pre_mute = 1;
  playback_state = stopped;
  play_start_ns = 0;
  pause_pos = 0;
  accumulated_playback_ms = 0;
  last_playback_sample_ms = 0;
  marked_played = false;
  started_ms = 0;
  last_err = "";
  attached = true;
  has_reader = false;
  decoder = none;
  ring = none;
  output = none;
  decode_run = false;
  mon_run = false;
  events = record { cap = 2; buf = none ∷ none ∷ []; wr = 0; rd = 0 };
  callbacks = no_callbacks;
  last_progress_ms = 0;
  last_vol_save_ms = 0;
  last_pos_save_ms = 0;
  gapless_armed = false;
  writes = [];
  calls = [];
}
