-- ===== src/Engine.antt =====
-- src/engine/engine.cpp: the playback engine's data. The operations are in the modules below.
-- What an operation meets while it runs is its `World`: the clocks, whether `queueMutex_` can be
-- taken, the replies of the database contract, and those of the decoder and the audio device.
pub mod Persist
pub mod Traverse
pub mod Play
pub mod Transport
pub mod Commands
pub mod Settings
pub mod Tick
pub mod View
pub mod Started
pub mod Machine
pub mod Life
pub mod Events
pub mod Notified
pub mod Replay
pub mod Clock
pub mod Saved
pub mod History
pub mod Enqueued
pub mod Volume
pub mod Switched
pub mod Whole
pub mod Current
mod Tests
use Prim.Native.String.{String}
use caudio.Prelude.{ℕ, Bool, List, Option, Expected, Error}
use caudio.Mpsc.{MpscQueue}
use caudio.Ring.{SpscRing}

-- `types::RepeatMode`; `other` is a byte that names none of its enumerators.
pub data RepeatMode : Type 0 where
  off all one : RepeatMode
  other : ℕ → RepeatMode

pub data PlaybackState : Type 0 where
  stopped ready playing paused : PlaybackState

-- `float` and `double`: an abstract type and the operations that the engine uses. Integers come
-- and go as 64-bit words; `seconds_of_ns` is `duration<double>(d).count()`, `half` and
-- `sixty_percent` are the literals 0.5 and 0.6.
pub record Floats (F : Type 0) : Type 0 where
  pub lt : F → F → Bool
  pub le : F → F → Bool
  pub add : F → F → F
  pub sub : F → F → F
  pub mul : F → F → F
  pub div : F → F → F
  pub is_finite : F → Bool
  pub of_int : ℕ → F
  pub to_int : F → ℕ
  pub half : F
  pub sixty_percent : F
  pub seconds_of_ns : ℕ → F

-- The fields of `types::Track` that the engine reads.
pub record Track (F : Type 0) : Type 0 where
  pub id : ℕ
  pub path : String
  pub duration : F

pub record QueueState : Type 0 where
  pub shuffle : Bool
  pub repeat : RepeatMode
  pub perm : List ℕ
  pub cursor : ℕ
  pub queue_id : ℕ

pub record EngineState (F : Type 0) : Type 0 where
  pub shuffle_enabled : ℕ
  pub repeat_mode : RepeatMode
  pub cursor_pos : ℕ
  pub current_track_id : ℕ
  pub volume : F
  pub active_queue_id : ℕ
  pub pre_mute_volume : F
  pub position_ms : ℕ

-- `types::EngineState`, the row that is loaded and saved: the state and the shuffle order.
pub record StoredState (F : Type 0) : Type 0 where
  pub core : EngineState F
  pub shuffle_perm : List ℕ

-- `contracts::IDatabase`, as far as the engine calls it: the replies.
pub record Database (F : Type 0) : Type 0 where
  pub is_open : Bool
  pub queue_count : ℕ → ℕ
  pub queue_exists : ℕ → Expected Bool
  pub queue_index_of : ℕ → ℕ → Option ℕ
  pub queue_track_at : ℕ → ℕ → Expected (Track F)
  pub load_engine_state : Expected (StoredState F)
  pub save_engine_state : StoredState F → Expected (Unit {0})
  pub save_engine_shuffle : Bool → List ℕ → ℕ → Expected (Unit {0})
  pub save_engine_cursor : ℕ → Expected (Unit {0})
  pub mark_played_reply : Expected (Unit {0})

-- A call that writes to the database, with its arguments.
pub data Write (F : Type 0) : Type 0 where
  saves_state : StoredState F → Write F
  saves_shuffle : Bool → List ℕ → ℕ → Write F
  saves_cursor : ℕ → Write F
  marks_played : ℕ → ℕ → ℕ → ℕ → F → ℕ → Write F

-- What an opened decoder says of its stream.
pub record Media : Type 0 where
  pub total_frames : ℕ
  pub sample_rate : ℕ
  pub channels : ℕ

pub data Opened : Type 0 where
  reader_failed : Error → Opened
  decoder_failed : Error → Opened
  opened : Media → Opened

-- `player::AudioOutput`: its configuration and whether the device runs.
pub record Output (F : Type 0) : Type 0 where
  pub sample_rate : ℕ
  pub channels : ℕ
  pub gain : F
  pub running : Bool

-- `now_ns` is `steady_clock::now()`, `wall_ms` the system clock. `shuffled` is
-- `std::ranges::shuffle` with the generator of the call. `decoded` are the samples that the
-- successive `Decoder::decode` calls deliver.
pub record World (F : Type 0) : Type 0 where
  pub now_ns : ℕ
  pub wall_ms : ℕ
  pub queue_free : Bool
  pub shuffled : List ℕ → List ℕ
  pub db : Database F
  pub open_media : String → Opened
  pub seek_reply : F → Expected (Unit {0})
  pub output_reply : Expected (Unit {0})
  pub decoded : List (List F)

pub data EventType : Type 0 where
  no_event track_started track_ended queue_changed progress failure : EventType

pub record EngineEvent (F : Type 0) : Type 0 where
  pub type : EventType
  pub track_id : ℕ
  pub queue_id : ℕ
  pub position : F
  pub duration : F
  pub msg : String

-- Which of the callbacks of `EngineCallbacks` are set.
pub record Callbacks : Type 0 where
  pub on_track_started : Bool
  pub on_track_ended : Bool
  pub on_queue_changed : Bool
  pub on_error : Bool

-- A callback that was invoked, with its arguments.
pub data Called (F : Type 0) : Type 0 where
  started : ℕ → Called F
  ended : ℕ → F → Called F
  changed : ℕ → Called F
  errored : String → Called F

pub record EngineConfig : Type 0 where
  pub enable_monitor_thread : Bool
  pub poll_ms : ℕ
  pub gapless_ms : ℕ
  pub history_threshold_pct : ℕ
  pub history_threshold_secs : ℕ
  pub allow_simulated_playback : Bool
  pub auto_resume_on_play : Bool
  pub callbacks : Callbacks

-- `Engine::Impl`. `attached` says that `db_` is set; `writes` and `calls` list the writing calls
-- on the database and the callbacks invoked, the last first.
pub record Engine (F : Type 0) : Type 0 where
  pub cfg : EngineConfig
  pub state : EngineState F
  pub queue : QueueState
  pub current_track : Track F
  pub has_current : Bool
  pub duration : F
  pub volume : F
  pub pre_mute : F
  pub playback_state : PlaybackState
  pub play_start_ns : ℕ
  pub pause_pos : F
  pub accumulated_playback_ms : ℕ
  pub last_playback_sample_ms : ℕ
  pub marked_played : Bool
  pub started_ms : ℕ
  pub last_err : String
  pub attached : Bool
  pub has_reader : Bool
  pub decoder : Option Media
  pub ring : Option (SpscRing F)
  pub output : Option (Output F)
  pub decode_run : Bool
  pub mon_run : Bool
  pub events : MpscQueue (EngineEvent F)
  pub callbacks : Callbacks
  pub last_progress_ms : ℕ
  pub last_vol_save_ms : ℕ
  pub last_pos_save_ms : ℕ
  pub gapless_armed : Bool
  pub writes : List (Write F)
  pub calls : List (Called F)
