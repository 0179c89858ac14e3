-- ===== src/Ipc/Result.antt =====
-- include/caudio/ipc/result: the results that the service returns, and their codec in
-- src/ipc/protocol.cpp.
pub mod Errors
pub mod Each
pub mod Writing
pub mod Entries
pub mod Later
pub mod Reading
pub mod Lists
pub mod Known
pub mod Roundtrip
use Prim.Native.String.{String}
use caudio.Prelude.{ℕ, Bool, List, Option, Error}
use caudio.Engine.{RepeatMode}
use caudio.Record.{Track}

-- `state` is the byte of a PlaybackState.
pub record Status (F S : Type 0) : Type 0 where
  pub state : ℕ
  pub pos : F
  pub dur : F
  pub vol : S
  pub muted : Bool
  pub shuffle : Bool
  pub repeat : RepeatMode
  pub track_id : ℕ
  pub title : String
  pub artist : String
  pub path : String
  pub q_size : ℕ
  pub q_idx : ℕ
  pub version : String

pub record QueueEntry : Type 0 where
  pub id : ℕ
  pub name : String
  pub tracks : ℕ
  pub active : Bool
  pub temp : Bool

pub record LibraryStats (F : Type 0) : Type 0 where
  pub tracks : ℕ
  pub queues : ℕ
  pub playlists : ℕ
  pub total_duration_ms : ℕ
  pub total_play_time_ms : ℕ
  pub most_played : Option (List (Track F))

pub record Playlist : Type 0 where
  pub id : ℕ
  pub name : String
  pub type : ℕ
  pub smart_query : String
  pub created : ℕ
  pub modified : ℕ
  pub library_id : ℕ

pub record ConfigValue : Type 0 where
  pub key : String
  pub value : String

pub record HistoryEntry (F : Type 0) : Type 0 where
  pub id : ℕ
  pub track_id : ℕ
  pub started_at : ℕ
  pub completed_at : ℕ
  pub position_ms : ℕ
  pub completion_pct : F
  pub queue_id : ℕ
  pub title : String
  pub artist : String
  pub path : String
  pub duration : F

pub record Bookmark : Type 0 where
  pub id : ℕ
  pub track_id : ℕ
  pub position_ms : ℕ
  pub note : String
  pub created : ℕ

pub record DeviceInfo : Type 0 where
  pub id : String
  pub name : String
  pub is_default : Bool

-- `ipc::Result` of include/caudio/ipc/result/variant.hpp.
pub data Result (F S : Type 0) : Type 0 where
  status : Status F S → Result F S
  queue_tracks : List (Track F) → Result F S
  queues : List QueueEntry → Result F S
  queue_created : ℕ → String → Result F S
  playlist_loaded : ℕ → Status F S → Result F S
  volume_info : S → Bool → Result F S
  library_stats : LibraryStats F → Result F S
  tracks : List (Track F) → Result F S
  search_results : String → List (Track F) → Result F S
  playlists : List Playlist → Result F S
  playlist_data : List (Track F) → String → Result F S
  playlist_created : ℕ → String → Result F S
  playlist_import_report : ℕ → String → List (Track F) → ℕ → ℕ → ℕ → Result F S
  scan_report : ℕ → Result F S
  config_value : ConfigValue → Result F S
  config_values : List ConfigValue → Result F S
  single_track : Track F → Result F S
  track_info : Track F → ℕ → ℕ → Result F S
  history : List (HistoryEntry F) → Result F S
  bookmarks : List Bookmark → Result F S
  nothing : Result F S
  cli_error : Error → Result F S
  devices : List DeviceInfo → Result F S
