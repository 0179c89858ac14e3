-- ===== src/Ipc.antt =====
-- src/ipc/protocol.cpp and include/caudio/ipc: the commands, their codec and the framing.
pub mod Writing
pub mod Reading
pub mod Roundtrip
pub mod Frame
pub mod Result
mod Tests
use Prim.Native.String.{String}
use caudio.Prelude.{ℕ, Bool, List, Option}
use caudio.Engine.{RepeatMode}

-- `ipc::Command` of include/caudio/ipc/command/variant.hpp: its alternatives with their fields.
-- `F` is `double` and `S` is `float`; an `int` is a 32-bit word.
pub data Command (F S : Type 0) : Type 0 where
  play : Command F S
  pause : Command F S
  resume : Command F S
  restart : Command F S
  stop : Command F S
  next : Command F S
  prev : Command F S
  seek : F → Command F S
  status_req : Command F S
  volume_set : Option S → Option Bool → Option ℕ → Command F S
  queue_list : String → Command F S
  queue_queues : Command F S
  queue_create : String → Command F S
  queue_delete : ℕ → Command F S
  play_files : List String → Bool → Command F S
  queue_switch : ℕ → Command F S
  queue_add : String → Bool → Command F S
  queue_remove : String → Command F S
  queue_move : ℕ → ℕ → Command F S
  queue_clear : Command F S
  queue_shuffle : Option Bool → Command F S
  queue_repeat : Option RepeatMode → Command F S
  playlist_list : Command F S
  playlist_tracks : ℕ → Command F S
  playlist_create : String → Command F S
  playlist_add : ℕ → ℕ → Command F S
  playlist_load : ℕ → Bool → Bool → Command F S
  playlist_save : String → Option ℕ → Command F S
  playlist_delete : ℕ → Command F S
  playlist_rename : ℕ → String → Command F S
  playlist_export : ℕ → String → String → Command F S
  playlist_import : String → Option String → Command F S
  library_scan : Option String → Bool → Command F S
  library_search : String → ℕ → Command F S
  library_stats : Option ℕ → Command F S
  library_add : String → Bool → Command F S
  library_remove : String → Command F S
  library_list : Option String → ℕ → ℕ → Option String → Option String → Option String → Command F S
  tag_edit : ℕ → String → String → Command F S
  tag_get : ℕ → Command F S
  config_get : String → Command F S
  config_set : String → String → Command F S
  config_list : Command F S
  config_export : String → Command F S
  config_import : String → Command F S
  config_reset : Option String → Command F S
  history_list : Option ℕ → Command F S
  history_clear : Command F S
  bookmark_list : Option ℕ → Command F S
  bookmark_add : ℕ → String → Option ℕ → Command F S
  bookmark_remove : ℕ → Command F S
  bookmark_goto : ℕ → Command F S
  shutdown : Command F S
  preview : String → Command F S
  device_list : Command F S
  device_set : String → Command F S
  device_test : Option String → Command F S
  info : Command F S
