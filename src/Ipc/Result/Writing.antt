-- ===== src/Ipc/Result/Writing.antt =====
-- toJson(const Result&) of src/ipc/protocol.cpp.
use Prim.Native.String.{String}
use caudio.Prelude.{ℕ, ◌==◌, if◌then◌else◌, none, some, Expected, ok, ◌>>=◌}
use caudio.Engine.{RepeatMode, off, all, one, other}
use caudio.Json.{
  Json, Singles, null, boolean, integer, unsigned, real, string, array, nil, put, sign_extend,
}
use caudio.Record.{track_to_json}
use caudio.Ipc.Writing.{typed, repeat_text}
use caudio.Ipc.Result.{
  Result, Status, QueueEntry, LibraryStats, Playlist, ConfigValue, HistoryEntry, Bookmark,
  DeviceInfo, status, queue_tracks, queues, queue_created, playlist_loaded, volume_info,
  library_stats, tracks, search_results, playlists, playlist_data, playlist_created,
  playlist_import_report, scan_report, config_value, config_values, single_track, track_info,
  history, bookmarks, nothing, cli_error, devices,
}
use caudio.Ipc.Result.Errors.{error_to_json}
use caudio.Ipc.Result.Each.{push_each}

-- `toString(PlaybackState)` of include/caudio/types/format.hpp, on the byte of the state.
unfoldable pub state_text : ℕ → String
state_text b =
    if b == 0
    then "Stopped"
    else if b == 1
    then "Ready"
    else if b == 2
    then "Playing"
    else if b == 3
    then "Paused"
    else "Unknown"

-- `std::to_underlying` of a repeat mode.
unfoldable pub repeat_value : RepeatMode → ℕ
repeat_value off = 0
repeat_value all = 1
repeat_value one = 2
repeat_value (other b) = b

module _ {F : Type 0} where
  unfoldable pub entry_to_json : QueueEntry → Expected (Json F)
  unfolding put
  entry_to_json e = do
    j ← put "id" (integer e.id) null
    j ← put "name" (string e.name) j
    j ← put "tracks" (unsigned e.tracks) j
    j ← put "active" (boolean e.active) j
    put "temp" (boolean e.temp) j

  unfoldable pub playlist_to_json : Playlist → Expected (Json F)
  unfolding put
  playlist_to_json e = do
    j ← put "id" (integer e.id) null
    j ← put "name" (string e.name) j
    j ← put "type" (integer (sign_extend e.type)) j
    j ← put "smart_query" (string e.smart_query) j
    j ← put "created" (integer e.created) j
    j ← put "modified" (integer e.modified) j
    put "library_id" (integer e.library_id) j

  unfoldable pub config_value_to_json : ConfigValue → Expected (Json F)
  unfolding put
  config_value_to_json e = do j ← put "key" (string e.key) null; put "value" (string e.value) j

  unfoldable pub entry_of_history_to_json : HistoryEntry F → Expected (Json F)
  unfolding put
  entry_of_history_to_json e = do
    j ← put "id" (integer e.id) null
    j ← put "track_id" (integer e.track_id) j
    j ← put "started_at" (integer e.started_at) j
    j ← put "completed_at" (integer e.completed_at) j
    j ← put "position_ms" (integer e.position_ms) j
    j ← put "completion_pct" (real e.completion_pct) j
    j ← put "queue_id" (integer e.queue_id) j
    j ← put "title" (string e.title) j
    j ← put "artist" (string e.artist) j
    j ← put "path" (string e.path) j
    put "duration" (real e.duration) j

  unfoldable pub bookmark_to_json : Bookmark → Expected (Json F)
  unfolding put
  bookmark_to_json e = do
    j ← put "id" (integer e.id) null
    j ← put "track_id" (integer e.track_id) j
    j ← put "position_ms" (integer e.position_ms) j
    j ← put "note" (string e.note) j
    put "created" (integer e.created) j

  unfoldable pub device_to_json : DeviceInfo → Expected (Json F)
  unfolding put
  device_to_json e = do
    j ← put "id" (string e.id) null
    j ← put "name" (string e.name) j
    put "isDefault" (boolean e.is_default) j

  unfoldable pub library_stats_to_json : LibraryStats F → Expected (Json F)
  unfolding typed put push_each
  library_stats_to_json v = do
    j ← typed "LibraryStats"
    j ← put "tracks" (unsigned v.tracks) j
    j ← put "queues" (unsigned v.queues) j
    j ← put "playlists" (unsigned v.playlists) j
    j ← put "total_duration_ms" (integer v.total_duration_ms) j
    j ← put "total_play_time_ms" (integer v.total_play_time_ms) j
    elim v.most_played [
      | none ↦ ok j
      | some ts ↦ do
        j' ← put "most_played" (array nil) j
        push_each track_to_json "most_played" ts j'
    ]

module _ {F S : Type 0} ⦃si : Singles F S⦄ where
  unfoldable pub status_to_json : Status F S → Expected (Json F)
  unfolding typed put state_text repeat_text repeat_value
  status_to_json v = do
    j ← typed "Status"
    j ← put "state" (string (state_text v.state)) j
    j ← put "state_value" (unsigned v.state) j
    j ← put "pos" (real v.pos) j
    j ← put "dur" (real v.dur) j
    j ← put "vol" (real (si.widen v.vol)) j
    j ← put "muted" (boolean v.muted) j
    j ← put "shuffle" (boolean v.shuffle) j
    j ← put "repeat" (string (repeat_text v.repeat)) j
    j ← put "repeat_value" (unsigned (repeat_value v.repeat)) j
    j ← put "track_id" (integer v.track_id) j
    j ← put "title" (string v.title) j
    j ← put "artist" (string v.artist) j
    j ← put "path" (string v.path) j
    j ← put "q_size" (unsigned v.q_size) j
    j ← put "q_idx" (unsigned v.q_idx) j
    put "version" (string v.version) j

  unfoldable pub result_to_json : Result F S → Expected (Json F)
  unfolding typed put
  result_to_json (status v) = status_to_json v
  result_to_json (queue_tracks ts) = do
    j ← typed "QueueTracks"
    j ← put "tracks" (array nil) j
    push_each track_to_json "tracks" ts j
  result_to_json (queues qs) = do
    j ← typed "Queues"
    j ← put "queues" (array nil) j
    push_each entry_to_json "queues" qs j
  result_to_json (queue_created id name) = do
    j ← typed "QueueCreated"
    j ← put "id" (integer id) j
    put "name" (string name) j
  result_to_json (playlist_loaded queue_id v) = do
    j ← typed "PlaylistLoaded"
    j ← put "queue_id" (integer queue_id) j
    s ← status_to_json v
    put "status" s j
  result_to_json (volume_info vol muted) = do
    j ← typed "VolumeInfo"
    j ← put "vol" (real (si.widen vol)) j
    put "muted" (boolean muted) j
  result_to_json (library_stats v) = library_stats_to_json v
  result_to_json (tracks ts) = do
    j ← typed "Tracks"
    j ← put "tracks" (array nil) j
    push_each track_to_json "tracks" ts j
  result_to_json (search_results query ts) = do
    j ← typed "SearchResults"
    j ← put "query" (string query) j
    j ← put "tracks" (array nil) j
    push_each track_to_json "tracks" ts j
  result_to_json (scan_report added) = do j ← typed "ScanReport"; put "added" (unsigned added) j
  result_to_json (playlists ps) = do
    j ← typed "Playlists"
    j ← put "playlists" (array nil) j
    push_each playlist_to_json "playlists" ps j
  result_to_json (playlist_data ts format) = do
    j ← typed "PlaylistData"
    j ← put "tracks" (array nil) j
    j ← push_each track_to_json "tracks" ts j
    put "format" (string format) j
  result_to_json (playlist_created id name) = do
    j ← typed "PlaylistCreated"
    j ← put "id" (integer id) j
    put "name" (string name) j
  result_to_json (playlist_import_report pid name ts matched skipped duplicates) = do
    j ← typed "PlaylistImportReport"
    j ← put "pid" (integer pid) j
    j ← put "name" (string name) j
    j ← put "tracks" (array nil) j
    j ← push_each track_to_json "tracks" ts j
    j ← put "matched" (unsigned matched) j
    j ← put "skipped" (unsigned skipped) j
    put "duplicates" (unsigned duplicates) j
  result_to_json (config_value v) = do
    j ← typed "ConfigValue"
    j ← put "key" (string v.key) j
    put "value" (string v.value) j
  result_to_json (config_values vs) = do
    j ← typed "ConfigValues"
    j ← put "values" (array nil) j
    push_each config_value_to_json "values" vs j
  result_to_json (single_track t) = do j ← typed "SingleTrack"; v ← track_to_json t; put "track" v j
  result_to_json (track_info t play_count last_played) = do
    j ← typed "TrackInfo"
    v ← track_to_json t
    j ← put "track" v j
    j ← put "play_count" (integer play_count) j
    put "last_played" (integer last_played) j
  result_to_json (history es) = do
    j ← typed "History"
    j ← put "entries" (array nil) j
    push_each entry_of_history_to_json "entries" es j
  result_to_json (bookmarks es) = do
    j ← typed "Bookmarks"
    j ← put "entries" (array nil) j
    push_each bookmark_to_json "entries" es j
  result_to_json (devices ds) = do
    j ← typed "Devices"
    j ← put "devices" (array nil) j
    push_each device_to_json "devices" ds j
  result_to_json nothing = typed "Empty"
  result_to_json (cli_error e) = error_to_json e
