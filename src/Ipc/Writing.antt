-- ===== src/Ipc/Writing.antt =====
-- toJson(const Command&) of src/ipc/protocol.cpp.
use Prim.Native.String.{String}
use caudio.Prelude.{ℕ, Bool, List, [], ◌∷◌, none, some, Expected, ok, ◌>>=◌}
use caudio.Engine.{RepeatMode, off, all, one, other}
use caudio.Json.{
  Json, Singles, null, boolean, integer, unsigned, real, string, array, nil, put, push_back,
  or_null, sign_extend,
}
use caudio.Ipc.{
  Command, play, pause, resume, restart, stop, next, prev, seek, status_req, volume_set, queue_list,
  queue_queues, queue_create, queue_delete, play_files, queue_switch, queue_add, queue_remove,
  queue_move, queue_clear, queue_shuffle, queue_repeat, playlist_list, playlist_tracks,
  playlist_create, playlist_add, playlist_load, playlist_save, playlist_delete, playlist_rename,
  playlist_export, playlist_import, library_scan, library_search, library_stats, library_add,
  library_remove, library_list, tag_edit, tag_get, config_get, config_set, config_list,
  config_export, config_import, config_reset, history_list, history_clear, bookmark_list,
  bookmark_add, bookmark_remove, bookmark_goto, shutdown, preview, device_list, device_set,
  device_test, info,
}

-- `toString(RepeatMode)` of include/caudio/types/format.hpp.
unfoldable pub repeat_text : RepeatMode → String
repeat_text off = "Off"
repeat_text all = "All"
repeat_text one = "One"
repeat_text (other b) = "Unknown"

module _ {F : Type 0} where
  -- `Json j; j["type"] = t;`
  unfoldable pub typed : String → Expected (Json F)
  unfolding put
  typed t = put "type" (string t) null

  -- `for (const auto& p : v.paths) { Json e; e = p; j[k].push_back(e); }`
  unfoldable pub push_all : String → List String → Json F → Expected (Json F)
  unfolding push_back
  push_all k [] j = ok j
  push_all k (p ∷ ps) j = do j' ← push_back k (string p) j; push_all k ps j'

module _ {F S : Type 0} ⦃si : Singles F S⦄ where
  -- The alternatives from the library commands on.
  later_to_json : Command F S → Expected (Json F)
  unfolding typed put or_null
  later_to_json (library_scan path full_hash) = do
    j ← typed "LibraryScan"
    j ← put "path" (or_null (λ (x : String). string x) path) j
    put "full_hash" (boolean full_hash) j
  later_to_json (library_search query limit) = do
    j ← typed "LibrarySearch"
    j ← put "query" (string query) j
    put "limit" (integer (sign_extend limit)) j
  later_to_json (library_stats none) = typed "LibraryStats"
  later_to_json (library_stats (some top_n)) = do
    j ← typed "LibraryStats"
    put "top_n" (integer (sign_extend top_n)) j
  later_to_json (library_add path recursive) = do
    j ← typed "LibraryAdd"
    j ← put "path" (string path) j
    put "recursive" (boolean recursive) j
  later_to_json (library_remove query) = do j ← typed "LibraryRemove"; put "query" (string query) j
  later_to_json (library_list query limit offset artist album genre) = do
    j ← typed "LibraryList"
    j ← put "query" (or_null (λ (x : String). string x) query) j
    j ← put "limit" (integer (sign_extend limit)) j
    j ← put "offset" (integer (sign_extend offset)) j
    j ← put "artist" (or_null (λ (x : String). string x) artist) j
    j ← put "album" (or_null (λ (x : String). string x) album) j
    put "genre" (or_null (λ (x : String). string x) genre) j
  later_to_json (tag_edit id name value) = do
    j ← typed "TagEdit"
    j ← put "id" (integer id) j
    j ← put "field" (string name) j
    put "value" (string value) j
  later_to_json (tag_get id) = do j ← typed "TagGet"; put "id" (integer id) j
  later_to_json (config_get key) = do j ← typed "ConfigGet"; put "key" (string key) j
  later_to_json (config_set key value) = do
    j ← typed "ConfigSet"
    j ← put "key" (string key) j
    put "value" (string value) j
  later_to_json config_list = typed "ConfigList"
  later_to_json (config_export path) = do j ← typed "ConfigExport"; put "path" (string path) j
  later_to_json (config_import path) = do j ← typed "ConfigImport"; put "path" (string path) j
  later_to_json (config_reset key) = do
    j ← typed "ConfigReset"
    put "key" (or_null (λ (x : String). string x) key) j
  later_to_json (history_list limit) = do
    j ← typed "HistoryList"
    put "limit" (or_null (λ (x : ℕ). integer (sign_extend x)) limit) j
  later_to_json history_clear = typed "HistoryClear"
  later_to_json (bookmark_list track_id) = do
    j ← typed "BookmarkList"
    put "track_id" (or_null (λ (x : ℕ). integer x) track_id) j
  later_to_json (bookmark_add position_ms note track_id) = do
    j ← typed "BookmarkAdd"
    j ← put "position_ms" (integer position_ms) j
    j ← put "note" (string note) j
    put "track_id" (or_null (λ (x : ℕ). integer x) track_id) j
  later_to_json (bookmark_remove id) = do j ← typed "BookmarkRemove"; put "id" (integer id) j
  later_to_json (bookmark_goto id) = do j ← typed "BookmarkGoto"; put "id" (integer id) j
  later_to_json shutdown = typed "Shutdown"
  later_to_json (preview file) = do j ← typed "Preview"; put "file" (string file) j
  later_to_json device_list = typed "DeviceList"
  later_to_json (device_set id) = do j ← typed "DeviceSet"; put "id" (string id) j
  later_to_json (device_test id) = do
    j ← typed "DeviceTest"
    put "id" (or_null (λ (x : String). string x) id) j
  later_to_json info = typed "Info"
  later_to_json c = ok null

  unfoldable pub to_json : Command F S → Expected (Json F)
  unfolding typed push_all put or_null repeat_text later_to_json
  to_json play = typed "Play"
  to_json pause = typed "Pause"
  to_json resume = typed "Resume"
  to_json restart = typed "Restart"
  to_json stop = typed "Stop"
  to_json next = typed "Next"
  to_json prev = typed "Prev"
  to_json (seek seconds) = do j ← typed "Seek"; put "seconds" (real seconds) j
  to_json status_req = typed "StatusReq"
  to_json (volume_set level mute delta_pct) = do
    j ← typed "VolumeSet"
    j ← put "level" (or_null (λ (x : S). real (si.widen x)) level) j
    j ← put "mute" (or_null (λ (x : Bool). boolean x) mute) j
    put "deltaPct" (or_null (λ (x : ℕ). integer (sign_extend x)) delta_pct) j
  to_json (queue_list order) = do j ← typed "QueueList"; put "order" (string order) j
  to_json queue_queues = typed "QueueQueues"
  to_json (queue_create name) = do j ← typed "QueueCreate"; put "name" (string name) j
  to_json (queue_delete qid) = do j ← typed "QueueDelete"; put "qid" (integer qid) j
  to_json (play_files paths save) = do
    j ← typed "PlayFiles"
    j ← put "paths" (array nil) j
    j ← push_all "paths" paths j
    put "save" (boolean save) j
  to_json (queue_switch qid) = do j ← typed "QueueSwitch"; put "qid" (integer qid) j
  to_json (queue_add query search) = do
    j ← typed "QueueAdd"
    j ← put "query" (string query) j
    put "search" (boolean search) j
  to_json (queue_remove id_or_index) = do
    j ← typed "QueueRemove"
    put "idOrIndex" (string id_or_index) j
  to_json (queue_move from to) = do
    j ← typed "QueueMove"
    j ← put "from" (unsigned from) j
    put "to" (unsigned to) j
  to_json queue_clear = typed "QueueClear"
  to_json (queue_shuffle on) = do
    j ← typed "QueueShuffle"
    put "on" (or_null (λ (x : Bool). boolean x) on) j
  to_json (queue_repeat mode) = do
    j ← typed "QueueRepeat"
    put "mode" (or_null (λ (m : RepeatMode). string (repeat_text m)) mode) j
  to_json playlist_list = typed "PlaylistList"
  to_json (playlist_tracks pid) = do j ← typed "PlaylistTracks"; put "pid" (integer pid) j
  to_json (playlist_create name) = do j ← typed "PlaylistCreate"; put "name" (string name) j
  to_json (playlist_add pid track_id) = do
    j ← typed "PlaylistAdd"
    j ← put "pid" (integer pid) j
    put "track_id" (integer track_id) j
  to_json (playlist_load pid play_now replace) = do
    j ← typed "PlaylistLoad"
    j ← put "pid" (integer pid) j
    j ← put "play" (boolean play_now) j
    put "replace" (boolean replace) j
  to_json (playlist_save name queue_id) = do
    j ← typed "PlaylistSave"
    j ← put "name" (string name) j
    put "queue_id" (or_null (λ (x : ℕ). integer x) queue_id) j
  to_json (playlist_delete pid) = do j ← typed "PlaylistDelete"; put "pid" (integer pid) j
  to_json (playlist_rename pid new_name) = do
    j ← typed "PlaylistRename"
    j ← put "pid" (integer pid) j
    put "newName" (string new_name) j
  to_json (playlist_export pid path format) = do
    j ← typed "PlaylistExport"
    j ← put "pid" (integer pid) j
    j ← put "path" (string path) j
    put "format" (string format) j
  to_json (playlist_import path name) = do
    j ← typed "PlaylistImport"
    j ← put "path" (string path) j
    put "name" (or_null (λ (x : String). string x) name) j
  to_json c = later_to_json c
