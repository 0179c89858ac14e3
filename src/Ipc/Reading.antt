-- ===== src/Ipc/Reading.antt =====
-- commandFromJson of src/ipc/protocol.cpp.
pub mod Fields
pub mod Tail
use Prim.Native.String.{String, ◌++◌}
use text.Mathlib.Text.{◌==◌ as str_eq}
use caudio.Prelude.{
  ℕ, zero, suc, ◌+◌, ◌-◌, ◌/◌, ◌%◌, ◌^◌, Bool, true, false, ◌||◌, List, [], ◌∷◌, Option, none, some,
  Expected, ok, unexpected, ◌>>=◌, get_or, ltb, is_neg, if◌then◌else◌, make_error, invalid_arg,
  corrupt,
}
use caudio.Engine.{RepeatMode, off, all, one, Floats}
use caudio.Json.{
  Json, Items, nil, cons, Singles, Unsigned, array, is_number, is_string, is_boolean, is_array,
  get_int64, get_int, get_size, get_string, get_bool, get_double, get_float, read, read_optional,
  lookup, thrown, int_word,
}
use caudio.Ipc.{
  Command, play, pause, resume, restart, stop, next, prev, seek, status_req, volume_set, queue_list,
  queue_queues, queue_create, queue_delete, play_files, queue_switch, queue_add, queue_remove,
  queue_move, queue_clear, queue_shuffle, queue_repeat, playlist_list, playlist_tracks,
  playlist_create, playlist_add, playlist_load, playlist_save, playlist_delete, playlist_rename,
  playlist_export, playlist_import, library_scan, library_search, library_stats, library_add,
  library_remove, library_list, tag_edit, tag_get, config_get, config_set, config_list,
  config_export, config_import, config_reset, history_list, history_clear, bookmark_list,
  bookmark_add, bookmark_remove, bookmark_goto, shutdown, preview, device_list, device_set,
  device_test, info,
}
use caudio.Ipc.Reading.Fields.{append, strings_of, repeat_of, full_hash_of, removed_of, top_n_of}
use caudio.Ipc.Reading.Tail.{read_library}

module _ {F S : Type 0} ⦃fl : Floats F⦄ ⦃un : Unsigned F⦄ ⦃si : Singles F S⦄ where
  unfoldable pub read_playlist : String → Json F → Expected (Command F S)
  unfolding read_library
  read_playlist t j =
      if str_eq t "PlaylistList"
      then ok playlist_list
      else if str_eq t "PlaylistTracks"
      then (do pid ← read is_number get_int64 j "pid" 0; ok (playlist_tracks pid))
      else if str_eq t "PlaylistCreate"
      then (do name ← read is_string get_string j "name" ""; ok (playlist_create name))
      else if str_eq t "PlaylistAdd"
      then (do
        pid ← read is_number get_int64 j "pid" 0
        track_id ← read is_number get_int64 j "track_id" 0
        ok (playlist_add pid track_id))
      else if str_eq t "PlaylistLoad"
      then (do
        pid ← read is_number get_int64 j "pid" 0
        play_now ← read is_boolean get_bool j "play" false
        replace ← read is_boolean get_bool j "replace" false
        ok (playlist_load pid play_now replace))
      else if str_eq t "PlaylistSave"
      then (do
        name ← read is_string get_string j "name" ""
        queue_id ← read_optional is_number get_int64 j "queue_id"
        ok (playlist_save name queue_id))
      else if str_eq t "PlaylistDelete"
      then (do pid ← read is_number get_int64 j "pid" 0; ok (playlist_delete pid))
      else if str_eq t "PlaylistRename"
      then (do
        pid ← read is_number get_int64 j "pid" 0
        new_name ← read is_string get_string j "newName" ""
        ok (playlist_rename pid new_name))
      else if str_eq t "PlaylistExport"
      then (do
        pid ← read is_number get_int64 j "pid" 0
        path ← read is_string get_string j "path" ""
        format ← read is_string get_string j "format" "m3u"
        ok (playlist_export pid path format))
      else if str_eq t "PlaylistImport"
      then (do
        path ← read is_string get_string j "path" ""
        name ← read_optional is_string get_string j "name"
        ok (playlist_import path name))
      else read_library t j

  unfoldable pub read_queue : String → Json F → Expected (Command F S)
  unfolding read_playlist strings_of repeat_of
  read_queue t j =
      if str_eq t "QueueList"
      then (do order ← read is_string get_string j "order" "playback"; ok (queue_list order))
      else if str_eq t "QueueQueues"
      then ok queue_queues
      else if str_eq t "QueueCreate"
      then (do name ← read is_string get_string j "name" ""; ok (queue_create name))
      else if str_eq t "QueueDelete"
      then (do qid ← read is_number get_int64 j "qid" 1; ok (queue_delete qid))
      else if str_eq t "PlayFiles"
      then (do
        paths ← read is_array strings_of j "paths" []
        save ← read is_boolean get_bool j "save" false
        ok (play_files paths save))
      else if str_eq t "QueueSwitch"
      then (do qid ← read is_number get_int64 j "qid" 1; ok (queue_switch qid))
      else if str_eq t "QueueAdd"
      then (do
        query ← read is_string get_string j "query" ""
        search ← read is_boolean get_bool j "search" false
        ok (queue_add query search))
      else if str_eq t "QueueRemove"
      then (do
        id_or_index ← read is_string get_string j "idOrIndex" ""
        ok (queue_remove id_or_index))
      else if str_eq t "QueueMove"
      then (do
        from ← read is_number get_size j "from" 0
        to ← read is_number get_size j "to" 0
        ok (queue_move from to))
      else if str_eq t "QueueClear"
      then ok queue_clear
      else if str_eq t "QueueShuffle"
      then (do on ← read_optional is_boolean get_bool j "on"; ok (queue_shuffle on))
      else if str_eq t "QueueRepeat"
      then (do mode ← read is_string repeat_of j "mode" none; ok (queue_repeat mode))
      else read_playlist t j

  unfoldable pub read_playback : String → Json F → Expected (Command F S)
  unfolding read_queue
  read_playback t j =
      if str_eq t "Play"
      then ok play
      else if str_eq t "Pause"
      then ok pause
      else if str_eq t "Resume"
      then ok resume
      else if str_eq t "Restart"
      then ok restart
      else if str_eq t "Stop"
      then ok stop
      else if str_eq t "Next"
      then ok next
      else if str_eq t "Prev"
      then ok prev
      else if str_eq t "Seek"
      then (do seconds ← read is_number get_double j "seconds" (fl.of_int 0); ok (seek seconds))
      else if str_eq t "StatusReq"
      then ok status_req
      else if str_eq t "VolumeSet"
      then (do
        level ← read_optional is_number get_float j "level"
        mute ← read_optional is_boolean get_bool j "mute"
        delta_pct ← read_optional is_number get_int j "deltaPct"
        ok (volume_set level mute delta_pct))
      else read_queue t j

  unfoldable pub command_from_json : Json F → Expected (Command F S)
  unfolding lookup read_playback
  command_from_json j = elim (lookup j "type") [
    | none ↦ unexpected (make_error invalid_arg "missing type")
    | some v ↦
        if is_string v
        then (do t ← get_string v; read_playback t j)
        else unexpected (make_error invalid_arg "missing type")
  ]
