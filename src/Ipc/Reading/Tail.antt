-- ===== src/Ipc/Reading/Tail.antt =====
-- commandFromJson, from the library commands on, of src/ipc/protocol.cpp.
use Prim.Native.String.{String}
use text.Mathlib.Text.{◌==◌ as str_eq}
use caudio.Prelude.{
  false, ◌||◌, Expected, ok, unexpected, ◌>>=◌, if◌then◌else◌, make_error, invalid_arg,
}
use caudio.Engine.{Floats}
use caudio.Json.{
  Json, Singles, Unsigned, is_number, is_string, is_boolean, get_int64, get_int, get_string,
  get_bool, read, read_optional,
}
use caudio.Ipc.{
  Command, library_scan, library_search, library_stats, library_add, library_remove, library_list,
  tag_edit, tag_get, config_get, config_set, config_list, config_export, config_import,
  config_reset, history_list, history_clear, bookmark_list, bookmark_add, bookmark_remove,
  bookmark_goto, shutdown, preview, device_list, device_set, device_test, info,
}
use caudio.Ipc.Reading.Fields.{append, full_hash_of, removed_of, top_n_of}

module _ {F S : Type 0} ⦃fl : Floats F⦄ ⦃un : Unsigned F⦄ ⦃si : Singles F S⦄ where
  unfoldable pub read_rest : String → Json F → Expected (Command F S)
  read_rest t j =
      if str_eq t "HistoryList"
      then (do limit ← read_optional is_number get_int j "limit"; ok (history_list limit))
      else if str_eq t "HistoryClear"
      then ok history_clear
      else if str_eq t "BookmarkList"
      then (do
        track_id ← read_optional is_number get_int64 j "track_id"
        ok (bookmark_list track_id))
      else if str_eq t "BookmarkAdd"
      then (do
        position_ms ← read is_number get_int64 j "position_ms" 0
        note ← read is_string get_string j "note" ""
        track_id ← read_optional is_number get_int64 j "track_id"
        ok (bookmark_add position_ms note track_id))
      else if str_eq t "BookmarkRemove"
      then (do id ← read is_number get_int64 j "id" 0; ok (bookmark_remove id))
      else if str_eq t "BookmarkGoto"
      then (do id ← read is_number get_int64 j "id" 0; ok (bookmark_goto id))
      else if str_eq t "Shutdown"
      then ok shutdown
      else if str_eq t "Preview"
      then (do file ← read is_string get_string j "file" ""; ok (preview file))
      else if str_eq t "DeviceList"
      then ok device_list
      else if str_eq t "DeviceSet"
      then (do id ← read is_string get_string j "id" ""; ok (device_set id))
      else if str_eq t "DeviceTest"
      then (do id ← read_optional is_string get_string j "id"; ok (device_test id))
      else if str_eq t "Info"
      then ok info
      else unexpected (make_error invalid_arg (append "unknown Command type: " t))

  unfoldable pub read_config : String → Json F → Expected (Command F S)
  unfolding read_rest
  read_config t j =
      if str_eq t "TagEdit"
      then (do
        id ← read is_number get_int64 j "id" 0
        name ← read is_string get_string j "field" ""
        value ← read is_string get_string j "value" ""
        ok (tag_edit id name value))
      else if str_eq t "TagGet"
      then (do id ← read is_number get_int64 j "id" 0; ok (tag_get id))
      else if str_eq t "ConfigGet"
      then (do key ← read is_string get_string j "key" ""; ok (config_get key))
      else if str_eq t "ConfigSet"
      then (do
        key ← read is_string get_string j "key" ""
        value ← read is_string get_string j "value" ""
        ok (config_set key value))
      else if str_eq t "ConfigList"
      then ok config_list
      else if str_eq t "ConfigExport"
      then (do path ← read is_string get_string j "path" ""; ok (config_export path))
      else if str_eq t "ConfigImport"
      then (do path ← read is_string get_string j "path" ""; ok (config_import path))
      else if str_eq t "ConfigReset"
      then (do key ← read_optional is_string get_string j "key"; ok (config_reset key))
      else read_rest t j

  unfoldable pub read_library : String → Json F → Expected (Command F S)
  unfolding read_config full_hash_of top_n_of removed_of
  read_library t j =
      if str_eq t "LibraryScan"
      then (do
        path ← read_optional is_string get_string j "path"
        full_hash ← full_hash_of j
        ok (library_scan path full_hash))
      else if str_eq t "LibrarySearch"
      then (do
        query ← read is_string get_string j "query" ""
        limit ← read is_number get_int j "limit" 50
        ok (library_search query limit))
      else if str_eq t "LibraryStats" || str_eq t "LibraryStatsDetailed"
      then (do top_n ← top_n_of t j; ok (library_stats top_n))
      else if str_eq t "LibraryAdd"
      then (do
        path ← read is_string get_string j "path" ""
        recursive ← read is_boolean get_bool j "recursive" false
        ok (library_add path recursive))
      else if str_eq t "LibraryRemove"
      then (do query ← removed_of j; ok (library_remove query))
      else if str_eq t "LibraryList"
      then (do
        query ← read_optional is_string get_string j "query"
        limit ← read is_number get_int j "limit" 50
        offset ← read is_number get_int j "offset" 0
        artist ← read_optional is_string get_string j "artist"
        album ← read_optional is_string get_string j "album"
        genre ← read_optional is_string get_string j "genre"
        ok (library_list query limit offset artist album genre))
      else read_config t j
