-- ===== src/Ipc/Result/Later.antt =====
-- resultFromJson, from the scan report on, of src/ipc/protocol.cpp.
use Prim.Native.String.{String, ◌++◌}
use text.Mathlib.Text.{◌==◌ as str_eq}
use caudio.Prelude.{
  true, false, [], replicate, none, some, Expected, ok, unexpected, ◌>>=◌, if◌then◌else◌,
  make_error, invalid_arg,
}
use caudio.Engine.{Floats}
use caudio.Json.{
  Json, Singles, Unsigned, lookup, read, is_number, is_string, is_array, get_int64, get_size,
  get_string,
}
use caudio.Record.{Track, path}
use caudio.Record.Reading.{track_from_json}
use caudio.Ipc.Result.{
  Result, playlists, playlist_data, playlist_created, playlist_import_report, scan_report,
  config_value, config_values, single_track, track_info, history, bookmarks, nothing, cli_error,
  devices,
}
use caudio.Ipc.Result.Errors.{error_from_json}
use caudio.Ipc.Result.Each.{each_of}
use caudio.Ipc.Result.Entries.{
  playlist_from_json, config_value_from_json, entry_of_history_from_json, bookmark_from_json,
  device_from_json,
}

module _ {F : Type 0} ⦃fl : Floats F⦄ where
  -- The track that a result has before it is read.
  default_track : Track F
  default_track = record {
    id = 0;
    size = 0;
    mtime = 0;
    duration = fl.of_int 0;
    play_count = 0;
    last_played = 0;
    date_added = 0;
    last_scanned = 0;
    deleted_at = 0;
    library_id = 1;
    file_path = "";
    title = "";
    artist = "";
    album = "";
    album_artist = "";
    genre = "";
    cover_art_path = "";
    sample_rate = 0;
    channels = 0;
    bitrate = 0;
    year = 0;
    track_num = 0;
    disc_num = 0;
    rating = 0;
    fingerprint = replicate 32 0;
    dirty = false;
    source = record { kind = path; key = ""; display_name = ""; available = true };
  }

  track_at : Json F → Expected (Track F)
  unfolding default_track
  track_at j = elim (lookup j "track") [ none ↦ ok default_track | some v ↦ track_from_json v ]

  -- "track", or in the older form the fields of the track in the result itself.
  single_track_of : Json F → Expected (Track F)
  unfolding default_track
  single_track_of j = elim (lookup j "track") [
    | some v ↦ track_from_json v
    | none ↦ elim (lookup j "id") [ some v ↦ track_from_json j | none ↦ ok default_track ]
  ]

module _ {F S : Type 0} ⦃fl : Floats F⦄ ⦃un : Unsigned F⦄ ⦃si : Singles F S⦄ where
  unfoldable pub read_later : String → Json F → Expected (Result F S)
  unfolding track_at single_track_of
  read_later t j =
      if str_eq t "ScanReport"
      then (do added ← read is_number get_size j "added" 0; ok (scan_report added))
      else if str_eq t "Playlists"
      then (do ps ← read is_array (each_of playlist_from_json) j "playlists" []; ok (playlists ps))
      else if str_eq t "PlaylistData"
      then (do
        ts ← read is_array (each_of track_from_json) j "tracks" []
        format ← read is_string get_string j "format" ""
        ok (playlist_data ts format))
      else if str_eq t "PlaylistCreated"
      then (do
        id ← read is_number get_int64 j "id" 0
        name ← read is_string get_string j "name" ""
        ok (playlist_created id name))
      else if str_eq t "PlaylistImportReport"
      then (do
        pid ← read is_number get_int64 j "pid" 0
        name ← read is_string get_string j "name" ""
        ts ← read is_array (each_of track_from_json) j "tracks" []
        matched ← read is_number get_size j "matched" 0
        skipped ← read is_number get_size j "skipped" 0
        duplicates ← read is_number get_size j "duplicates" 0
        ok (playlist_import_report pid name ts matched skipped duplicates))
      else if str_eq t "ConfigValue"
      then (do v ← config_value_from_json j; ok (config_value v))
      else if str_eq t "ConfigValues"
      then (do
        vs ← read is_array (each_of config_value_from_json) j "values" []
        ok (config_values vs))
      else if str_eq t "SingleTrack"
      then (do v ← single_track_of j; ok (single_track v))
      else if str_eq t "TrackInfo"
      then (do
        v ← track_at j
        play_count ← read is_number get_int64 j "play_count" 0
        last_played ← read is_number get_int64 j "last_played" 0
        ok (track_info v play_count last_played))
      else if str_eq t "History"
      then (do
        es ← read is_array (each_of entry_of_history_from_json) j "entries" []
        ok (history es))
      else if str_eq t "Bookmarks"
      then (do es ← read is_array (each_of bookmark_from_json) j "entries" []; ok (bookmarks es))
      else if str_eq t "Devices"
      then (do ds ← read is_array (each_of device_from_json) j "devices" []; ok (devices ds))
      else if str_eq t "Empty"
      then ok nothing
      else if str_eq t "Error"
      then (do e ← error_from_json j; ok (cli_error e))
      else unexpected (make_error invalid_arg ("unknown Result type: " ++ t))
