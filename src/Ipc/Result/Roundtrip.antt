-- ===== src/Ipc/Result/Roundtrip.antt =====
-- Results of src/ipc/protocol.cpp: what toJson writes, resultFromJson reads.
use Prim.Native.String.{String}
use caudio.Prelude.{
  ℕ, ◌≡◌, refl, List, Option, none, some, ok, unexpected, Expected-cases, inl, inr, ◌>>=◌,
  StatusCode, ok_code, make_error,
}
use caudio.Engine.{Floats}
use caudio.Json.{
  nil, end, field, find, string, integer, unsigned, Singles, Unsigned, read, read_optional, taken,
  to_some, is_number, is_string, is_boolean, is_array, get_int64, get_int, get_size, get_double,
  get_float, get_string, get_bool,
}
use caudio.Record.{Track, track_to_json}
use caudio.Record.Reading.{track_from_json}
use caudio.Ipc.Result.{
  Result, LibraryStats, status, queue_tracks, queues, playlist_loaded, volume_info, library_stats,
  tracks, search_results, playlists, playlist_data, playlist_import_report, config_values,
  single_track, track_info, history, bookmarks, cli_error, devices,
}
use caudio.Ipc.Result.Errors.{error_to_json, error_from_json}
use caudio.Ipc.Result.Each.{push_each-behind, each_of}
use caudio.Ipc.Result.Writing.{
  result_to_json, status_to_json, library_stats_to_json, entry_to_json, playlist_to_json,
  config_value_to_json, entry_of_history_to_json, bookmark_to_json, device_to_json,
}
use caudio.Ipc.Result.Entries.{
  entry_from_json, playlist_from_json, config_value_from_json, entry_of_history_from_json,
  bookmark_from_json, device_from_json,
}
use caudio.Ipc.Result.Lists.{
  list_back, all_back, config_value_back, device_back, entry_back, bookmark_back,
  entry_of_history_back, playlists_back, track_back, tracks_back,
}
use caudio.Ipc.Result.Reading.{result_from_json, status_from_json, library_stats_from_json}
use caudio.Ipc.Result.Known.{state_lem, repeat_lem, IsResult}

module _ {F S : Type 0} ⦃fl : Floats F⦄ ⦃un : Unsigned F⦄ ⦃si : Singles F S⦄ where
  error_back :
      (c : StatusCode) (m : String)
      → (result_to_json {F = F} {S = S} (cli_error (make_error c m)) >>= result_from_json {S = S})
        ≡ ok (cli_error (make_error c m))
  unfolding result_to_json result_from_json error_to_json error_from_json read read_optional taken
      to_some is_number is_string is_boolean is_array get_int64 get_int get_size get_double
      get_float get_string get_bool
  error_back ok_code m = refl
  error_back c m = refl

  stats_back :
      (a b c d p : ℕ) (o : Option (List (Track F)))
      → let v : LibraryStats F = record {
        tracks = a;
        queues = b;
        playlists = c;
        total_duration_ms = d;
        total_play_time_ms = p;
        most_played = o;
      } in
        IsResult {F = F} {S = S} (library_stats v)
        → (result_to_json {F = F} {S = S} (library_stats v) >>= result_from_json {S = S})
          ≡ ok (library_stats v)
  unfolding IsResult find result_to_json result_from_json library_stats_to_json
      library_stats_from_json each_of read read_optional taken to_some is_number is_string
      is_boolean is_array get_int64 get_int get_size get_double get_float get_string get_bool
  stats_back a b c d p none h = refl
  stats_back a b c d p (some ts) h =
      let (ws, made, got) = list_back track_to_json track_from_json ts (tracks_back F ts h) in
      simp (
        push_each-behind track_to_json "most_played" ts nil
            (field "type" (string "LibraryStats") (
              field "tracks" (unsigned a) (
                field "queues" (unsigned b) (
                  field "playlists" (unsigned c) (
                    field "total_duration_ms" (integer d)
                      (field "total_play_time_ms" (integer p) end))))))
            refl,
        made,
        got,
      )

module _ {F S : Type 0} ⦃fl : Floats F⦄ ⦃un : Unsigned F⦄ ⦃si : Singles F S⦄
    (law : (x : S) → si.narrow (si.widen x) ≡ x) where
  -- What toJson writes for a result, resultFromJson reads as the same result, where the numbers are
  -- within their types, the states are known ones and the tracks have normalized sources and are
  -- not dirty; toJson throws nothing.
  pub result_from_json-to_json :
      (r : Result F S) → IsResult r → (result_to_json r >>= result_from_json) ≡ ok r
  unfolding IsResult find result_to_json result_from_json status_to_json status_from_json each_of
      config_value_from_json read read_optional taken to_some is_number is_string is_boolean
      is_array get_int64 get_int get_size get_double get_float get_string get_bool
  result_from_json-to_json (status v) h =
      simp (state_lem v.state h.state, repeat_lem v.repeat h.repeat, law v.vol)
  result_from_json-to_json (playlist_loaded id v) h =
      simp (state_lem v.state h.state, repeat_lem v.repeat h.repeat, law v.vol)
  result_from_json-to_json (volume_info vol muted) h = simp (law vol)
  result_from_json-to_json (queue_tracks ts) h =
      let (ws, made, got) = list_back track_to_json track_from_json ts (tracks_back F ts h) in
      simp (
        push_each-behind track_to_json "tracks" ts nil (field "type" (string "QueueTracks") end)
            refl,
        made,
        got,
      )
  result_from_json-to_json (tracks ts) h =
      let (ws, made, got) = list_back track_to_json track_from_json ts (tracks_back F ts h) in
      simp (
        push_each-behind track_to_json "tracks" ts nil (field "type" (string "Tracks") end) refl,
        made,
        got,
      )
  result_from_json-to_json (search_results query ts) h =
      let (ws, made, got) = list_back track_to_json track_from_json ts (tracks_back F ts h) in
      simp (
        push_each-behind track_to_json "tracks" ts nil
            (field "type" (string "SearchResults") (field "query" (string query) end)) refl,
        made,
        got,
      )
  result_from_json-to_json (playlist_data ts format) h =
      let (ws, made, got) = list_back track_to_json track_from_json ts (tracks_back F ts h) in
      simp (
        push_each-behind track_to_json "tracks" ts nil (field "type" (string "PlaylistData") end)
            refl,
        made,
        got,
      )
  result_from_json-to_json (playlist_import_report pid name ts matched skipped duplicates) h =
      let (ws, made, got) = list_back track_to_json track_from_json ts (tracks_back F ts h) in
      simp (
        push_each-behind track_to_json "tracks" ts nil
            (field "type" (string "PlaylistImportReport")
              (field "pid" (integer pid) (field "name" (string name) end)))
            refl,
        made,
        got,
      )
  result_from_json-to_json (playlists ps) h =
      let (ws, made, got) =
        list_back playlist_to_json playlist_from_json ps (playlists_back F ps h) in
      simp (
        push_each-behind playlist_to_json "playlists" ps nil (field "type" (string "Playlists") end)
            refl,
        made,
        got,
      )
  result_from_json-to_json (queues qs) h =
      let (ws, made, got) =
        list_back entry_to_json entry_from_json qs
          (all_back entry_to_json entry_from_json (entry_back F) qs) in
      simp (
        push_each-behind entry_to_json "queues" qs nil (field "type" (string "Queues") end) refl,
        made,
        got,
      )
  result_from_json-to_json (config_values vs) h =
      let (ws, made, got) =
        list_back config_value_to_json config_value_from_json vs
          (all_back config_value_to_json config_value_from_json (config_value_back F) vs) in
      simp (
        push_each-behind config_value_to_json "values" vs nil
            (field "type" (string "ConfigValues") end) refl,
        made,
        got,
      )
  result_from_json-to_json (history es) h =
      let (ws, made, got) = list_back entry_of_history_to_json entry_of_history_from_json es (
        all_back entry_of_history_to_json entry_of_history_from_json (entry_of_history_back F)
          es) in
      simp (
        push_each-behind entry_of_history_to_json "entries" es nil
            (field "type" (string "History") end) refl,
        made,
        got,
      )
  result_from_json-to_json (bookmarks es) h =
      let (ws, made, got) =
        list_back bookmark_to_json bookmark_from_json es
          (all_back bookmark_to_json bookmark_from_json (bookmark_back F) es) in
      simp (
        push_each-behind bookmark_to_json "entries" es nil (field "type" (string "Bookmarks") end)
            refl,
        made,
        got,
      )
  result_from_json-to_json (devices ds) h =
      let (ws, made, got) =
        list_back device_to_json device_from_json ds
          (all_back device_to_json device_from_json (device_back F) ds) in
      simp (
        push_each-behind device_to_json "devices" ds nil (field "type" (string "Devices") end) refl,
        made,
        got,
      )
  result_from_json-to_json (library_stats v) h =
      stats_back v.tracks v.queues v.playlists v.total_duration_ms v.total_play_time_ms
        v.most_played h
  result_from_json-to_json (single_track t) h = elim (Expected-cases (track_to_json t)) [
    | inl (v, e) ↦
        let back : track_from_json v ≡ ok t = rw e at (track_back F t h) in simp (e, back)
    | inr (err, e) ↦ (let no : unexpected err ≡ ok t = rw e at (track_back F t h) in cc)
  ]
  result_from_json-to_json (track_info t n m) h = elim (Expected-cases (track_to_json t)) [
    | inl (v, e) ↦
        let back : track_from_json v ≡ ok t = rw e at (track_back F t h) in simp (e, back)
    | inr (err, e) ↦ (let no : unexpected err ≡ ok t = rw e at (track_back F t h) in cc)
  ]
  result_from_json-to_json (cli_error e) h = error_back e.code e.message
  result_from_json-to_json r h = refl
