-- ===== src/Ipc/Result/Reading.antt =====
-- resultFromJson of src/ipc/protocol.cpp.
use Prim.Native.String.{String}
use text.Mathlib.Text.{◌==◌ as str_eq}
use caudio.Prelude.{
  ℕ, ◌%◌, ◌==◌, false, ◌||◌, [], Option, none, some, Expected, ok, unexpected, ◌>>=◌, if◌then◌else◌,
  make_error, invalid_arg, corrupt,
}
use caudio.Engine.{RepeatMode, off, all, one, other, Floats}
use caudio.Json.{
  Json, Fields, end, field, object, Singles, Unsigned, lookup, read, read_optional, is_number,
  is_string, is_boolean, is_array, get_int64, get_int, get_size, get_double, get_float, get_string,
  get_bool,
}
use caudio.Record.Reading.{track_from_json}
use caudio.Ipc.Reading.Fields.{parse_repeat}
use caudio.Ipc.Result.{
  Result, Status, LibraryStats, status, queue_tracks, queues, queue_created, playlist_loaded,
  volume_info, library_stats, tracks, search_results,
}
use caudio.Ipc.Result.Each.{each_of}
use caudio.Ipc.Result.Entries.{entry_from_json}
use caudio.Ipc.Result.Later.{read_later}

-- `parsePlaybackState` of include/caudio/types/parse.hpp: the byte of the state.
unfoldable pub parse_state : String → Option ℕ
parse_state s =
    if str_eq s "Stopped"
    then some 0
    else if str_eq s "Ready"
    then some 1
    else if str_eq s "Playing"
    then some 2
    else if str_eq s "Paused"
    then some 3
    else none

-- A text that names nothing is an error.
unfoldable pub known {ℓ} : {A : Type ℓ} → String → Option A → Expected A
known message none = unexpected (make_error invalid_arg message)
known message (some a) = ok a

-- `static_cast<RepeatMode>(v)`.
repeat_of_value : ℕ → RepeatMode
repeat_of_value v =
    if v % 256 == 0
    then off
    else if v % 256 == 1
    then all
    else if v % 256 == 2
    then one
    else other (v % 256)

module _ {F : Type 0} ⦃fl : Floats F⦄ where
  -- "state", or else the number at "state_value".
  state_of : Json F → Expected ℕ
  state_of j = do
    name ← read_optional is_string get_string j "state"
    elim name [
      | none ↦ read is_number (λ v. do n ← get_int v; ok (n % 256)) j "state_value" 0
      | some s ↦ known "unknown PlaybackState" (parse_state s)
    ]

  -- "repeat", or else the number at "repeat_value".
  repeat_in : Json F → Expected RepeatMode
  unfolding repeat_of_value
  repeat_in j = do
    name ← read_optional is_string get_string j "repeat"
    elim name [
      | none ↦ read is_number (λ v. do n ← get_int v; ok (repeat_of_value n)) j "repeat_value" off
      | some s ↦ known "unknown RepeatMode" (parse_repeat s)
    ]

  -- The tracks at "most_played"; the older type has an empty list without it.
  unfoldable pub library_stats_from_json :
      ⦃un : Unsigned F⦄ → String → Json F → Expected (LibraryStats F)
  library_stats_from_json t j = do
    tracks_read ← read is_number get_size j "tracks" 0
    queues_read ← read is_number get_size j "queues" 0
    playlists_read ← read is_number get_size j "playlists" 0
    total_duration_ms ← read is_number get_int64 j "total_duration_ms" 0
    total_play_time_ms ← read is_number get_int64 j "total_play_time_ms" 0
    most_played ← read_optional is_array (each_of track_from_json) j "most_played"
    ok (record {
      tracks = tracks_read;
      queues = queues_read;
      playlists = playlists_read;
      total_duration_ms = total_duration_ms;
      total_play_time_ms = total_play_time_ms;
      most_played = elim most_played [
        | some ts ↦ some ts
        | none ↦ if str_eq t "LibraryStatsDetailed" then some [] else none
      ];
    })

module _ {F S : Type 0} ⦃fl : Floats F⦄ ⦃un : Unsigned F⦄ ⦃si : Singles F S⦄ where
  unfoldable pub status_from_json : Json F → Expected (Status F S)
  unfolding state_of repeat_in
  status_from_json j = do
    state ← state_of j
    pos ← read is_number get_double j "pos" (fl.of_int 0)
    dur ← read is_number get_double j "dur" (fl.of_int 0)
    vol ← read is_number get_float j "vol" (si.narrow (fl.of_int 1))
    muted ← read is_boolean get_bool j "muted" false
    shuffle ← read is_boolean get_bool j "shuffle" false
    repeat ← repeat_in j
    track_id ← read is_number get_int64 j "track_id" 0
    title ← read is_string get_string j "title" ""
    artist ← read is_string get_string j "artist" ""
    path ← read is_string get_string j "path" ""
    q_size ← read is_number get_size j "q_size" 0
    q_idx ← read is_number get_size j "q_idx" 0
    version ← read is_string get_string j "version" ""
    ok (record {
      state = state;
      pos = pos;
      dur = dur;
      vol = vol;
      muted = muted;
      shuffle = shuffle;
      repeat = repeat;
      track_id = track_id;
      title = title;
      artist = artist;
      path = path;
      q_size = q_size;
      q_idx = q_idx;
      version = version;
    })

  -- The status that a result has before it is read.
  default_status : Status F S
  default_status = record {
    state = 0;
    pos = fl.of_int 0;
    dur = fl.of_int 0;
    vol = si.narrow (fl.of_int 1);
    muted = false;
    shuffle = false;
    repeat = off;
    track_id = 0;
    title = "";
    artist = "";
    path = "";
    q_size = 0;
    q_idx = 0;
    version = "";
  }

  -- The status of a loaded playlist, from the result that stands at "status".
  unfoldable pub loaded_status : Option (Expected (Result F S)) → Expected (Status F S)
  unfolding default_status
  loaded_status none = ok default_status
  loaded_status (some (unexpected e)) = unexpected e
  loaded_status (some (ok (status v))) = ok v
  loaded_status (some (ok r)) = unexpected (make_error corrupt "PlaylistLoaded status not a Status")

  unfoldable pub read_result :
      Option (Expected (Result F S)) → String → Json F → Expected (Result F S)
  unfolding loaded_status read_later
  read_result nested t j =
      if str_eq t "Status"
      then (do v ← status_from_json j; ok (status v))
      else if str_eq t "QueueTracks"
      then (do ts ← read is_array (each_of track_from_json) j "tracks" []; ok (queue_tracks ts))
      else if str_eq t "Queues"
      then (do qs ← read is_array (each_of entry_from_json) j "queues" []; ok (queues qs))
      else if str_eq t "QueueCreated"
      then (do
        id ← read is_number get_int64 j "id" 0
        name ← read is_string get_string j "name" ""
        ok (queue_created id name))
      else if str_eq t "PlaylistLoaded"
      then (do
        queue_id ← read is_number get_int64 j "queue_id" 0
        v ← loaded_status nested
        ok (playlist_loaded queue_id v))
      else if str_eq t "VolumeInfo"
      then (do
        vol ← read is_number get_float j "vol" (si.narrow (fl.of_int 1))
        muted ← read is_boolean get_bool j "muted" false
        ok (volume_info vol muted))
      else if str_eq t "LibraryStats" || str_eq t "LibraryStatsDetailed"
      then (do v ← library_stats_from_json t j; ok (library_stats v))
      else if str_eq t "Tracks"
      then (do ts ← read is_array (each_of track_from_json) j "tracks" []; ok (tracks ts))
      else if str_eq t "SearchResults"
      then (do
        query ← read is_string get_string j "query" ""
        ts ← read is_array (each_of track_from_json) j "tracks" []
        ok (search_results query ts))
      else read_later t j

  unfoldable pub read_typed : Option (Expected (Result F S)) → Json F → Expected (Result F S)
  unfolding read_result
  read_typed nested j = elim (lookup j "type") [
    | none ↦ unexpected (make_error invalid_arg "missing Result type")
    | some v ↦
        if is_string v
        then (do t ← get_string v; read_result nested t j)
        else unexpected (make_error invalid_arg "missing Result type")
  ]

unfoldable mutual
  unfolding read_typed

  pub result_from_json :
      {F S : Type 0} ⦃fl : Floats F⦄ ⦃un : Unsigned F⦄ ⦃si : Singles F S⦄
      → Json F
      → Expected (Result F S)
  result_from_json (object fs) = read_typed (result_at fs) (object fs)
  result_from_json j = unexpected (make_error invalid_arg "missing Result type")

  -- The result that the value at "status" is read as.
  pub result_at :
      {F S : Type 0} ⦃fl : Floats F⦄ ⦃un : Unsigned F⦄ ⦃si : Singles F S⦄
      → Fields F
      → Option (Expected (Result F S))
  result_at end = none
  result_at (field k v fs) = if str_eq k "status" then some (result_from_json v) else result_at fs
