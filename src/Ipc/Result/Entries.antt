-- ===== src/Ipc/Result/Entries.antt =====
-- the entries of lists, in resultFromJson of src/ipc/protocol.cpp.
use caudio.Prelude.{false, Expected, ok, ◌>>=◌}
use caudio.Engine.{Floats}
use caudio.Json.{
  Json, Unsigned, read, is_number, is_string, is_boolean, get_int64, get_int, get_size, get_double,
  get_string, get_bool,
}
use caudio.Ipc.Result.{QueueEntry, Playlist, ConfigValue, HistoryEntry, Bookmark, DeviceInfo}

module _ {F : Type 0} where
  unfoldable pub config_value_from_json : Json F → Expected (ConfigValue)
  unfolding read
  config_value_from_json j = do
    key ← read is_string get_string j "key" ""
    value ← read is_string get_string j "value" ""
    ok (record { key = key; value = value })

  unfoldable pub device_from_json : Json F → Expected (DeviceInfo)
  unfolding read
  device_from_json j = do
    id ← read is_string get_string j "id" ""
    name ← read is_string get_string j "name" ""
    is_default ← read is_boolean get_bool j "isDefault" false
    ok (record { id = id; name = name; is_default = is_default })

module _ {F : Type 0} ⦃fl : Floats F⦄ where
  unfoldable pub playlist_from_json : Json F → Expected (Playlist)
  unfolding read
  playlist_from_json j = do
    id ← read is_number get_int64 j "id" 0
    name ← read is_string get_string j "name" ""
    type ← read is_number get_int j "type" 0
    smart_query ← read is_string get_string j "smart_query" ""
    created ← read is_number get_int64 j "created" 0
    modified ← read is_number get_int64 j "modified" 0
    library_id ← read is_number get_int64 j "library_id" 1
    ok (record {
      id = id;
      name = name;
      type = type;
      smart_query = smart_query;
      created = created;
      modified = modified;
      library_id = library_id;
    })

  unfoldable pub entry_of_history_from_json : Json F → Expected (HistoryEntry F)
  unfolding read
  entry_of_history_from_json j = do
    id ← read is_number get_int64 j "id" 0
    track_id ← read is_number get_int64 j "track_id" 0
    started_at ← read is_number get_int64 j "started_at" 0
    completed_at ← read is_number get_int64 j "completed_at" 0
    position_ms ← read is_number get_int64 j "position_ms" 0
    completion_pct ← read is_number get_double j "completion_pct" (fl.of_int 0)
    queue_id ← read is_number get_int64 j "queue_id" 1
    title ← read is_string get_string j "title" ""
    artist ← read is_string get_string j "artist" ""
    path ← read is_string get_string j "path" ""
    duration ← read is_number get_double j "duration" (fl.of_int 0)
    ok (record {
      id = id;
      track_id = track_id;
      started_at = started_at;
      completed_at = completed_at;
      position_ms = position_ms;
      completion_pct = completion_pct;
      queue_id = queue_id;
      title = title;
      artist = artist;
      path = path;
      duration = duration;
    })

  unfoldable pub bookmark_from_json : Json F → Expected (Bookmark)
  unfolding read
  bookmark_from_json j = do
    id ← read is_number get_int64 j "id" 0
    track_id ← read is_number get_int64 j "track_id" 0
    position_ms ← read is_number get_int64 j "position_ms" 0
    note ← read is_string get_string j "note" ""
    created ← read is_number get_int64 j "created" 0
    ok (record {
      id = id;
      track_id = track_id;
      position_ms = position_ms;
      note = note;
      created = created;
    })

  -- The fields of an entry are read by `at`, which fails where the entry is no object.
  unfoldable pub entry_from_json : ⦃un : Unsigned F⦄ → Json F → Expected (QueueEntry)
  unfolding read
  entry_from_json j = do
    id ← read is_number get_int64 j "id" 0
    name ← read is_string get_string j "name" ""
    count ← read is_number get_size j "tracks" 0
    active ← read is_boolean get_bool j "active" false
    temp ← read is_boolean get_bool j "temp" false
    ok (record { id = id; name = name; tracks = count; active = active; temp = temp })
