-- ===== src/Record/Reading.antt =====
-- trackFromJson of src/utils/record_json.cpp.
use Prim.Native.String.{String, ◌++◌}
use caudio.Prelude.{
  ℕ, ◌%◌, ◌==◌, true, false, List, none, some, Expected, ok, unexpected, ◌>>=◌, if◌then◌else◌,
  is_empty_string, ◌&&◌, make_error, corrupt,
}
use caudio.Engine.{Floats}
use caudio.Json.{
  Json, lookup, read, is_number, is_string, is_boolean, is_object, get_int64, get_double,
  get_string, get_bool, int_word,
}
use caudio.Record.{path, SourceRef, Track, is_path, source_kind_from_name}
use caudio.Record.Hex.{from_hex}
use caudio.Record.Fallback.{fallback_fingerprint}

-- The bytes of the hex text, or else those of the path's hash.
unfoldable pub fingerprint_of : String → String → List ℕ
fingerprint_of file_path hex =
    if is_empty_string hex
    then fallback_fingerprint file_path
    else (elim (from_hex hex) [ none ↦ fallback_fingerprint file_path | some bs ↦ bs ])

module _ {F : Type 0} where
  -- The object at "source"; without one, the track's path.
  unfoldable pub source_in : String → Json F → Expected SourceRef
  unfolding is_path source_kind_from_name
  source_in file_path s = do
    kind_name ← read is_string get_string s "kind" "path"
    elim (source_kind_from_name kind_name) [
      | none ↦ unexpected (make_error corrupt ("invalid source kind: " ++ kind_name))
      | some kind ↦ do
        key ← read is_string get_string s "key" ""
        display_name ← read is_string get_string s "display_name" ""
        available ← read is_boolean get_bool s "available" true
        ok (record {
          kind = kind;
          key = if is_path kind && is_empty_string key then file_path else key;
          display_name = display_name;
          available = available;
        })
    ]

  unfoldable pub source_from_json : String → Json F → Expected SourceRef
  source_from_json file_path j =
      let plain : SourceRef = record {
        kind = path;
        key = file_path;
        display_name = file_path;
        available = true;
      } in
      elim (lookup j "source") [
        | none ↦ ok plain
        | some s ↦ if is_object s then source_in file_path s else ok plain
      ]

module _ {F : Type 0} ⦃fl : Floats F⦄ where
  -- `getI64` and `getInt`, which keeps the low 32 bits.
  get_i64 : Json F → String → ℕ → Expected ℕ
  get_i64 j k default = read is_number get_int64 j k default

  low_int : Json F → String → Expected ℕ
  unfolding get_i64
  low_int j k = do v ← get_i64 j k 0; ok (v % int_word)

  unfoldable pub track_from_json : Json F → Expected (Track F)
  unfolding get_i64 low_int source_from_json
  track_from_json j = do
    id ← get_i64 j "id" 0
    size ← get_i64 j "size" 0
    mtime ← get_i64 j "mtime" 0
    duration ← read is_number get_double j "duration" (fl.of_int 0)
    sample_rate ← low_int j "sample_rate"
    channels ← low_int j "channels"
    bitrate ← low_int j "bitrate"
    year ← low_int j "year"
    track_num ← low_int j "track_num"
    disc_num ← low_int j "disc_num"
    rating ← low_int j "rating"
    play_count ← get_i64 j "play_count" 0
    last_played ← get_i64 j "last_played" 0
    date_added ← get_i64 j "date_added" 0
    last_scanned ← get_i64 j "last_scanned" 0
    dirty ← low_int j "dirty"
    library_id ← get_i64 j "library_id" 1
    deleted_at ← get_i64 j "deleted_at" 0
    file_path ← read is_string get_string j "path" ""
    source ← source_from_json file_path j
    title ← read is_string get_string j "title" ""
    artist ← read is_string get_string j "artist" ""
    album ← read is_string get_string j "album" ""
    album_artist ← read is_string get_string j "album_artist" ""
    genre ← read is_string get_string j "genre" ""
    cover_art_path ← read is_string get_string j "cover_art_path" ""
    hex ← read is_string get_string j "fingerprint" ""
    ok (record {
      id = id;
      size = size;
      mtime = mtime;
      duration = duration;
      play_count = play_count;
      last_played = last_played;
      date_added = date_added;
      last_scanned = last_scanned;
      deleted_at = deleted_at;
      library_id = if library_id == 0 then 1 else library_id;
      file_path = file_path;
      title = title;
      artist = artist;
      album = album;
      album_artist = album_artist;
      genre = genre;
      cover_art_path = cover_art_path;
      sample_rate = sample_rate;
      channels = channels;
      bitrate = bitrate;
      year = year;
      track_num = track_num;
      disc_num = disc_num;
      rating = rating;
      fingerprint = fingerprint_of file_path hex;
      dirty = if dirty == 0 then false else true;
      source = source;
    })
