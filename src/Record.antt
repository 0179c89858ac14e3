-- ===== src/Record.antt =====
-- include/caudio/types/record.hpp, the hex text of include/caudio/utils/math.hpp, and
-- src/utils/record_json.cpp: a track as JSON.
pub mod Hex
pub mod Fallback
pub mod Reading
pub mod Roundtrip
mod Tests
use Prim.Native.String.{String}
use text.Mathlib.Text.{◌==◌ as str_eq}
use caudio.Prelude.{
  ℕ, Bool, true, false, List, Option, none, some, Expected, ok, unexpected, ◌>>=◌, if◌then◌else◌,
  is_empty_string, ◌&&◌,
}
use caudio.Record.Hex.{to_hex}
use caudio.Json.{Json, null, boolean, integer, unsigned, real, string, put, sign_extend}

-- `types::SourceKind`, a byte-sized enumeration.
pub data SourceKind : Type 0 where
  path external imported unavailable : SourceKind

pub record SourceRef : Type 0 where
  pub kind : SourceKind
  pub key : String
  pub display_name : String
  pub available : Bool

-- `types::Track`. 64-bit and 32-bit integers are words; `fingerprint` is its 32 bytes.
pub record Track (F : Type 0) : Type 0 where
  pub id : ℕ
  pub size : ℕ
  pub mtime : ℕ
  pub duration : F
  pub play_count : ℕ
  pub last_played : ℕ
  pub date_added : ℕ
  pub last_scanned : ℕ
  pub deleted_at : ℕ
  pub library_id : ℕ
  pub file_path : String
  pub title : String
  pub artist : String
  pub album : String
  pub album_artist : String
  pub genre : String
  pub cover_art_path : String
  pub sample_rate : ℕ
  pub channels : ℕ
  pub bitrate : ℕ
  pub year : ℕ
  pub track_num : ℕ
  pub disc_num : ℕ
  pub rating : ℕ
  pub fingerprint : List ℕ
  pub dirty : Bool
  pub source : SourceRef

unfoldable pub source_kind_name : SourceKind → String
source_kind_name path = "path"
source_kind_name external = "external"
source_kind_name imported = "imported"
source_kind_name unavailable = "unavailable"

unfoldable pub source_kind_from_name : String → Option SourceKind
source_kind_from_name name =
    if str_eq name "path"
    then some path
    else if str_eq name "external"
    then some external
    else if str_eq name "imported"
    then some imported
    else if str_eq name "unavailable"
    then some unavailable
    else none

unfoldable pub is_path : SourceKind → Bool
is_path path = true
is_path other = false

-- `normalizedSource` of include/caudio/types/record.hpp.
unfoldable pub normalized_source : {F : Type 0} → Track F → SourceRef
unfolding is_path
normalized_source t =
    let source = t.source in
    let keyed =
      if is_path source.kind && is_empty_string source.key
      then record source { key = t.file_path }
      else source in
    if is_empty_string keyed.display_name && is_path keyed.kind
    then record keyed { display_name = t.file_path }
    else keyed

module _ {F : Type 0} where
  -- The nested object of a source.
  unfoldable pub source_to_json : SourceRef → Expected (Json F)
  unfolding put source_kind_name
  source_to_json source = do
    s ← put "kind" (string (source_kind_name source.kind)) null
    s ← put "key" (string source.key) s
    s ← put "display_name" (string source.display_name) s
    put "available" (boolean source.available) s

  -- The numbers of a track.
  numbers_to_json : Track F → Expected (Json F)
  unfolding put
  numbers_to_json t = do
    j ← put "id" (integer t.id) null
    j ← put "size" (integer t.size) j
    j ← put "mtime" (integer t.mtime) j
    j ← put "duration" (real t.duration) j
    j ← put "sample_rate" (unsigned t.sample_rate) j
    j ← put "channels" (unsigned t.channels) j
    j ← put "bitrate" (integer (sign_extend t.bitrate)) j
    j ← put "year" (integer (sign_extend t.year)) j
    j ← put "track_num" (integer (sign_extend t.track_num)) j
    j ← put "disc_num" (integer (sign_extend t.disc_num)) j
    j ← put "rating" (integer (sign_extend t.rating)) j
    j ← put "play_count" (integer t.play_count) j
    j ← put "last_played" (integer t.last_played) j
    j ← put "date_added" (integer t.date_added) j
    j ← put "last_scanned" (integer t.last_scanned) j
    j ← put "dirty" (boolean t.dirty) j
    j ← put "library_id" (integer t.library_id) j
    put "deleted_at" (integer t.deleted_at) j

  unfoldable pub track_to_json : Track F → Expected (Json F)
  unfolding numbers_to_json source_to_json to_hex normalized_source
  track_to_json t = do
    j ← numbers_to_json t
    j ← put "fingerprint" (string (to_hex t.fingerprint)) j
    j ← put "path" (string t.file_path) j
    s ← source_to_json (normalized_source t)
    j ← put "source" s j
    j ← put "title" (string t.title) j
    j ← put "artist" (string t.artist) j
    j ← put "album" (string t.album) j
    j ← put "album_artist" (string t.album_artist) j
    j ← put "genre" (string t.genre) j
    put "cover_art_path" (string t.cover_art_path) j
