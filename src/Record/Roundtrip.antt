-- ===== src/Record/Roundtrip.antt =====
-- src/utils/record_json.cpp: what trackFromJson reads of what trackToJson writes.
use Prim.Native.String.{String}
use caudio.Prelude.{
  ℕ, ◌%◌, ◌<◌, ◌≡◌, ◌≢◌, refl, Bool, false, List, [], ◌∷◌, ok, ◌>>=◌, arith, ◌==◌, ◌&&◌,
  if◌then◌else◌, length, is_empty_string,
}
use caudio.Engine.{Floats}
use caudio.Json.{
  boolean, string, object, field, end, is_object, sign_extend, read, taken, is_number, is_string,
  is_boolean, get_int64, get_string, get_bool, get_double, int_word,
}
use caudio.Record.{
  SourceKind, path, external, imported, unavailable, Track, normalized_source, track_to_json,
  source_kind_name, is_path,
}
use caudio.Record.Hex.{Bytes, to_hex, from_hex-to_hex}
use caudio.Record.Reading.{track_from_json, source_in, fingerprint_of}

-- The numbers of a track are within their types, its fingerprint is 32 bytes, and it is in a
-- library.
pub record IsTrack {F : Type 0} (t : Track F) : Type 0 where
  pub sample_rate : t.sample_rate < int_word
  pub channels : t.channels < int_word
  pub bitrate : t.bitrate < int_word
  pub year : t.year < int_word
  pub track_num : t.track_num < int_word
  pub disc_num : t.disc_num < int_word
  pub rating : t.rating < int_word
  pub library_id : t.library_id ≢ 0
  pub size_of : length t.fingerprint ≡ 32
  pub bytes_of : Bytes t.fingerprint

low-sign_extend : (n : ℕ) → n < int_word → sign_extend n % int_word ≡ n
low-sign_extend n h = ground arith

low-unsigned : (n : ℕ) → n < int_word → n % int_word ≡ n
low-unsigned n h = omega arith

library_lem : (n : ℕ) → n ≢ 0 → (if n == 0 then 1 else n) ≡ n
library_lem n h = ground arith

fingerprint_lem :
    (p : String) (bs : List ℕ) → length bs ≡ 32 → Bytes bs → fingerprint_of p (to_hex bs) ≡ bs
unfolding fingerprint_of to_hex
fingerprint_lem p [] size h = absurd (omega arith)
fingerprint_lem p (b ∷ bs) size h = rw (from_hex-to_hex (b ∷ bs) size h) refl

module _ (F : Type 0) where
  source_lem :
      (p key display_name : String) (kind : SourceKind) (available : Bool)
      → source_in {F = F} p (
          object (
            field "kind" (string (source_kind_name kind)) (
              field "key" (string key) (
                field "display_name"
                  (string display_name)
                  (field "available" (boolean available) end)))))
        ≡ ok (record {
          kind = kind;
          key = if is_path kind && is_empty_string key then p else key;
          display_name = display_name;
          available = available;
        })
  unfolding source_in source_kind_name read taken is_string is_boolean get_string get_bool
  source_lem p key display_name path available = refl
  source_lem p key display_name external available = refl
  source_lem p key display_name imported available = refl
  source_lem p key display_name unavailable available = refl

module _ {F : Type 0} where
  keyed :
      (t : Track F)
      → (let s = normalized_source t in
          if is_path s.kind && is_empty_string s.key then t.file_path else s.key)
        ≡ (normalized_source t).key
  unfolding normalized_source
  keyed t = ground arith

module _ {F : Type 0} ⦃fl : Floats F⦄ where
  -- A track that trackToJson writes and trackFromJson reads is the track with its source
  -- normalized, but for `dirty`: written as a Boolean and read as a number, it comes back false.
  pub track_from_json-to_json :
      (t : Track F)
      → IsTrack t
      → (track_to_json t >>= track_from_json)
        ≡ ok (record t { dirty = false; source = normalized_source t })
  unfolding track_to_json track_from_json read taken is_number is_string is_boolean is_object
      get_int64 get_string get_bool get_double
  track_from_json-to_json t h = simp (
    source_lem F t.file_path (normalized_source t).key (normalized_source t).display_name
        (normalized_source t).kind (normalized_source t).available,
    keyed t,
    low-unsigned t.sample_rate h.sample_rate,
    low-unsigned t.channels h.channels,
    low-sign_extend t.bitrate h.bitrate,
    low-sign_extend t.year h.year,
    low-sign_extend t.track_num h.track_num,
    low-sign_extend t.disc_num h.disc_num,
    low-sign_extend t.rating h.rating,
    library_lem t.library_id h.library_id,
    fingerprint_lem t.file_path t.fingerprint h.size_of h.bytes_of,
  )
