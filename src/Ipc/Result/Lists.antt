-- ===== src/Ipc/Result/Lists.antt =====
-- Lists in the results of src/ipc/protocol.cpp: their elements read back.
use caudio.Prelude.{◌<◌, ◌≡◌, refl, sym, ap₂, ◌∙◌, Bool, false, List, [], ◌∷◌, Expected, ok, ◌>>=◌}
use caudio.Engine.{Floats}
use caudio.Json.{
  Json, Items, nil, Unsigned, read, read_optional, taken, to_some, is_number, is_string, is_boolean,
  is_array, get_int64, get_int, get_size, get_double, get_float, get_string, get_bool, int_word,
}
use caudio.Ipc.Roundtrip.Fields.{plain_string, plain_word, int_field}
use caudio.Record.{SourceRef, Track, normalized_source, track_to_json}
use caudio.Record.Reading.{track_from_json}
use caudio.Record.Roundtrip.{IsTrack, track_from_json-to_json}
use caudio.Ipc.Result.{QueueEntry, Playlist, ConfigValue, HistoryEntry, Bookmark, DeviceInfo}
use caudio.Ipc.Result.Each.{read_each, read_each-written, written_each, AllRead}
use caudio.Ipc.Result.Writing.{
  entry_to_json, playlist_to_json, config_value_to_json, entry_of_history_to_json, bookmark_to_json,
  device_to_json,
}
use caudio.Ipc.Result.Entries.{
  entry_from_json, playlist_from_json, config_value_from_json, entry_of_history_from_json,
  bookmark_from_json, device_from_json,
}

-- A track that comes back as it is: its source is normalized, and it is not dirty.
pub record IsClean {F : Type 0} (t : Track F) : Type 0 where
  pub valid : IsTrack t
  pub clean : t.dirty ≡ false
  pub normal : normalized_source t ≡ t.source

unfoldable pub AllClean : {F : Type 0} → List (Track F) → Type 0
AllClean [] = Unit {0}
AllClean (t ∷ ts) = IsClean t × AllClean ts

unfoldable pub AllInt : List Playlist → Type 0
AllInt [] = Unit {0}
AllInt (p ∷ ps) = (p.type < int_word) × AllInt ps

module _ {ℓ} {F : Type 0} {A : Type ℓ} (write : A → Expected (Json F))
    (get : Json F → Expected A) where
  -- What a loop of pushes makes, the loop of reads takes back.
  pub list_back :
      (xs : List A)
      → AllRead write get xs
      → (ws : Items F) × (written_each write xs nil ≡ ok ws) × (read_each get ws ≡ ok xs)
  unfolding read_each
  list_back xs h = read_each-written write get [] xs nil refl h

  pub all_back : ((x : A) → (write x >>= get) ≡ ok x) → (xs : List A) → AllRead write get xs
  all_back h [] = tt
  all_back h (x ∷ xs) = (h x, all_back h xs)

module _ (F : Type 0) where
  pub config_value_back :
      (e : ConfigValue) → (config_value_to_json {F = F} e >>= config_value_from_json) ≡ ok e
  unfolding config_value_to_json config_value_from_json read read_optional taken to_some is_number
      is_string is_boolean is_array get_int64 get_int get_size get_double get_float get_string
      get_bool
  config_value_back e = refl

  pub device_back : (e : DeviceInfo) → (device_to_json {F = F} e >>= device_from_json) ≡ ok e
  unfolding device_to_json device_from_json read read_optional taken to_some is_number is_string
      is_boolean is_array get_int64 get_int get_size get_double get_float get_string get_bool
  device_back e = refl

module _ (F : Type 0) ⦃fl : Floats F⦄ where
  pub entry_back :
      ⦃un : Unsigned F⦄ → (e : QueueEntry) → (entry_to_json {F = F} e >>= entry_from_json) ≡ ok e
  unfolding entry_to_json entry_from_json read read_optional taken to_some is_number is_string
      is_boolean is_array get_int64 get_int get_size get_double get_float get_string get_bool
  entry_back e = refl

  pub bookmark_back : (e : Bookmark) → (bookmark_to_json {F = F} e >>= bookmark_from_json) ≡ ok e
  unfolding bookmark_to_json bookmark_from_json read read_optional taken to_some is_number is_string
      is_boolean is_array get_int64 get_int get_size get_double get_float get_string get_bool
  bookmark_back e = refl

  pub entry_of_history_back :
      (e : HistoryEntry F) → (entry_of_history_to_json e >>= entry_of_history_from_json) ≡ ok e
  unfolding entry_of_history_to_json entry_of_history_from_json read read_optional taken to_some
      is_number is_string is_boolean is_array get_int64 get_int get_size get_double get_float
      get_string get_bool
  entry_of_history_back e = refl

  playlist_back :
      (e : Playlist)
      → e.type < int_word
      → (playlist_to_json {F = F} e >>= playlist_from_json) ≡ ok e
  unfolding playlist_to_json playlist_from_json read
  playlist_back e h = simp (plain_string F, plain_word F, int_field F e.type 0 h)

  pub playlists_back :
      (ps : List Playlist) → AllInt ps → AllRead (playlist_to_json {F = F}) playlist_from_json ps
  unfolding AllInt
  playlists_back [] h = tt
  playlists_back (p ∷ ps) (int, h) = (playlist_back p int, playlists_back ps h)

  pub track_back : (t : Track F) → IsClean t → (track_to_json t >>= track_from_json) ≡ ok t
  track_back t h =
      track_from_json-to_json t h.valid
      ∙ ap₂ (λ (d : Bool) (s : SourceRef). ok (record t { dirty = d; source = s })) (sym h.clean)
          h.normal

  pub tracks_back : (ts : List (Track F)) → AllClean ts → AllRead track_to_json track_from_json ts
  unfolding AllClean
  tracks_back [] h = tt
  tracks_back (t ∷ ts) (clean, h) = (track_back t clean, tracks_back ts h)
