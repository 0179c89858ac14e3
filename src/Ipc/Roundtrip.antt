-- ===== src/Ipc/Roundtrip.antt =====
-- Commands of src/ipc/protocol.cpp: what toJson writes, commandFromJson reads.
pub mod Fields
use Prim.Native.String.{String}
use text.Mathlib.Text.{◌==◌ as str_eq}
use mathlib.Core.List.{append-nil, append_assoc}
use caudio.Prelude.{
  ℕ, ◌+◌, ◌-◌, ◌%◌, ◌^◌, ◌<◌, ◌≡◌, refl, sym, ap, ◌∙◌, Bool, true, false, List, [], ◌∷◌, ◌++◌,
  Option, none, some, Expected, ok, ◌>>=◌, arith,
}
use caudio.Engine.{RepeatMode, off, all, one, other, Floats}
use caudio.Json.{
  Json, Items, object, field, end, snoc, nil, cons, Singles, Unsigned, null, boolean, integer,
  unsigned, real, string, array, put, push_back, or_null, sign_extend, is_number, is_string,
  is_boolean, is_array, get_int64, get_int, get_size, get_string, get_bool, get_double, get_float,
  read, read_optional, taken, to_some, lookup, int_word, contains,
}
use caudio.Ipc.{
  Command, play, pause, resume, restart, stop, next, prev, seek, status_req, volume_set, queue_list,
  queue_queues, queue_create, queue_delete, play_files, queue_switch, queue_add, queue_remove,
  queue_move, queue_clear, queue_shuffle, queue_repeat, playlist_list, playlist_tracks,
  playlist_create, playlist_add, playlist_load, playlist_save, playlist_delete, playlist_rename,
  playlist_export, playlist_import, library_scan, library_search, library_stats, library_add,
  library_remove, library_list, tag_edit, tag_get, config_get, config_set, config_list,
  config_export, config_import, config_reset, history_list, history_clear, bookmark_list,
  bookmark_add, bookmark_remove, bookmark_goto, shutdown, preview, device_list, device_set,
  device_test, info,
}
use caudio.Ipc.Writing.{to_json, typed, push_all, repeat_text}
use caudio.Ipc.Reading.{command_from_json}
use caudio.Ipc.Reading.Fields.{
  strings_of, strings_in, repeat_of, full_hash_of, removed_of, top_n_of,
}
use caudio.Ipc.Roundtrip.Fields.{
  IsCommand, IsInt, IsMode, string_field, bool_field, mode_field, texts, push-texts, texts_field,
  int_field, int_option, word_option, float_option, plain_string, plain_bool, plain_full_hash,
  plain_query, plain_word, plain_size, plain_real,
}

ruleset read_back = (
  plain_string, plain_bool, plain_full_hash, plain_query, plain_word, plain_size, plain_real,
  string_field, bool_field, word_option,
)

module _ {F S : Type 0} ⦃fl : Floats F⦄ ⦃un : Unsigned F⦄ ⦃si : Singles F S⦄
    (law : (x : S) → si.narrow (si.widen x) ≡ x) where
  -- What toJson writes for a command, commandFromJson reads as the same command, where the numbers
  -- of the command are within their types and its repeat mode is one of the three; toJson throws
  -- nothing.
  pub command_from_json-to_json :
      (c : Command F S) → IsCommand c → (to_json c >>= command_from_json) ≡ ok c
  unfolding to_json command_from_json read read_optional full_hash_of removed_of top_n_of IsCommand
  command_from_json-to_json (volume_set level mute delta_pct) h =
      simp (float_option F law level, bool_field F mute, int_option F delta_pct h)
  command_from_json-to_json (queue_repeat mode) h = simp (mode_field F mode h)
  command_from_json-to_json (library_search query limit) h =
      simp (read_back, int_field F limit 50 h)
  command_from_json-to_json (library_stats none) h = refl
  command_from_json-to_json (library_stats (some n)) h = simp (int_option F (some n) h)
  command_from_json-to_json (library_list query limit offset artist album genre) h =
      simp (read_back, int_field F limit 50 h.0, int_field F offset 0 h.1)
  command_from_json-to_json (history_list limit) h = simp (int_option F limit h)
  command_from_json-to_json (play_files paths save) h =
      simp (read_back, push-texts (string "PlayFiles") paths nil, texts_field F paths)
  command_from_json-to_json play h = refl
  command_from_json-to_json pause h = refl
  command_from_json-to_json resume h = refl
  command_from_json-to_json restart h = refl
  command_from_json-to_json stop h = refl
  command_from_json-to_json next h = refl
  command_from_json-to_json prev h = refl
  command_from_json-to_json status_req h = refl
  command_from_json-to_json queue_queues h = refl
  command_from_json-to_json queue_clear h = refl
  command_from_json-to_json playlist_list h = refl
  command_from_json-to_json config_list h = refl
  command_from_json-to_json history_clear h = refl
  command_from_json-to_json shutdown h = refl
  command_from_json-to_json device_list h = refl
  command_from_json-to_json info h = refl
  command_from_json-to_json c h = simp read_back
