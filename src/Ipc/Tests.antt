-- ===== src/Ipc/Tests.antt =====
-- The codec and the framing of src/ipc/protocol.cpp at instances.
use caudio.Prelude.{
  ℕ, ◌≡◌, refl, true, false, List, [], ◌∷◌, ◌++◌, some, none, ok, unexpected, make_error,
  invalid_arg, ltb, if◌then◌else◌, take, length, ◌>>=◌, arith,
}
use caudio.Engine.{one}
use caudio.Json.Whole.{whole, whole_singles, whole_unsigned}
use caudio.Ipc.{Command, volume_set}
use caudio.Ipc.Writing.{to_json}
use caudio.Ipc.Reading.{command_from_json}
use caudio.Ipc.Roundtrip.{command_from_json-to_json}
use caudio.Ipc.Roundtrip.Fields.{IsCommand}
use caudio.Ipc.Frame.{frame, deframe, frame_length, deframe-frame, deframe_lem, deframe_overflow}
use caudio.Ipc.Result.{Status, playlist_loaded}
use caudio.Ipc.Result.Writing.{result_to_json}
use caudio.Ipc.Result.Reading.{result_from_json}
use caudio.Ipc.Result.Known.{IsResult, IsKnown}
use caudio.Ipc.Result.Roundtrip.{result_from_json-to_json}

abbrev quieter : Command ℕ ℕ
quieter = volume_set none (some true) (some 0xffff_fff6)

command_from_json-to_json_example : (to_json quieter >>= command_from_json) ≡ ok quieter
unfolding IsCommand
command_from_json-to_json_example = command_from_json-to_json (λ x. refl) quieter (omega arith)

abbrev paused : Status ℕ ℕ
paused = record {
  state = 3;
  pos = 10;
  dur = 180;
  vol = 1;
  muted = false;
  shuffle = true;
  repeat = one;
  track_id = 7;
  title = "Song";
  artist = "Band";
  path = "/music/song.flac";
  q_size = 3;
  q_idx = 1;
  version = "0.33";
}

result_from_json-to_json_example :
    (result_to_json (playlist_loaded 4 paused) >>= result_from_json) ≡ ok (playlist_loaded 4 paused)
unfolding IsResult IsKnown
result_from_json-to_json_example =
    result_from_json-to_json (λ x. refl) (playlist_loaded 4 paused)
      (record { state = omega arith; repeat = tt })

abbrev text_bytes : List ℕ
text_bytes = b'{' ∷ b'}' ∷ []

deframe-frame_example : deframe (frame text_bytes ++ 1 ∷ []) ≡ some (ok text_bytes)
deframe-frame_example = deframe-frame text_bytes (1 ∷ []) (omega arith)

deframe_lem_example :
    deframe (0 ∷ 0 ∷ 1 ∷ 0 ∷ text_bytes)
    ≡ some (
        if ltb (length text_bytes) (frame_length 0 0 1 0)
        then unexpected (make_error invalid_arg "frame incomplete")
        else ok (take (frame_length 0 0 1 0) text_bytes))
unfolding frame_length
deframe_lem_example = deframe_lem 0 0 1 0 text_bytes (omega arith)

deframe_overflow_example : deframe (255 ∷ 255 ∷ 255 ∷ 255 ∷ text_bytes) ≡ none
unfolding frame_length
deframe_overflow_example =
    deframe_overflow 255 255 255 255 text_bytes (omega arith) (omega arith) (omega arith)
