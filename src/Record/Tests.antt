-- ===== src/Record/Tests.antt =====
-- The code of src/utils/record_json.cpp at a track.
use caudio.Prelude.{ℕ, ◌≡◌, refl, true, false, List, ok, ◌>>=◌, replicate, arith, some}
use caudio.Json.Whole.{whole}
use caudio.Record.{Track, imported, normalized_source, track_to_json}
use caudio.Record.Hex.{to_hex, from_hex, from_hex-to_hex}
use caudio.Record.Reading.{track_from_json}
use caudio.Record.Roundtrip.{IsTrack, track_from_json-to_json}

abbrev song : Track ℕ
song = record {
  id = 7;
  size = 1000;
  mtime = 5;
  duration = 180;
  play_count = 2;
  last_played = 9;
  date_added = 1;
  last_scanned = 3;
  deleted_at = 0;
  library_id = 1;
  file_path = "/music/song.flac";
  title = "Song";
  artist = "Band";
  album = "Album";
  album_artist = "";
  genre = "";
  cover_art_path = "";
  sample_rate = 44100;
  channels = 2;
  bitrate = 900;
  year = 0xffff_ffff;
  track_num = 1;
  disc_num = 1;
  rating = 5;
  fingerprint = replicate 32 0xa7;
  dirty = true;
  source = record { kind = imported; key = "k"; display_name = ""; available = true };
}

abbrev digest : List ℕ
digest = replicate 32 0xa7

from_hex-to_hex_example : from_hex (to_hex digest) ≡ some digest
from_hex-to_hex_example = from_hex-to_hex digest refl (omega arith)

song-IsTrack : IsTrack song
song-IsTrack = record {
  sample_rate = omega arith;
  channels = omega arith;
  bitrate = omega arith;
  year = omega arith;
  track_num = omega arith;
  disc_num = omega arith;
  rating = omega arith;
  library_id = λ e. absurd (omega (arith, e));
  size_of = refl;
  bytes_of = omega arith;
}

track_from_json-to_json_example :
    (track_to_json song >>= track_from_json)
    ≡ ok (record song { dirty = false; source = normalized_source song })
track_from_json-to_json_example = track_from_json-to_json song song-IsTrack
