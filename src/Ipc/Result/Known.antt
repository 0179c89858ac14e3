-- ===== src/Ipc/Result/Known.antt =====
-- Results of src/ipc/protocol.cpp whose fields are within their types and known to the reader.
use caudio.Prelude.{ℕ, zero, suc, ◌<◌, ◌≡◌, refl, none, some, ok, arith}
use caudio.Engine.{RepeatMode, off, all, one, other}
use caudio.Ipc.Writing.{repeat_text}
use caudio.Ipc.Reading.Fields.{parse_repeat}
use caudio.Ipc.Result.{
  Result, Status, status, queue_tracks, playlist_loaded, library_stats, tracks, search_results,
  playlists, playlist_data, playlist_import_report, single_track, track_info,
}
use caudio.Ipc.Result.Writing.{state_text}
use caudio.Ipc.Result.Lists.{IsClean, AllClean, AllInt}
use caudio.Ipc.Result.Reading.{parse_state, known}

pub state_lem : (b : ℕ) → b < 4 → known "unknown PlaybackState" (parse_state (state_text b)) ≡ ok b
unfolding parse_state state_text known
state_lem zero h = refl
state_lem (suc zero) h = refl
state_lem (suc (suc zero)) h = refl
state_lem (suc (suc (suc zero))) h = refl
state_lem (suc (suc (suc (suc b)))) h = absurd (omega arith)

unfoldable pub IsKnown : RepeatMode → Type 0
IsKnown (other b) = ⊥
IsKnown m = Unit {0}

pub repeat_lem :
    (m : RepeatMode) → IsKnown m → known "unknown RepeatMode" (parse_repeat (repeat_text m)) ≡ ok m
unfolding known parse_repeat repeat_text IsKnown
repeat_lem off h = refl
repeat_lem all h = refl
repeat_lem one h = refl
repeat_lem (other b) h = absurd h

pub record IsStatus {F S : Type 0} (v : Status F S) : Type 0 where
  pub state : v.state < 4
  pub repeat : IsKnown v.repeat

-- The numbers of a result are within their types, its tracks come back as they are, and its states
-- are known ones.
unfoldable pub IsResult : {F S : Type 0} → Result F S → Type 0
unfolding AllClean AllInt
IsResult (status v) = IsStatus v
IsResult (playlist_loaded id v) = IsStatus v
IsResult (queue_tracks ts) = AllClean ts
IsResult (tracks ts) = AllClean ts
IsResult (search_results query ts) = AllClean ts
IsResult (playlist_data ts format) = AllClean ts
IsResult (playlist_import_report pid name ts matched skipped duplicates) = AllClean ts
IsResult (library_stats v) = elim v.most_played [ none ↦ Unit {0} | some ts ↦ AllClean ts ]
IsResult (playlists ps) = AllInt ps
IsResult (single_track t) = IsClean t
IsResult (track_info t play_count last_played) = IsClean t
IsResult r = Unit {0}
