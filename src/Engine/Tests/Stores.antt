-- ===== src/Engine/Tests/Stores.antt =====
-- Events, volume, history, saved state and the decode loop: the theorems at instances.
use mathlib.Core.List.{Perm}
use mathlib.Core.List.Perm
use caudio.Prelude.{
  ℕ, ◌+◌, ◌-◌, ◌*◌, ◌/◌, ◌<◌, ◌≤◌, ◌≡◌, ◌⊎◌, refl, inr, true, List, [], ◌∷◌, ◌++◌, some, none,
  arith, ok, length, take, drop,
}
use caudio.Mpsc.Fifo.{Holds}
use caudio.Ring
use caudio.Ring.{SpscRing}
use caudio.Ring.Frames
use caudio.Ring.Fresh.{make-Holds}
use caudio.Ring.Writes.{write_frames-Holds}
use caudio.Engine.{Engine, World, EngineEvent, Called, Media, track_ended, all, playing}
use caudio.Engine.Persist.{
  has_db, current_position_locked, load_state, persisted_state, secs_of_ms, saved_position_ms,
}
use caudio.Engine.Traverse.{positions}
use caudio.Engine.Play.{push_event}
use caudio.Engine.Notified.{Notifies}
use caudio.Engine.Settings.{drain_all, drain_events, note_enqueued, set_volume}
use caudio.Engine.Tick.{is_due, do_history_mark, should_mark_played}
use caudio.Engine.Events.{drain_all_lem, drain_events_lem, push_event_lem}
use caudio.Engine.Saved.{Mirrors, load-save}
use caudio.Engine.History.{marks, mark_once}
use caudio.Engine.Enqueued.{note_enqueued-Perm}
use caudio.Engine.Volume.{Literals, Nearest, InRange, gain_of, set_volume-InRange}
use caudio.Engine.Life.{channels_of, chunk_size, decode_into}
use caudio.Engine.Life.Fill.{decode_into_lem}
use caudio.Engine.Tests.{whole, song, world, three_songs, in_order, engine_at, no_callbacks}

abbrev ended_at : ℕ → EngineEvent ℕ
ended_at p = record {
  type = track_ended;
  track_id = 7;
  queue_id = 1;
  position = p;
  duration = 180;
  msg = "";
}

-- One event is pending, in a queue of two.
abbrev notified : Engine ℕ
notified = record (engine_at in_order) {
  events = record { cap = 2; buf = some (ended_at 3) ∷ none ∷ []; wr = 1; rd = 0 };
}

notified-Holds : Holds notified.events (ended_at 3 ∷ [])
notified-Holds = record {
  positive = omega arith;
  storage = refl;
  counters = refl;
  bounded = omega arith;
  in_word = omega arith;
  items = refl;
}

drain_all_lem_example :
    ((drain_all notified).1 ≡ ended_at 3 ∷ []) × Holds (drain_all notified).0.events []
drain_all_lem_example = drain_all_lem notified (ended_at 3 ∷ []) notified-Holds

drain_events_lem_example :
    ((drain_events true true 5 notified).1 ≡ ok (take 5 (ended_at 3 ∷ [])))
    × Holds (drain_events true true 5 notified).0.events (drop 5 (ended_at 3 ∷ []))
drain_events_lem_example = drain_events_lem 5 notified (ended_at 3 ∷ []) notified-Holds

-- A client with a callback for the end of a track.
abbrev listened : Engine ℕ
listened = record notified { callbacks = record no_callbacks { on_track_ended = true } }

push_event_lem_example :
    (length (ended_at 3 ∷ []) < listened.events.cap)
      × Holds (push_event (ended_at 90) listened).events ((ended_at 3 ∷ []) ++ ended_at 90 ∷ [])
      × ((new : List (Called ℕ)) × Notifies listened.callbacks (ended_at 90) new
          × ((push_event (ended_at 90) listened).calls ≡ new ++ listened.calls))
    ⊎ (length (ended_at 3 ∷ []) ≡ listened.events.cap)
      × (push_event (ended_at 90) listened ≡ listened)
push_event_lem_example =
    push_event_lem (ended_at 90) listened (ended_at 3 ∷ []) notified-Holds (omega arith) refl

literals : Literals ℕ
literals = record {
  zero_zero = refl;
  one_one = refl;
  one_zero = refl;
  finite_zero = refl;
  finite_one = refl;
}

set_volume-InRange_example :
    let e = (set_volume world 5 notified).0 in
    Nearest {F = ℕ} 5 e.volume
    × (whole.is_finite e.volume ≡ true)
    × InRange {F = ℕ} e.volume
    × (e.state.volume ≡ e.volume)
    × (gain_of e.output e.volume ≡ e.volume)
set_volume-InRange_example = set_volume-InRange world 5 notified literals

-- A track that has been heard for five minutes.
abbrev heard : Engine ℕ
heard = record (engine_at in_order) {
  playback_state = playing;
  has_current = true;
  current_track = song 1;
  duration = 600;
  accumulated_playback_ms = 300_000;
}

heard-is_due : is_due world heard ≡ true
unfolding is_due has_db should_mark_played
heard-is_due = refl

mark_once_example : marks (world ∷ world ∷ world ∷ []) heard ≡ do_history_mark world heard
mark_once_example = mark_once world (world ∷ world ∷ []) heard heard-is_due refl

-- A shuffled queue whose third track has just been appended.
abbrev two_shuffled : Engine ℕ
two_shuffled = engine_at (record in_order { shuffle = true; perm = 1 ∷ 0 ∷ [] })

note_enqueued-Perm_example :
    ((note_enqueued world 1 1 two_shuffled).queue.perm ≡ (1 ∷ 0 ∷ []) ++ positions 2 1)
    × Perm (note_enqueued world 1 1 two_shuffled).queue.perm (positions 0 (2 + 1))
note_enqueued-Perm_example =
    note_enqueued-Perm world 1 1 2 two_shuffled (unfold has_db in refl) refl refl refl refl
      (λ e. absurd (omega arith)) refl (Perm.swap 0 1 [])

-- A stopped engine with an order drawn, and a later start on the row that it saved.
abbrev saved : Engine ℕ
saved = record (engine_at (record in_order { shuffle = true; perm = 1 ∷ 0 ∷ 2 ∷ []; cursor = 2 })) {
  state = record {
    shuffle_enabled = 1;
    repeat_mode = all;
    cursor_pos = 2;
    current_track_id = 100;
    volume = 1;
    active_queue_id = 1;
    pre_mute_volume = 1;
    position_ms = 12_000;
  };
}

saved-Mirrors : Mirrors saved
saved-Mirrors = record {
  shuffled = refl;
  repeats = refl;
  cursor = refl;
  queue = refl;
  named = λ e. absurd (omega arith);
  gain = refl;
  unmuted = refl;
  small = refl;
  inside = inr (omega arith);
}

abbrev next_day : World ℕ
next_day = record world {
  db = record three_songs { load_engine_state = ok (persisted_state world saved) };
}

load-save_example :
    let loaded = (load_state next_day (engine_at in_order)).0 in
    (loaded.queue ≡ saved.queue)
    × (loaded.volume ≡ saved.volume)
    × (loaded.pre_mute ≡ saved.pre_mute)
    × (loaded.state.current_track_id ≡ saved.state.current_track_id)
    × (current_position_locked next_day loaded
        ≡ secs_of_ms next_day (saved_position_ms world saved))
load-save_example =
    load-save world next_day saved (engine_at in_order) saved-Mirrors (unfold has_db in refl) refl
      refl refl

-- A stereo file, whose decoder delivers one frame.
abbrev stereo : Media
stereo = record { total_frames = 48_000; sample_rate = 48_000; channels = 2 }

-- A ring for four stereo frames in which one was written.
abbrev four_frames : SpscRing ℕ
four_frames = record {
  cap = 4;
  channels = 2;
  buf = 8 ∷ 9 ∷ 0 ∷ 0 ∷ 0 ∷ 0 ∷ 0 ∷ 0 ∷ [];
  wr = 1;
  rd = 0;
  mask = 3;
}

abbrev decoding : World ℕ
decoding = record world { decoded = (1 ∷ 2 ∷ []) ∷ [] }

one_held : Ring.Frames.Holds four_frames 1 (8 ∷ 9 ∷ [])
unfolding Ring.write_frames Ring.make Ring.used_of Ring.copy_in Ring.index
one_held =
    (write_frames-Holds (Ring.make 0 4 2) 0 1 [] (8 ∷ 9 ∷ [])
      (make-Holds 0 4 2 (omega arith) (omega arith) (omega arith)) (omega arith) (omega arith)).0

two_offered : 2 ≤ chunk_size decoding (4 - 1) (channels_of decoding stereo) * 2
unfolding chunk_size
two_offered = omega arith

decode_into_lem_example :
    Ring.Frames.Holds
      (decode_into decoding stereo four_frames).0
      (1 + 2 / 2)
      ((8 ∷ 9 ∷ []) ++ take (2 / 2 * 2) (1 ∷ 2 ∷ []))
    × ((decode_into decoding stereo four_frames).1 ≡ 2 / 2)
decode_into_lem_example =
    decode_into_lem decoding stereo four_frames 1 (8 ∷ 9 ∷ []) one_held refl (omega arith)
      two_offered (omega arith)
