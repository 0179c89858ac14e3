-- ===== src/Engine/Tests/Machine.antt =====
-- The commands on a queue of three: the machine's theorems at instances.
use caudio.Prelude.{ℕ, zero, suc, ◌+◌, ◌<◌, ◌≡◌, refl, true, false, List, [], ◌∷◌, arith, ok}
use caudio.Engine.{Engine, World, off, playing, stopped}
use caudio.Engine.Persist.{has_db, save_state, current_position_locked, fetch_track_by_pos_locked}
use caudio.Engine.Traverse.{queue_next_locked}
use caudio.Engine.Traverse.Linear.{Walks}
use caudio.Mpsc
use caudio.Engine.Play.{push_event, do_play_track, finish_play}
use caudio.Engine.Transport.{stop, pause, resume}
use caudio.Engine.Settings.{switch_queue}
use caudio.Engine.Commands.{auto_next, next, advance_locked, go_on}
use caudio.Engine.View.{view, view_of, now_playing}
use caudio.Engine.Machine.{Command, plays, pauses, ticks, Move, perform}
use caudio.Engine.Machine.Sound.{Sound, performed, perform-Move}
use caudio.Engine.Life.Born.{opened_engine, opened-performed}
use caudio.Engine.Replay.{stop-next}
use caudio.Engine.Clock.{within, pause-resume}
use caudio.Engine.Switched.{switch-auto_next}
use caudio.Engine.Whole.{Playable, auto_run, auto_run_plays, auto_run_halts}
use caudio.Engine.Tests.{whole, song, world, in_order, options, engine_at}

loads_three : (p : ℕ) → p < 3 → world.db.queue_track_at 1 p ≡ ok (song p)
loads_three zero h = refl
loads_three (suc zero) h = refl
loads_three (suc (suc zero)) h = refl
loads_three (suc (suc (suc p))) h = absurd (omega arith)

perform-Move_example :
    Move {F = ℕ}
      (plays 1)
      (view (engine_at in_order))
      (view_of (perform world (plays 1) (engine_at in_order)))
perform-Move_example = perform-Move world (plays 1) (engine_at in_order)

-- Two commands and a tick of the monitor.
abbrev session : List (World ℕ × Command ℕ)
session = (world, plays 1) ∷ (world, pauses) ∷ (world, ticks) ∷ []

opened-performed_example : Sound (view (performed session (opened_engine world options true)))
opened-performed_example = opened-performed world options true session

-- The second track of the queue plays; repeat is off.
abbrev second_playing : Engine ℕ
second_playing = record (engine_at (record in_order { cursor = 2; repeat = off })) {
  playback_state = playing;
  has_current = true;
  current_track = song 1;
  duration = 180;
  pause_pos = 7;
}

second_playing-Walks : Walks world song 3 second_playing
second_playing-Walks = record {
  open_db = unfold has_db in refl;
  in_order = refl;
  named = λ e. absurd (omega arith);
  wraps = refl;
  counted = refl;
  loads = loads_three;
  nonempty = omega arith;
  sized = omega arith;
  placed = omega arith;
}

third_started : (next world second_playing).1 ≡ ok tt
unfolding next advance_locked go_on queue_next_locked fetch_track_by_pos_locked do_play_track
    finish_play
third_started = refl

abbrev later : World ℕ
later = record world { now_ns = 60_000_000_000 }

stop-next_example :
    let e' = (next world second_playing).0 in
    (queue_next_locked world (stop later e').0).1 ≡ ok e'.current_track
stop-next_example =
    stop-next world song 3 later second_playing second_playing-Walks refl refl third_started

abbrev after_that : World ℕ
after_that = record world { now_ns = 65_000_000_000 }

pause-resume_example :
    let held = (pause world second_playing).0 in
    (current_position_locked later held ≡ current_position_locked world second_playing)
    × (current_position_locked after_that (resume later held).0
        ≡ within 180
            (current_position_locked world second_playing + whole.seconds_of_ns 5_000_000_000))
pause-resume_example = pause-resume world later later after_that second_playing refl refl

second_playing-Playable : Playable world song 3 second_playing
second_playing-Playable = record {
  walks = second_playing-Walks;
  free = refl;
  no_repeat = refl;
  device = refl;
  files = λ p h. (refl, (_, refl));
}

auto_run_plays_example :
    view (auto_run world 1 second_playing) ≡ now_playing (song (second_playing.queue.cursor + 0)).id
auto_run_plays_example =
    auto_run_plays world song 3 0 second_playing second_playing-Playable (omega arith)

auto_run_halts_example : (view (auto_run world 2 second_playing)).playback ≡ stopped
auto_run_halts_example =
    auto_run_halts world song 3 1 second_playing second_playing-Playable (omega arith)

-- Shuffle is on, with an order drawn.
abbrev shuffling : Engine ℕ
shuffling =
    engine_at (record in_order { shuffle = true; repeat = off; perm = 1 ∷ 0 ∷ []; cursor = 1 })

still_open : has_db world (switch_queue world 2 shuffling).0 ≡ true
unfolding has_db switch_queue save_state push_event Mpsc.push
still_open = refl

switch-auto_next_example :
    let after = (switch_queue world 2 shuffling).0 in
    view_of (auto_next world after)
    ≡ record (view after) { playback = stopped; current = false; recorded = 0 }
switch-auto_next_example =
    switch-auto_next world world 2 shuffling (unfold has_db in refl) refl refl
      (λ e. absurd (omega arith)) (λ e. absurd (omega arith)) refl refl still_open refl
