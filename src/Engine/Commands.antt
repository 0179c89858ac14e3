-- ===== src/Engine/Commands.antt =====
-- src/engine/engine.cpp: the commands that choose a track or a queue (play, playTrack, next, prev,
-- autoNext, switchQueue) and those on the queue's settings.
use caudio.Prelude.{
  ℕ, suc, Bool, true, false, not, ◌&&◌, ◌||◌, List, [], ◌∷◌, Option, none, some, ◌==◌, leb, is_neg,
  if◌then◌else◌, length, Expected, ok, unexpected, has_value, make_error, bad_state, invalid_arg,
  not_found,
}
use caudio.Engine.{Floats, Track, World, Engine, RepeatMode, off, stopped, playing}
use caudio.Engine.Persist.{and_then, secs_of_ms, has_db, save_state}
use caudio.Engine.Traverse.{
  is_one, is_empty, with_queue, with_cursor, set_shuffle_locked, queue_next_locked,
  queue_prev_locked,
}
use caudio.Engine.Play.{reset_playback_accounting, do_play_track, push_event, event_of_track}
use caudio.Engine.Transport.{
  Reply, is_playing, is_paused, set_running, ring_reset, decoder_seek, locked, resume_paused,
}

-- Where `x` stands in the shuffle order, for the first time.
unfoldable pub index_of : ℕ → List ℕ → Option ℕ
index_of x [] = none
index_of x (y ∷ ys) =
    if y == x then some 0 else elim (index_of x ys) [ none ↦ none | some i ↦ some (suc i) ]

abbrev pub is_off : RepeatMode → Bool
is_off off = true
is_off _ = false

module _ {F : Type 0} ⦃fl : Floats F⦄ (w : World F) where
  -- `doPlayTrack(t)` after a traversal that delivered `t`.
  abbrev pub play_found : F → Engine F × Expected (Track F) → Reply F
  play_found start (e, ok t) = do_play_track w t start e
  play_found start (e, unexpected x) = (e, unexpected x)

  -- `play` while playing: from the head of the current track again.
  unfoldable pub restarted : Engine F → Expected (Unit {0}) → Reply F
  restarted e (ok u) = (
    set_running true (
        reset_playback_accounting w
          (record (ring_reset e) { pause_pos = fl.of_int 0; play_start_ns = w.now_ns })),
    ok tt,
  )
  restarted e (unexpected x) = (e, unexpected x)

  unfoldable pub restart : Engine F → Reply F
  unfolding restarted
  restart e = restarted e (decoder_seek w (fl.of_int 0) e)

  -- The offset at which a found track starts: the persisted one if it is the persisted track.
  unfoldable pub start_offset : Track F → Engine F → F
  start_offset t e =
      if t.id == e.state.current_track_id
        && not (e.state.position_ms == 0)
        && not (is_neg e.state.position_ms)
      then secs_of_ms w e.state.position_ms
      else fl.of_int 0

  unfoldable pub play_from_cursor : Engine F × Expected (Track F) → Reply F
  play_from_cursor (e, ok t) = do_play_track w t (start_offset t e) e
  play_from_cursor (e, unexpected x) = (e, unexpected x)

  -- The traversal and the start of the persisted track that `autoResumeOnPlay` asks for.
  unfoldable pub try_auto_resume : ℕ → Engine F → Reply F
  try_auto_resume idx e =
      let (e1, r) = queue_next_locked w (with_cursor e idx) in
      play_found (secs_of_ms w e1.state.position_ms) (e1, r)

  unfoldable pub play_stopped : Engine F → Reply F
  unfolding try_auto_resume play_from_cursor start_offset
  play_stopped e =
      let from_cursor = λ (e : Engine F). play_from_cursor (queue_next_locked w e) in
      if e.cfg.auto_resume_on_play
        && not (e.state.current_track_id == 0)
        && not (e.state.position_ms == 0)
        && not (is_neg e.state.position_ms)
      then elim (w.db.queue_index_of e.queue.queue_id e.state.current_track_id) [
        | none ↦ from_cursor e
        | some idx ↦
            (let (e1, r) = try_auto_resume idx e in if has_value r then (e1, r) else from_cursor e1)
      ]
      else from_cursor e

  unfoldable pub play : ℕ → Engine F → Reply F
  unfolding restart play_stopped
  play queue_id e =
      if not (has_db w e)
      then (e, unexpected (make_error bad_state "no db"))
      else if is_paused e.playback_state
      then (resume_paused w e, ok tt)
      else if is_playing e.playback_state
      then restart e
      else locked w "queue busy" e (λ e.
        play_stopped
          (with_queue e (record e.queue { queue_id = if queue_id == 0 then 1 else queue_id })))

  abbrev pub found_in_order : Option ℕ → Engine F → Engine F × Expected ℕ
  found_in_order (some i) e = (e, ok i)
  found_in_order none e = (e, unexpected (make_error not_found "track not in shuffle order"))

  -- Where the cursor goes for queue position `idx`, and the state once an order is drawn.
  unfoldable pub locate : ℕ → Engine F → Engine F × Expected ℕ
  locate idx e =
      if e.queue.shuffle
      then and_then (if is_empty e.queue.perm then set_shuffle_locked w true e else (e, ok tt))
          (λ u e'. found_in_order (index_of idx e'.queue.perm) e')
      else (e, ok idx)

  abbrev pub play_index : Option ℕ → Engine F → Reply F
  play_index none e = (e, unexpected (make_error not_found "track not in active queue"))
  play_index (some idx) e =
      and_then (locate idx e)
        (λ cursor e'. play_found (fl.of_int 0) (queue_next_locked w (with_cursor e' cursor)))

  unfoldable pub play_track : ℕ → Engine F → Reply F
  unfolding locate
  play_track track_id e =
      if not (has_db w e)
      then (e, unexpected (make_error bad_state "no db"))
      else if track_id == 0 || is_neg track_id
      then (e, unexpected (make_error invalid_arg "bad track id"))
      else locked w "queue busy" e
          (λ e. play_index (w.db.queue_index_of e.queue.queue_id track_id) e)

  -- Repeat-one with shuffle off: the current track from its head, without the queue lock.
  unfoldable pub rewound : Engine F → Engine F
  rewound e =
      let e1 = reset_playback_accounting w (record (ring_reset e) {
        pause_pos = fl.of_int 0;
        play_start_ns = w.now_ns;
        playback_state = playing;
      }) in
      record e1 { marked_played = false; gapless_armed = false; started_ms = w.wall_ms }

  unfoldable pub repeated : Engine F → Expected (Unit {0}) → Reply F
  unfolding rewound
  repeated e (ok u) =
      let e' = rewound e in (push_event (event_of_track w e'.current_track e') e', ok tt)
  repeated e (unexpected x) = (e, unexpected x)

  unfoldable pub repeat_current : Engine F → Reply F
  unfolding repeated
  repeat_current e = repeated e (decoder_seek w (fl.of_int 0) e)

  -- The cursor is past the last entry: of the shuffle order, or of the queue.
  unfoldable pub at_end : Engine F → Bool
  at_end e =
      if e.queue.shuffle
      then leb (length e.queue.perm) e.queue.cursor
      else leb (w.db.queue_count e.queue.queue_id) e.queue.cursor

  unfoldable pub halt_at_end : Engine F → Engine F
  halt_at_end e0 =
      let e1 = record e0 {
        state = record e0.state { position_ms = 0; current_track_id = 0 };
        has_current = false;
      } in
      let e2 = (save_state w e1).0 in
      record (ring_reset (set_running false (record e2 { playback_state = stopped }))) {
        pause_pos = fl.of_int 0;
      }

  -- Stop at the end where that is asked for, else the next track.
  unfoldable pub go_on : Bool → Engine F → Reply F
  unfolding at_end halt_at_end
  go_on stop_at_end e =
      if stop_at_end && is_off e.queue.repeat && at_end e
      then (halt_at_end e, ok tt)
      else play_found (fl.of_int 0) (queue_next_locked w e)

  unfoldable pub advance_locked : Bool → Engine F → Reply F
  unfolding repeat_current go_on
  advance_locked stop_at_end e =
      if not (has_db w e)
      then (e, unexpected (make_error bad_state "no db"))
      else if not e.queue.shuffle && is_one e.queue.repeat && e.has_current
      then repeat_current e
      else locked w "busy" e (λ e. go_on stop_at_end e)

  unfoldable pub next : Engine F → Reply F
  unfolding advance_locked
  next e = advance_locked false e

  unfoldable pub auto_next : Engine F → Reply F
  unfolding advance_locked
  auto_next e = advance_locked true e

  unfoldable pub prev : Engine F → Reply F
  prev e =
      if not (has_db w e)
      then (e, unexpected (make_error bad_state "no db"))
      else locked w "busy" e (λ e. play_found (fl.of_int 0) (queue_prev_locked w e))
