-- ===== src/Engine/Persist.antt =====
-- src/engine/engine.cpp: the database calls and the position (hasDb, currentPositionLocked,
-- loadState, saveState, persistShuffleBlobLocked, persistCursorLocked, fetchTrackByPosLocked).
use caudio.Prelude.{
  ℕ, ◌-◌, ◌/◌, Bool, true, false, not, ◌&&◌, List, ◌∷◌, ◌==◌, leb, is_neg, if◌then◌else◌, length,
  Expected, ok, unexpected, has_value, make_error, invalid_arg,
}
use caudio.Engine.{
  Floats, Track, StoredState, saves_state, saves_shuffle, saves_cursor, World, Engine, playing,
}

-- `detail::nowMs()`.
abbrev pub now_ms : {F : Type 0} → World F → ℕ
now_ms w = w.now_ns / 1_000_000

-- Go on with the value of a step that succeeded, in the state that it left.
abbrev pub and_then :
    {F A B : Type 0}
    → Engine F × Expected A
    → (A → Engine F → Engine F × Expected B)
    → Engine F × Expected B
and_then (e, ok a) f = f a e
and_then (e, unexpected x) f = (e, unexpected x)

-- `r && *r`
abbrev pub holds_true : Expected Bool → Bool
holds_true (ok b) = b
holds_true (unexpected x) = false

module _ {F : Type 0} ⦃fl : Floats F⦄ (w : World F) where
  unfoldable pub has_db : Engine F → Bool
  has_db e = e.attached && w.db.is_open

  -- `ms / 1000.0`
  abbrev pub secs_of_ms : ℕ → F
  secs_of_ms ms = fl.div (fl.of_int ms) (fl.of_int 1000)

  unfoldable pub running_position : Engine F → F
  running_position e =
      let pos = fl.add e.pause_pos (fl.seconds_of_ns (w.now_ns - e.play_start_ns)) in
      let capped = if fl.lt e.duration pos then e.duration else pos in
      if fl.lt capped (fl.of_int 0) then fl.of_int 0 else capped

  unfoldable pub current_position_locked : Engine F → F
  unfolding running_position
  current_position_locked e =
      if not e.has_current
      then secs_of_ms e.state.position_ms
      else elim e.playback_state [ playing ↦ running_position e | _ ↦ e.pause_pos ]

  -- The position that `saveState` persists, in milliseconds.
  unfoldable pub saved_position_ms : Engine F → ℕ
  unfolding current_position_locked
  saved_position_ms e =
      let ms =
        if e.has_current
        then fl.to_int (fl.mul (current_position_locked e) (fl.of_int 1000))
        else e.state.position_ms in
      if is_neg ms then 0 else ms

  unfoldable pub persisted_state : Engine F → StoredState F
  unfolding saved_position_ms
  persisted_state e = record {
    core = record e.state {
      active_queue_id =
          if e.state.active_queue_id == 0 then e.queue.queue_id else e.state.active_queue_id;
      position_ms = saved_position_ms e;
    };
    shuffle_perm = e.queue.perm;
  }

  unfoldable pub save_state : Engine F → Engine F × Expected (Unit {0})
  unfolding has_db persisted_state
  save_state e =
      if has_db e
      then (let s = persisted_state e in
          let reply = w.db.save_engine_state s in
          (
            record e {
              writes = saves_state s ∷ e.writes;
              state =
                  if has_value reply
                  then record e.state { position_ms = s.core.position_ms }
                  else e.state;
            },
            reply,
          ))
      else (e, unexpected (make_error invalid_arg "no db"))

  -- The cursor of a loaded row: a negative one, or one past the end of the shuffle order, is 0.
  unfoldable pub loaded_cursor : List ℕ → ℕ → ℕ
  loaded_cursor perm pos =
      let cursor = if is_neg pos then 0 else pos in
      if not (length perm == 0) && leb (length perm) cursor then 0 else cursor

  unfoldable pub restored : Engine F → StoredState F → Engine F
  unfolding loaded_cursor
  restored e s =
      let queue_id =
        if holds_true (w.db.queue_exists s.core.active_queue_id)
        then s.core.active_queue_id
        else 1 in
      record e {
        state = record s.core { active_queue_id = queue_id };
        volume = s.core.volume;
        pre_mute = s.core.pre_mute_volume;
        queue = record {
          perm = s.shuffle_perm;
          shuffle = not (s.core.shuffle_enabled == 0);
          repeat = s.core.repeat_mode;
          cursor = loaded_cursor s.shuffle_perm s.core.cursor_pos;
          queue_id = queue_id;
        };
      }

  unfoldable pub load_state : Engine F → Engine F × Expected (Unit {0})
  unfolding has_db restored
  load_state e =
      if has_db e
      then elim w.db.load_engine_state [
        | ok s ↦ (restored e s, ok tt)
        | unexpected x ↦ (e, unexpected x)
      ]
      else (e, unexpected (make_error invalid_arg "no db"))

  -- `attachDatabase`; `given` says that the pointer is not null.
  unfoldable pub attach_database : Bool → Engine F → Engine F × Expected (Unit {0})
  unfolding load_state
  attach_database given e =
      if given && w.db.is_open
      then load_state (record e { attached = true })
      else (e, unexpected (make_error invalid_arg "null db"))

  unfoldable pub persist_shuffle_blob_locked : Engine F → Engine F × Expected (Unit {0})
  unfolding has_db
  persist_shuffle_blob_locked e =
      if has_db e
      then (let reply = w.db.save_engine_shuffle e.queue.shuffle e.queue.perm e.queue.cursor in
          (
            record e {
              writes = saves_shuffle e.queue.shuffle e.queue.perm e.queue.cursor ∷ e.writes;
              state =
                  if has_value reply
                  then record e.state {
                    shuffle_enabled = if e.queue.shuffle then 1 else 0;
                    cursor_pos = e.queue.cursor;
                  }
                  else e.state;
            },
            reply,
          ))
      else (e, unexpected (make_error invalid_arg "no db"))

  unfoldable pub persist_cursor_locked : Engine F → Engine F × Expected (Unit {0})
  unfolding has_db
  persist_cursor_locked e =
      if has_db e
      then (let reply = w.db.save_engine_cursor e.queue.cursor in
          (
            record e {
              writes = saves_cursor e.queue.cursor ∷ e.writes;
              state =
                  if has_value reply
                  then record e.state { cursor_pos = e.queue.cursor }
                  else e.state;
            },
            reply,
          ))
      else (e, unexpected (make_error invalid_arg "no db"))

  unfoldable pub fetch_track_by_pos_locked : ℕ → ℕ → Engine F → Expected (Track F)
  unfolding has_db
  fetch_track_by_pos_locked qid pos e =
      if has_db e then w.db.queue_track_at qid pos else unexpected (make_error invalid_arg "no db")
