-- ===== src/Engine/Settings.antt =====
-- src/engine/engine.cpp: volume, repeat, shuffle and the active queue; events for the caller; the
-- engine's construction and shutdown. src/engine/history.cpp: shouldMarkPlayed.
use caudio.Prelude.{
  ℕ, zero, suc, ◌+◌, ◌-◌, ◌%◌, Bool, true, false, not, ◌&&◌, ◌||◌, List, [], ◌∷◌, ◌++◌, none, some,
  ◌==◌, leb, if◌then◌else◌, word, Expected, ok, unexpected, make_error, bad_state, invalid_arg,
  not_found,
}
use caudio.Mpsc
use caudio.Engine.{Floats, World, Engine, EngineEvent, Callbacks, queue_changed, RepeatMode, other}
use caudio.Engine.Persist.{and_then, now_ms, has_db, save_state, persist_shuffle_blob_locked}
use caudio.Engine.Traverse.{is_empty, positions, with_queue, set_shuffle_locked}
use caudio.Engine.Play.{push_event, release_media}
use caudio.Engine.Transport.{Reply, locked}

module _ {F : Type 0} ⦃fl : Floats F⦄ where
  -- `utils::clampVolume` (include/caudio/utils/math.hpp).
  unfoldable pub clamp_volume : F → F
  clamp_volume v =
      if not (fl.is_finite v)
      then fl.of_int 0
      else if fl.lt v (fl.of_int 0)
      then fl.of_int 0
      else if fl.lt (fl.of_int 1) v
      then fl.of_int 1
      else v

  -- `setPreMuteVolume` keeps a level in (0, 1] and takes 0.5 for any other.
  unfoldable pub pre_mute_level : F → F
  pre_mute_level g = if not (fl.lt (fl.of_int 0) g) || fl.lt (fl.of_int 1) g then fl.half else g

  -- The event that a change of queue or shuffle pushes.
  abbrev pub event_of_queue : ℕ → EngineEvent F
  event_of_queue qid = record {
    type = queue_changed;
    track_id = 0;
    queue_id = qid;
    position = fl.of_int 0;
    duration = fl.of_int 0;
    msg = "";
  }

  unfoldable pub set_pre_mute_volume : F → Engine F → Reply F
  unfolding pre_mute_level
  set_pre_mute_volume g e = (
    record e {
      state = record e.state { pre_mute_volume = pre_mute_level g };
      pre_mute = pre_mute_level g;
    },
    ok tt,
  )

  unfoldable pub set_callbacks : Callbacks → Engine F → Reply F
  set_callbacks cbs e =
      (record e { callbacks = cbs; cfg = record e.cfg { callbacks = cbs } }, ok tt)

  unfoldable pub poll_event : Engine F → Engine F × Expected (EngineEvent F)
  poll_event e =
      let (q, r) = Mpsc.pop e.events in
      (
        record e { events = q },
        elim r [ ok ev ↦ ok ev | unexpected x ↦ unexpected (make_error not_found "no event") ],
      )

  -- Pop until the queue is empty or `fuel` events have been taken.
  unfoldable pub drain : ℕ → Engine F → Engine F × List (EngineEvent F)
  drain zero e = (e, [])
  drain (suc fuel) e =
      let (q, r) = Mpsc.pop e.events in
      let rest = drain fuel (record e { events = q }) in
      elim r [ ok ev ↦ (rest.0, ev ∷ rest.1) | unexpected x ↦ (record e { events = q }, []) ]

  -- `drainEvents(buf, cap, n)`: the pointers are given or null; the events go to `buf`, their
  -- number to `n`.
  unfoldable pub drain_events :
      Bool → Bool → ℕ → Engine F → Engine F × Expected (List (EngineEvent F))
  unfolding drain
  drain_events has_buf has_n cap e =
      if not has_n
      then (e, unexpected (make_error invalid_arg "null n"))
      else if not has_buf && not (cap == 0)
      then (e, unexpected (make_error invalid_arg "null buf"))
      else (let (e', evs) = drain cap e in (e', ok evs))

  -- `drainAll`; as many rounds as the queue has events end it.
  unfoldable pub drain_all : Engine F → Engine F × List (EngineEvent F)
  unfolding drain
  drain_all e = drain (Mpsc.size e.events + 1) e

module _ {F : Type 0} ⦃fl : Floats F⦄ (w : World F) where
  unfoldable pub set_volume : F → Engine F → Reply F
  unfolding clamp_volume
  set_volume v e =
      let g = clamp_volume v in
      let e1 = record e {
        state = record e.state { volume = g };
        volume = g;
        output = elim e.output [ none ↦ none | some o ↦ some (record o { gain = g }) ];
      } in
      let due = leb 1000 ((now_ms w + word - e.last_vol_save_ms) % word) in
      if has_db w e1 && due
      then (
        (save_state w (record e1 {
          last_vol_save_ms = now_ms w;
          state = record e1.state { cursor_pos = e.queue.cursor };
        })).0,
        ok tt,
      )
      else (e1, ok tt)

  unfoldable pub set_shuffle : Bool → Engine F → Reply F
  set_shuffle on e =
      if not (has_db w e)
      then (e, unexpected (make_error bad_state "no db"))
      else locked w "busy" e (λ e.
        and_then (set_shuffle_locked w on e)
          (λ u e'. (push_event (event_of_queue e'.queue.queue_id) e', ok tt)))

  abbrev pub is_repeat_mode : RepeatMode → Bool
  is_repeat_mode (other n) = false
  is_repeat_mode _ = true

  unfoldable pub set_repeat : RepeatMode → Engine F → Reply F
  set_repeat m e =
      if not (is_repeat_mode m)
      then (e, unexpected (make_error invalid_arg "bad repeat"))
      else locked w "busy" e (λ e. save_state w (record e {
        queue = record e.queue { repeat = m };
        state = record e.state { repeat_mode = m; cursor_pos = e.queue.cursor };
      }))

  unfoldable pub active_queue_id : Engine F → ℕ
  active_queue_id e =
      if e.queue.queue_id == 0
      then (if e.state.active_queue_id == 0 then 1 else e.state.active_queue_id)
      else e.queue.queue_id

  -- The new active queue: cursor 0, no shuffle order, the shuffle flag as it was.
  unfoldable pub switched : ℕ → Engine F → Engine F
  switched qid e = record e {
    queue = record e.queue { queue_id = qid; cursor = 0; perm = [] };
    state = record e.state { active_queue_id = qid; cursor_pos = 0 };
  }

  unfoldable pub switch_existing : ℕ → Expected Bool → Engine F → Reply F
  unfolding switched
  switch_existing qid (unexpected x) e = (e, unexpected x)
  switch_existing qid (ok false) e = (e, unexpected (make_error not_found "queue not found"))
  switch_existing qid (ok true) e =
      if e.queue.queue_id == qid
      then (e, ok tt)
      else and_then (save_state w (switched qid e))
          (λ u e'. (push_event (event_of_queue qid) e', ok tt))

  unfoldable pub switch_queue : ℕ → Engine F → Reply F
  unfolding switch_existing
  switch_queue qid0 e =
      let qid = if qid0 == 0 then 1 else qid0 in
      if not (has_db w e)
      then (e, unexpected (make_error bad_state "no db"))
      else locked w "busy" e (λ e. switch_existing qid (w.db.queue_exists qid) e)

  unfoldable pub shuffle_perm_for : ℕ → Engine F → List ℕ
  shuffle_perm_for qid e =
      if w.queue_free && (e.queue.queue_id == qid && e.queue.shuffle) then e.queue.perm else []

  -- Positions appended to the shuffle order for `count` tracks at the end of the queue.
  unfoldable pub note_enqueued : ℕ → ℕ → Engine F → Engine F
  note_enqueued qid count e =
      if count == 0 || not (has_db w e) || not w.queue_free
      then e
      else if e.queue.queue_id == qid && e.queue.shuffle && not (is_empty e.queue.perm)
      then (let n = w.db.queue_count qid in
          let start = if leb count n then n - count else 0 in
          (persist_shuffle_blob_locked w (
            with_queue e
              (record e.queue { perm = e.queue.perm ++ positions start (n - start) }))).0)
      else e

  -- `shutdown`: both threads stopped, the state saved, the media released.
  unfoldable pub shutdown : Engine F → Engine F
  shutdown e =
      let e1 = record e { mon_run = false; decode_run = false } in
      let e2 =
        if has_db w e1
        then (save_state w
            (record e1 { state = record e1.state { cursor_pos = e1.queue.cursor } })).0
        else e1 in
      release_media w e2
