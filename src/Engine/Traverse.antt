-- ===== src/Engine/Traverse.antt =====
-- src/engine/engine.cpp: the order of the queue (setShuffleLocked, queueNextLocked,
-- queuePrevLocked). The caller holds `queueMutex_` and has checked that a database is open.
pub mod Cycle
pub mod Linear
pub mod Shuffled
pub mod Pass
use caudio.Prelude.{
  ℕ, zero, suc, ◌+◌, ◌-◌, Bool, true, false, not, ◌&&◌, ◌||◌, List, [], ◌∷◌, ◌==◌, ltb, leb,
  if◌then◌else◌, add_size, length, get_or, Expected, ok, unexpected, make_error, not_found,
  internal,
}
use caudio.Engine.{Floats, Track, QueueState, World, Engine, RepeatMode, one}
use caudio.Engine.Persist.{
  and_then, persist_shuffle_blob_locked, persist_cursor_locked, fetch_track_by_pos_locked,
}

abbrev pub is_one : RepeatMode → Bool
is_one one = true
is_one _ = false

abbrev pub is_empty : List ℕ → Bool
is_empty [] = true
is_empty (x ∷ xs) = false

-- `start`, `start + 1`, … : `n` positions.
abbrev pub positions : ℕ → ℕ → List ℕ
positions start zero = []
positions start (suc n) = start ∷ positions (start + 1) n

-- `std::expected<Track>` of a fetch becomes the result, the state staying as it is.
abbrev pub with_queue : {F : Type 0} → Engine F → QueueState → Engine F
with_queue e q = record e { queue = q }

abbrev pub with_cursor : {F : Type 0} → Engine F → ℕ → Engine F
with_cursor e c = record e { queue = record e.queue { cursor = c } }

-- The index that repeat-one plays again from a cursor past the end of `n` entries.
abbrev pub last_played_index : ℕ → ℕ → ℕ
last_played_index cursor n = if ltb 0 cursor && leb cursor n then cursor - 1 else n - 1

module _ {F : Type 0} ⦃fl : Floats F⦄ (w : World F) where
  unfoldable pub persist_shuffle_as : ℕ → Engine F → Engine F × Expected (Unit {0})
  persist_shuffle_as enabled e =
      and_then (persist_shuffle_blob_locked w e)
        (λ u e'. (record e' { state = record e'.state { shuffle_enabled = enabled } }, ok tt))

  unfoldable pub set_shuffle_locked : Bool → Engine F → Engine F × Expected (Unit {0})
  unfolding persist_shuffle_as
  set_shuffle_locked true e =
      if e.queue.shuffle && not (is_empty e.queue.perm)
      then (e, ok tt)
      else (let cnt = w.db.queue_count e.queue.queue_id in
          let perm = if cnt == 0 then [] else w.shuffled (positions 0 cnt) in
          persist_shuffle_as 1
            (with_queue e (record e.queue { perm = perm; cursor = 0; shuffle = true })))
  set_shuffle_locked false e =
      if not e.queue.shuffle && not (is_empty e.queue.perm)
      then (e, ok tt)
      else persist_shuffle_as 0
          (with_queue e (record e.queue { perm = []; cursor = 0; shuffle = false }))

  -- Move the cursor to `c` and write it; a failed write is ignored.
  unfoldable pub move_cursor : ℕ → Engine F → Engine F
  move_cursor c e = (persist_cursor_locked w (with_cursor e c)).0

  -- Advance first, then fetch: the shuffled order.
  unfoldable pub take_shuffled : Engine F → Engine F × Expected (Track F)
  unfolding move_cursor
  take_shuffled e =
      let pos = get_or e.queue.perm e.queue.cursor 0 in
      let e' = move_cursor (add_size e.queue.cursor 1) e in
      (e', fetch_track_by_pos_locked w e'.queue.queue_id pos e')

  -- Fetch first, and advance only when that succeeds: the queue's own order.
  unfoldable pub take_linear : Engine F → Engine F × Expected (Track F)
  unfolding move_cursor
  take_linear e = elim (fetch_track_by_pos_locked w e.queue.queue_id e.queue.cursor e) [
    | ok t ↦ (move_cursor (add_size e.queue.cursor 1) e, ok t)
    | unexpected x ↦ (e, unexpected x)
  ]

  unfoldable pub next_shuffled : Engine F → Engine F × Expected (Track F)
  unfolding set_shuffle_locked take_shuffled
  next_shuffled e =
      if leb (length e.queue.perm) e.queue.cursor
      then (if is_one e.queue.repeat
          then (
            e,
            fetch_track_by_pos_locked w e.queue.queue_id
                (get_or e.queue.perm (last_played_index e.queue.cursor (length e.queue.perm)) 0) e,
          )
          else and_then (set_shuffle_locked true e) (λ u e'. take_shuffled (move_cursor 0 e')))
      else take_shuffled e

  -- Draw the order first where there is none.
  unfoldable pub ensure_perm : Engine F → Engine F × Expected (Unit {0})
  unfolding set_shuffle_locked
  ensure_perm e =
      if is_empty e.queue.perm
      then (if w.db.queue_count e.queue.queue_id == 0
          then (e, unexpected (make_error not_found "empty queue"))
          else and_then (set_shuffle_locked true e) (λ u e'.
            if is_empty e'.queue.perm
            then (e', unexpected (make_error internal "no perm"))
            else (e', ok tt)))
      else (e, ok tt)

  unfoldable pub next_linear : Engine F → Engine F × Expected (Track F)
  unfolding take_linear
  next_linear e =
      let cnt = w.db.queue_count e.queue.queue_id in
      if cnt == 0
      then (e, unexpected (make_error not_found "empty queue"))
      else if leb cnt e.queue.cursor
      then (if is_one e.queue.repeat
          then (
            e,
            fetch_track_by_pos_locked w e.queue.queue_id (last_played_index e.queue.cursor cnt) e,
          )
          else take_linear (move_cursor 0 e))
      else take_linear e

  -- Queue id 0 stands for the default queue, 1.
  unfoldable pub name_queue : Engine F → Engine F
  name_queue e = if e.queue.queue_id == 0 then with_queue e (record e.queue { queue_id = 1 }) else e

  unfoldable pub next_named : Engine F → Engine F × Expected (Track F)
  unfolding next_shuffled ensure_perm next_linear
  next_named e =
      if e.queue.shuffle then and_then (ensure_perm e) (λ u e'. next_shuffled e') else next_linear e

  unfoldable pub queue_next_locked : Engine F → Engine F × Expected (Track F)
  unfolding name_queue next_named
  queue_next_locked e = next_named (name_queue e)

  -- The cursor that `prev` plays from: two back, at most the last of `n` entries.
  unfoldable pub prev_index : ℕ → ℕ → ℕ
  prev_index cursor n = if leb cursor 1 then 0 else if leb n (cursor - 2) then n - 1 else cursor - 2

  unfoldable pub queue_prev_locked : Engine F → Engine F × Expected (Track F)
  unfolding prev_index take_linear take_shuffled
  queue_prev_locked e =
      if not e.queue.shuffle
      then (let cnt = w.db.queue_count e.queue.queue_id in
          if cnt == 0
          then (e, unexpected (make_error not_found "empty queue"))
          else if e.queue.cursor == 0
          then (e, unexpected (make_error not_found "at start"))
          else take_linear (with_cursor e (prev_index e.queue.cursor cnt)))
      else if is_empty e.queue.perm
      then (e, unexpected (make_error not_found "no perm"))
      else if e.queue.cursor == 0
      then (e, unexpected (make_error not_found "at start"))
      else take_shuffled (with_cursor e (prev_index e.queue.cursor (length e.queue.perm)))
