-- ===== src/Engine/Saved.antt =====
-- saveState and loadState of src/engine/engine.cpp, one after the other.
use caudio.Prelude.{
  ℕ, ◌<◌, ◌≡◌, ◌≢◌, ◌⊎◌, inl, inr, refl, Bool, true, false, not, List, arith, ◌==◌, is_neg,
  if◌then◌else◌, length, ok,
}
use caudio.Engine.{Floats, World, Engine}
use caudio.Engine.Persist.{
  holds_true, has_db, secs_of_ms, saved_position_ms, persisted_state, loaded_cursor, restored,
  load_state, current_position_locked,
}

module _ {F : Type 0} ⦃fl : Floats F⦄ where
  -- The persisted fields agree with the live ones, and the cursor stands before the end of the
  -- shuffle order, if there is one.
  pub record Mirrors (e : Engine F) : Type 0 where
    pub shuffled : e.state.shuffle_enabled ≡ (if e.queue.shuffle then 1 else 0)
    pub repeats : e.state.repeat_mode ≡ e.queue.repeat
    pub cursor : e.state.cursor_pos ≡ e.queue.cursor
    pub queue : e.state.active_queue_id ≡ e.queue.queue_id
    pub named : e.queue.queue_id ≢ 0
    pub gain : e.state.volume ≡ e.volume
    pub unmuted : e.state.pre_mute_volume ≡ e.pre_mute
    pub small : is_neg e.queue.cursor ≡ false
    pub inside : (length e.queue.perm ≡ 0) ⊎ (e.queue.cursor < length e.queue.perm)

module _ {F : Type 0} ⦃fl : Floats F⦄ (w w' : World F) where
  loaded_cursor_lem :
      (perm : List ℕ) (c : ℕ)
      → is_neg c ≡ false
      → (length perm ≡ 0) ⊎ (c < length perm)
      → loaded_cursor w' perm c ≡ c
  unfolding loaded_cursor
  loaded_cursor_lem perm c n (inl h) = ground arith
  loaded_cursor_lem perm c n (inr h) = ground arith

  queue-restored :
      (e fresh : Engine F)
      → Mirrors e
      → w'.db.queue_exists e.queue.queue_id ≡ ok true
      → (restored w' fresh (persisted_state w e)).queue ≡ e.queue
  unfolding restored persisted_state
  queue-restored e fresh h there = λ i. record {
    shuffle = shuffled i;
    repeat = h.repeats i;
    perm = e.queue.perm;
    cursor = placed i;
    queue_id = named i;
  }
    where
      flag : (b : Bool) → not ((if b then 1 else 0) == 0) ≡ b
      flag true = refl
      flag false = refl

      shuffled : not (e.state.shuffle_enabled == 0) ≡ e.queue.shuffle
      shuffled = rw h.shuffled (flag e.queue.shuffle)

      placed : loaded_cursor w' e.queue.perm e.state.cursor_pos ≡ e.queue.cursor
      placed = rw h.cursor (loaded_cursor_lem e.queue.perm e.queue.cursor h.small h.inside)

      saved_id : ℕ
      saved_id = if e.state.active_queue_id == 0 then e.queue.queue_id else e.state.active_queue_id

      saved_id_lem : saved_id ≡ e.queue.queue_id
      saved_id_lem = ground (arith, h.queue, h.named)

      named : (if holds_true (w'.db.queue_exists saved_id) then saved_id else 1) ≡ e.queue.queue_id
      named = rw (saved_id_lem, there)

  position-restored :
      (e fresh : Engine F)
      → fresh.has_current ≡ false
      → current_position_locked w' (restored w' fresh (persisted_state w e))
        ≡ secs_of_ms w' (saved_position_ms w e)
  unfolding current_position_locked restored persisted_state
  position-restored e fresh c = ground arith

  load_run :
      (e fresh : Engine F)
      → has_db w' fresh ≡ true
      → w'.db.load_engine_state ≡ ok (persisted_state w e)
      → (load_state w' fresh).0 ≡ restored w' fresh (persisted_state w e)
  unfolding load_state
  load_run e fresh d row = ground arith

  -- A fresh engine that loads the row which `saveState` writes has the saved queue (shuffle order,
  -- cursor, repeat mode), volumes and track id, and reports the saved position.
  pub load-save :
      (e fresh : Engine F)
      → Mirrors e
      → has_db w' fresh ≡ true
      → fresh.has_current ≡ false
      → w'.db.load_engine_state ≡ ok (persisted_state w e)
      → w'.db.queue_exists e.queue.queue_id ≡ ok true
      → let loaded = (load_state w' fresh).0 in
        (loaded.queue ≡ e.queue)
        × (loaded.volume ≡ e.volume)
        × (loaded.pre_mute ≡ e.pre_mute)
        × (loaded.state.current_track_id ≡ e.state.current_track_id)
        × (current_position_locked w' loaded ≡ secs_of_ms w' (saved_position_ms w e))
  load-save e fresh h d c row there = rw (load_run e fresh d row) (
    queue-restored e fresh h there,
    (unfold restored persisted_state in h.gain),
    (unfold restored persisted_state in h.unmuted),
    (unfold restored persisted_state in refl),
    position-restored e fresh c,
  )
