-- ===== src/Engine/View.antt =====
-- What a client sees of playback in src/engine/engine.cpp, and what the engine's internal steps
-- leave of it.
use caudio.Prelude.{
  ℕ, ◌≡◌, refl, ◌∙◌, Bool, true, false, arith, if◌then◌else◌, add_size, length, Expected, ok,
  unexpected,
}
use caudio.Engine.{Floats, QueueState, World, Engine, EngineEvent, PlaybackState, playing}
use caudio.Engine.Persist.{and_then, save_state, persist_shuffle_blob_locked, persist_cursor_locked}
use caudio.Engine.Traverse.{
  with_queue, move_cursor, with_cursor, set_shuffle_locked, take_shuffled, take_linear,
  next_shuffled, next_linear, next_named, name_queue, prev_index, ensure_perm, queue_next_locked,
  queue_prev_locked, persist_shuffle_as,
}
use caudio.Engine.Play.{after_push, push_event, account_playback_time}

-- The state, whether a track is current, its id, and the id in the persisted state.
pub record Now : Type 0 where
  pub playback : PlaybackState
  pub current : Bool
  pub track : ℕ
  pub recorded : ℕ

unfoldable pub view : {F : Type 0} → Engine F → Now
view e = record {
  playback = e.playback_state;
  current = e.has_current;
  track = e.current_track.id;
  recorded = e.state.current_track_id;
}

abbrev pub now_playing : ℕ → Now
now_playing t = record { playback = playing; current = true; track = t; recorded = t }

-- The view that a step leaves.
unfoldable pub view_of : {F A : Type 0} → Engine F × Expected A → Now
view_of r = view r.0

module _ {F A : Type 0} where
  pub stays : (e : Engine F) (r : Expected A) → view_of (e, r) ≡ view e
  unfolding view_of
  stays e r = refl

  -- Both branches of a test, or the value and the error of a step, lead to the same view.
  pub view-if :
      (b : Bool) (x y : Engine F × Expected A) (n : Now)
      → view_of x ≡ n
      → view_of y ≡ n
      → view_of (if b then x else y) ≡ n
  view-if true x y n p q = p
  view-if false x y n p q = q

  pub view-and_then :
      {B : Type 0} (r : Engine F × Expected B) (f : B → Engine F → Engine F × Expected A) (n : Now)
      → view_of r ≡ n
      → ((b : B) (e : Engine F) → view e ≡ n → view_of (f b e) ≡ n)
      → view_of (and_then r f) ≡ n
  unfolding view_of
  view-and_then (e, ok b) f n p q = q b e p
  view-and_then (e, unexpected x) f n p q = p

module _ {F : Type 0} ⦃fl : Floats F⦄ (w : World F) where
  pub view-save_state : (e : Engine F) → view (save_state w e).0 ≡ view e
  unfolding view save_state
  view-save_state e = ground arith

  pub view-move_cursor : (c : ℕ) (e : Engine F) → view (move_cursor w c e) ≡ view e
  unfolding view move_cursor persist_cursor_locked
  view-move_cursor c e = ground arith

  view-with_cursor : (c : ℕ) (e : Engine F) → view (with_cursor e c) ≡ view e
  unfolding view
  view-with_cursor c e = refl

  pub view-account : (e : Engine F) → view (account_playback_time w e) ≡ view e
  unfolding view account_playback_time
  view-account e = ground arith

  view-persist_shuffle_as :
      (n : ℕ) (q : QueueState) (e : Engine F)
      → view_of (persist_shuffle_as w n (with_queue e q)) ≡ view e
  unfolding view view_of persist_shuffle_as persist_shuffle_blob_locked
  view-persist_shuffle_as n q e = ground arith

  pub view-set_shuffle : (on : Bool) (e : Engine F) → view_of (set_shuffle_locked w on e) ≡ view e
  unfolding set_shuffle_locked
  view-set_shuffle true e = view-if _ _ _ _ (stays e _) (view-persist_shuffle_as 1 _ e)
  view-set_shuffle false e = view-if _ _ _ _ (stays e _) (view-persist_shuffle_as 0 _ e)

  view-take_shuffled : (e : Engine F) → view_of (take_shuffled w e) ≡ view e
  unfolding take_shuffled
  view-take_shuffled e = stays _ _ ∙ view-move_cursor _ e

  view-take_linear : (e : Engine F) → view_of (take_linear w e) ≡ view e
  unfolding view_of take_linear
  view-take_linear e = ground (arith, view-move_cursor (add_size e.queue.cursor 1) e)

  view-next_shuffled : (e : Engine F) → view_of (next_shuffled w e) ≡ view e
  unfolding next_shuffled
  view-next_shuffled e =
      view-if _ _ _ _
        (view-if _ _ _ _ (stays e _) (
          view-and_then (set_shuffle_locked w true e) _ _ (view-set_shuffle true e)
            (λ u e' p. view-take_shuffled (move_cursor w 0 e') ∙ view-move_cursor 0 e' ∙ p)))
        (view-take_shuffled e)

  view-ensure_perm : (e : Engine F) → view_of (ensure_perm w e) ≡ view e
  unfolding ensure_perm
  view-ensure_perm e =
      view-if _ _ _ _
        (view-if _ _ _ _ (stays e _) (
          view-and_then (set_shuffle_locked w true e) _ _ (view-set_shuffle true e)
            (λ u e' p. view-if _ _ _ _ (stays e' _ ∙ p) (stays e' _ ∙ p))))
        (stays e _)

  view-next_linear : (e : Engine F) → view_of (next_linear w e) ≡ view e
  unfolding view_of next_linear
  view-next_linear e =
      ground (arith, view-take_linear e, view-take_linear (move_cursor w 0 e), view-move_cursor 0 e)

  view-next_named : (e : Engine F) → view_of (next_named w e) ≡ view e
  unfolding next_named
  view-next_named e =
      view-if _ _ _ _
        (view-and_then (ensure_perm w e) _ _ (view-ensure_perm e)
          (λ u e' p. view-next_shuffled e' ∙ p))
        (view-next_linear e)

  view-name_queue : (e : Engine F) → view (name_queue w e) ≡ view e
  unfolding view name_queue
  view-name_queue e = ground arith

  pub view-queue_next : (e : Engine F) → view_of (queue_next_locked w e) ≡ view e
  unfolding queue_next_locked
  view-queue_next e = view-next_named (name_queue w e) ∙ view-name_queue e

  view-back :
      (n : ℕ) (e : Engine F)
      → (view_of (take_linear w (with_cursor e n)) ≡ view e)
        × (view_of (take_shuffled w (with_cursor e n)) ≡ view e)
  view-back n e = (
    view-take_linear (with_cursor e n) ∙ view-with_cursor n e,
    view-take_shuffled (with_cursor e n) ∙ view-with_cursor n e,
  )

  pub view-queue_prev : (e : Engine F) → view_of (queue_prev_locked w e) ≡ view e
  unfolding view_of queue_prev_locked
  view-queue_prev e = ground (
    arith,
    view-back (prev_index w e.queue.cursor (w.db.queue_count e.queue.queue_id)) e,
    view-back (prev_index w e.queue.cursor (length e.queue.perm)) e,
  )

  view-after_push :
      (ev : EngineEvent F) (e : Engine F) (r : Expected (Unit {0}))
      → view (after_push ev e r) ≡ view e
  unfolding view
  view-after_push ev e (ok u) = refl
  view-after_push ev e (unexpected x) = refl

  pub view-push_event : (ev : EngineEvent F) (e : Engine F) → view (push_event ev e) ≡ view e
  unfolding view push_event
  view-push_event ev e = view-after_push ev _ _
