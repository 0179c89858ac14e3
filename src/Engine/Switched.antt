-- ===== src/Engine/Switched.antt =====
-- switchQueue of src/engine/engine.cpp with shuffle on, and the automatic transition after it.
use caudio.Prelude.{ℕ, ◌≡◌, ◌≢◌, refl, ap, ◌∙◌, true, false, [], arith, Expected, ok, unexpected}
use caudio.Engine.{Floats, QueueState, World, Engine, EngineEvent, off, stopped}
use caudio.Engine.Persist.{and_then, has_db, save_state}
use caudio.Engine.Play.{after_push, push_event}
use caudio.Engine.Transport.{Reply}
use caudio.Engine.Settings.{switched, switch_existing, switch_queue, event_of_queue}
use caudio.Engine.Commands.{auto_next, advance_locked, go_on, at_end, halt_at_end}
use caudio.Engine.View.{view, view_of, stays}
use caudio.Engine.Machine.Advance.{view-halt}

module _ {F : Type 0} ⦃fl : Floats F⦄ where
  queue-after_push :
      (ev : EngineEvent F) (e : Engine F) (r : Expected (Unit {0}))
      → (after_push ev e r).queue ≡ e.queue
  queue-after_push ev e (ok u) = refl
  queue-after_push ev e (unexpected x) = refl

  pub queue-push_event : (ev : EngineEvent F) (e : Engine F) → (push_event ev e).queue ≡ e.queue
  unfolding push_event
  queue-push_event ev e = queue-after_push ev _ _

  queue-save_state : (w : World F) (e : Engine F) → (save_state w e).0.queue ≡ e.queue
  unfolding save_state
  queue-save_state w e = ground arith

  queue-after_save :
      (qid : ℕ) (r : Engine F × Expected (Unit {0}))
      → (and_then r (λ u e'. (push_event (event_of_queue qid) e', ok tt))).0.queue ≡ r.0.queue
  queue-after_save qid (e, ok u) = queue-push_event (event_of_queue qid) e
  queue-after_save qid (e, unexpected x) = refl

  switch_run :
      (w : World F) (qid : ℕ) (e : Engine F)
      → has_db w e ≡ true
      → w.queue_free ≡ true
      → w.db.queue_exists qid ≡ ok true
      → qid ≢ 0
      → e.queue.queue_id ≢ qid
      → switch_queue w qid e
        ≡ and_then
            (save_state w (switched w qid e))
            (λ u e'. (push_event (event_of_queue qid) e', ok tt))
  unfolding switch_queue switch_existing
  switch_run w qid e d free there q ne = ground arith

  queue-switch :
      (w : World F) (qid : ℕ) (e : Engine F)
      → has_db w e ≡ true
      → w.queue_free ≡ true
      → w.db.queue_exists qid ≡ ok true
      → qid ≢ 0
      → e.queue.queue_id ≢ qid
      → (switch_queue w qid e).0.queue ≡ record e.queue { queue_id = qid; cursor = 0; perm = [] }
  queue-switch w qid e d free there q ne =
      ap (λ (r : Reply F). r.0.queue) (switch_run w qid e d free there q ne)
      ∙ queue-after_save qid (save_state w (switched w qid e))
      ∙ queue-save_state w (switched w qid e)
      ∙ (unfold switched in refl)

  auto_next_halts :
      (w : World F) (e : Engine F)
      → has_db w e ≡ true
      → w.queue_free ≡ true
      → e.queue.shuffle ≡ true
      → e.queue.repeat ≡ off
      → e.queue.perm ≡ []
      → auto_next w e ≡ (halt_at_end w e, ok tt)
  unfolding auto_next advance_locked go_on at_end
  auto_next_halts w e d free s r p = ground arith

  -- With shuffle on and repeat off, the automatic transition after a switch to another queue stops
  -- playback, however many tracks that queue has: the switch leaves no shuffle order, and cursor 0
  -- counts as its end.
  pub switch-auto_next :
      (w w' : World F) (qid : ℕ) (e : Engine F)
      → has_db w e ≡ true
      → w.queue_free ≡ true
      → w.db.queue_exists qid ≡ ok true
      → qid ≢ 0
      → e.queue.queue_id ≢ qid
      → e.queue.shuffle ≡ true
      → e.queue.repeat ≡ off
      → has_db w' (switch_queue w qid e).0 ≡ true
      → w'.queue_free ≡ true
      → let after = (switch_queue w qid e).0 in
        view_of (auto_next w' after)
        ≡ record (view after) { playback = stopped; current = false; recorded = 0 }
  switch-auto_next w w' qid e d free there q ne s r d' free' =
      ap view_of (
        auto_next_halts w' after d' free' (ap (λ (u : QueueState). u.shuffle) at ∙ s)
          (ap (λ (u : QueueState). u.repeat) at ∙ r) (ap (λ (u : QueueState). u.perm) at))
      ∙ stays _ _
      ∙ view-halt w' after
    where
      after : Engine F
      after = (switch_queue w qid e).0

      at : after.queue ≡ record e.queue { queue_id = qid; cursor = 0; perm = [] }
      at = queue-switch w qid e d free there q ne
