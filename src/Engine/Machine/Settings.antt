-- ===== src/Engine/Machine/Settings.antt =====
-- The commands of src/engine/engine.cpp on volume, shuffle, repeat and queues leave the playback
-- alone.
use caudio.Prelude.{
  ℕ, ◌≡◌, refl, ◌∙◌, Bool, true, false, not, arith, ◌==◌, if◌then◌else◌, Expected, ok, unexpected,
  make_error, busy,
}
use caudio.Engine.{Floats, World, Engine, RepeatMode}
use caudio.Engine.Persist.{has_db, save_state, persist_shuffle_blob_locked}
use caudio.Engine.Traverse.{set_shuffle_locked}
use caudio.Engine.Settings.{
  set_volume, set_pre_mute_volume, set_shuffle, set_repeat, switched, switch_existing, switch_queue,
  note_enqueued, event_of_queue,
}
use caudio.Engine.View.{
  view, view_of, stays, view-if, view-and_then, view-save_state, view-set_shuffle, view-push_event,
}

module _ {F : Type 0} ⦃fl : Floats F⦄ (w : World F) where
  pub view-set_volume : (g : F) (e : Engine F) → view_of (set_volume w g e) ≡ view e
  unfolding view view_of set_volume save_state
  view-set_volume g e = ground arith

  pub view-set_pre_mute : (g : F) (e : Engine F) → view_of (set_pre_mute_volume g e) ≡ view e
  unfolding view view_of set_pre_mute_volume
  view-set_pre_mute g e = refl

  pub view-note_enqueued : (qid n : ℕ) (e : Engine F) → view (note_enqueued w qid n e) ≡ view e
  unfolding view note_enqueued persist_shuffle_blob_locked
  view-note_enqueued qid n e = ground arith

  pub view-set_repeat : (m : RepeatMode) (e : Engine F) → view_of (set_repeat w m e) ≡ view e
  unfolding view view_of set_repeat save_state
  view-set_repeat m e = ground arith

  pub view-set_shuffle_command : (on : Bool) (e : Engine F) → view_of (set_shuffle w on e) ≡ view e
  unfolding set_shuffle
  view-set_shuffle_command on e =
      view-if (not (has_db w e)) (e, unexpected _) _ (view e) (stays e _)
        (view-if w.queue_free _ (e, unexpected (make_error busy "busy")) (view e)
          (view-and_then (set_shuffle_locked w on e) _ (view e) (view-set_shuffle w on e)
            (λ u e' p. stays _ _ ∙ view-push_event w (event_of_queue e'.queue.queue_id) e' ∙ p))
          (stays e _))

  view-switched : (qid : ℕ) (e : Engine F) → view (switched w qid e) ≡ view e
  unfolding view switched
  view-switched qid e = refl

  view-save_state_of : (e : Engine F) → view_of (save_state w e) ≡ view e
  unfolding view_of
  view-save_state_of e = view-save_state w e

  view-switch_existing :
      (qid : ℕ) (r : Expected Bool) (e : Engine F) → view_of (switch_existing w qid r e) ≡ view e
  unfolding switch_existing
  view-switch_existing qid (unexpected x) e = stays e _
  view-switch_existing qid (ok false) e = stays e _
  view-switch_existing qid (ok true) e =
      view-if (e.queue.queue_id == qid) (e, ok tt) _ (view e) (stays e _)
        (view-and_then (save_state w (switched w qid e)) _ (view e)
          (view-save_state_of (switched w qid e) ∙ view-switched qid e)
          (λ u e' p. stays _ _ ∙ view-push_event w (event_of_queue qid) e' ∙ p))

  pub view-switch_queue : (qid : ℕ) (e : Engine F) → view_of (switch_queue w qid e) ≡ view e
  unfolding switch_queue
  view-switch_queue qid e =
      view-if (not (has_db w e)) (e, unexpected _) _ (view e) (stays e _)
        (view-if w.queue_free _ (e, unexpected (make_error busy "busy")) (view e)
          (view-switch_existing (if qid == 0 then 1 else qid) _ e) (stays e _))
