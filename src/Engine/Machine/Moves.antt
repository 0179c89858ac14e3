-- ===== src/Engine/Machine/Moves.antt =====
-- The moves of each transport command of src/engine/engine.cpp.
use caudio.Prelude.{
  ℕ, ◌-◌, ◌≡◌, refl, ◌∙◌, Bool, true, false, not, ◌&&◌, ◌||◌, inl, inr, arith, if◌then◌else◌,
  Bool-cases, Expected, ok, unexpected,
}
use caudio.Engine.{Floats, World, Engine, stopped, playing, paused}
use caudio.Engine.Persist.{has_db}
use caudio.Engine.Play.{account_playback_time, release_media, reset_playback_accounting}
use caudio.Engine.Transport.{
  Reply, pausing, stopping, forget_position, decoder_seek, pause, resume, resume_paused, stop,
  rewind_cursor, seek, after_seek, sought, suspended, suspend_current_track, save_if_open,
}
use caudio.Engine.View.{Now, view, view_of, stays, view-save_state, view-move_cursor}
use caudio.Engine.Machine.{
  Command, pauses, resumes, stops, seeks, suspends, Move, keeps, starts, shifts, stopped_by,
  may_keep, may_start,
}
use caudio.Engine.Machine.Tries.{Tries, fails, played}

module _ {F : Type 0} where
  pub Move-if :
      (c : Command F) (n : Now) (b : Bool) (x y : Reply F)
      → (b ≡ true → Move c n (view_of x))
      → (b ≡ false → Move c n (view_of y))
      → Move c n (view_of (if b then x else y))
  Move-if c n true x y p q = p refl
  Move-if c n false x y p q = q refl

  pub Move-keep :
      (c : Command F) (e : Engine F) (r : Expected (Unit {0}))
      → may_keep c (view e).playback ≡ true
      → Move c (view e) (view_of (e, r))
  Move-keep c e r k = keeps k (stays e r)

  pub Move-of_Tries :
      (c : Command F) (n : Now) (r : Reply F)
      → may_keep c n.playback ≡ true
      → ((t : ℕ) → may_start c t ≡ true)
      → Tries n r
      → Move c n (view_of r)
  Move-of_Tries c n r k s (fails a b) = keeps k b
  Move-of_Tries c n r k s (played t a b) = starts t (s t) b

module _ {F : Type 0} ⦃fl : Floats F⦄ (w : World F) where
  pub view-save_if_open : (e : Engine F) → view (save_if_open w e) ≡ view e
  unfolding save_if_open
  view-save_if_open e = elim (Bool-cases (has_db w e)) [
    | inl h ↦ rw h (view-save_state w e)
    | inr h ↦ rw h
  ]

  pub pausing-view : (e : Engine F) → view (pausing w e) ≡ record (view e) { playback = paused }
  unfolding view pausing account_playback_time
  pausing-view e = ground arith

  pub pause-Move : (e : Engine F) → Move {F = F} pauses (view e) (view_of (pause w e))
  unfolding view pause
  pause-Move e =
      Move-if pauses (view e) _ _ _
        (λ h. shifts paused h (stays _ _ ∙ view-save_if_open (pausing w e) ∙ pausing-view e))
        (λ h. Move-keep pauses e _ (rw h))

  pub resume_paused-view :
      (e : Engine F) → view (resume_paused w e) ≡ record (view e) { playback = playing }
  unfolding view resume_paused
  resume_paused-view e = refl

  pub resume-Move : (e : Engine F) → Move {F = F} resumes (view e) (view_of (resume w e))
  unfolding view resume
  resume-Move e =
      Move-if resumes (view e) _ _ _ (λ h. shifts playing h (stays _ _ ∙ resume_paused-view e))
        (λ h. Move-keep resumes e _ (rw h))

  stopping-view :
      (e : Engine F) → view (stopping w e) ≡ record (view e) { playback = stopped; current = false }
  unfolding view stopping release_media reset_playback_accounting account_playback_time
  stopping-view e = ground arith

  view-rewind_cursor : (e : Engine F) → view (rewind_cursor w e) ≡ view e
  unfolding rewind_cursor
  view-rewind_cursor e = ground (arith, view-move_cursor w (e.queue.cursor - 1) e)

  view-forget_position : (e : Engine F) → view (forget_position w e) ≡ view e
  unfolding view
  view-forget_position e = refl

  pub stop-Move : (e : Engine F) → Move {F = F} stops (view e) (view_of (stop w e))
  unfolding view stop
  stop-Move e =
      Move-if stops (view e) _ _ _ (λ h. Move-keep stops e _ h)
        (λ h. stopped_by refl h (
          stays _ _
          ∙ view-save_if_open (forget_position w (rewind_cursor w (stopping w e)))
          ∙ view-forget_position (rewind_cursor w (stopping w e))
          ∙ view-rewind_cursor (stopping w e)
          ∙ stopping-view e))

  sought-view :
      (s : F) (e : Engine F) → view (sought w s e) ≡ record (view e) { playback = playing }
  unfolding sought
  sought-view s e = view-save_if_open _ ∙ (unfold view in refl)

  after_seek-view :
      (s : F) (e : Engine F) (r : Expected (Unit {0}))
      → view_of (after_seek w s e r) ≡ record (view e) { playback = playing }
  unfolding after_seek
  after_seek-view s e (ok u) = stays _ _ ∙ sought-view s e
  after_seek-view s e (unexpected x) = stays _ _ ∙ (unfold view in refl)

  has_track : (e : Engine F) → e.has_current ≡ true → (view e).current ≡ true
  unfolding view
  has_track e h = h

  pub seek-Move : (s : F) (e : Engine F) → Move (seeks s) (view e) (view_of (seek w s e))
  unfolding seek
  seek-Move s e = elim (Bool-cases e.has_current) [
    | inr h ↦ simp (h, seek) (Move-keep (seeks s) e _ refl)
    | inl h ↦ elim (Bool-cases (not (fl.is_finite s) || fl.lt s (fl.of_int 0))) [
      | inl bad ↦ simp (h, bad, seek) (Move-keep (seeks s) e _ refl)
      | inr good ↦
          simp (h, good, seek)
            (shifts playing (has_track e h) (after_seek-view s e (decoder_seek w s e)))
    ]
  ]

  suspended-view : (e : Engine F) → view (suspended w e) ≡ record (view e) { playback = paused }
  unfolding view suspended
  suspended-view e = refl

  suspend_run :
      (e : Engine F)
      → e.has_current && w.queue_free ≡ true
      → suspend_current_track w e ≡ (suspended w e, ok tt)
  unfolding suspend_current_track
  suspend_run e h = ground arith

  suspend_fails :
      (e : Engine F)
      → e.has_current && w.queue_free ≡ false
      → view_of (suspend_current_track w e) ≡ view e
  unfolding view_of suspend_current_track
  suspend_fails e h = ground arith

  pub suspend-Move :
      (e : Engine F) → Move {F = F} suspends (view e) (view_of (suspend_current_track w e))
  suspend-Move e = elim (Bool-cases (e.has_current && w.queue_free)) [
    | inr h ↦ keeps refl (suspend_fails e h)
    | inl h ↦
        rw (suspend_run e h)
          (shifts paused (has_track e (ground arith)) (stays _ _ ∙ suspended-view e))
  ]
