-- ===== src/Engine/Machine/Begin.antt =====
-- The moves of the commands of src/engine/engine.cpp that start a track.
use caudio.Prelude.{
  ℕ, ◌≡◌, refl, ap, ◌∙◌, Bool, true, false, not, ◌||◌, inl, inr, arith, ◌==◌, if◌then◌else◌,
  Bool-cases, Expected, ok, unexpected, make_error, busy,
}
use caudio.Engine.{Floats, Track, QueueState, World, Engine, playing, paused}
use caudio.Engine.Persist.{has_db}
use caudio.Engine.Traverse.{with_queue}
use caudio.Engine.Play.{do_play_track, reset_playback_accounting}
use caudio.Engine.Transport.{
  Reply, is_playing, is_paused, pausing, decoder_seek, pause, resume_after_tag_write, save_if_open,
  keep_accounting, pause_reopened,
}
use caudio.Engine.Commands.{play, play_stopped, restarted, play_track, prev}
use caudio.Engine.View.{Now, view, view_of, now_playing, stays}
use caudio.Engine.Started.{Starts, do_play_track-Starts}
use caudio.Engine.Machine.{
  reopens, plays, plays_track, prevs, Move, keeps, starts, shifts, reopened,
}
use caudio.Engine.Machine.Tries.{play_stopped-Tries, play_track-Tries, prev-Tries}
use caudio.Engine.Machine.Moves.{
  Move-if, Move-keep, Move-of_Tries, resume_paused-view, view-save_if_open, pausing-view,
}

module _ {F : Type 0} ⦃fl : Floats F⦄ (w : World F) where
  restarted-view : (e : Engine F) (r : Expected (Unit {0})) → view_of (restarted w e r) ≡ view e
  unfolding view view_of restarted reset_playback_accounting
  restarted-view e (ok u) = refl
  restarted-view e (unexpected x) = refl

  was_paused :
      (e : Engine F) → is_paused e.playback_state ≡ true → is_paused (view e).playback ≡ true
  unfolding view
  was_paused e h = h

  view-with_queue : (e : Engine F) (q : QueueState) → view (with_queue e q) ≡ view e
  unfolding view
  view-with_queue e q = refl

  stopped-Move :
      (q : ℕ) (e : Engine F) (s : QueueState)
      → Move {F = F} (plays q) (view e) (view_of (play_stopped w (with_queue e s)))
  stopped-Move q e s =
      Move-of_Tries (plays q) (view e) _ refl (λ i. refl)
        (rw (view-with_queue e s) at (play_stopped-Tries w (with_queue e s)))

  pub play-Move : (q : ℕ) (e : Engine F) → Move {F = F} (plays q) (view e) (view_of (play w q e))
  unfolding play
  play-Move q e = elim (Bool-cases (has_db w e)) [
    | inr h ↦ simp (h, play) (Move-keep (plays q) e _ refl)
    | inl h ↦ elim (Bool-cases (is_paused e.playback_state)) [
      | inl p ↦
          simp (h, p, play) (shifts playing (was_paused e p) (stays _ _ ∙ resume_paused-view w e))
      | inr p ↦ elim (Bool-cases (is_playing e.playback_state)) [
        | inl r ↦
            simp (h, p, r, play) (keeps refl (restarted-view e (decoder_seek w (fl.of_int 0) e)))
        | inr r ↦ elim (Bool-cases w.queue_free) [
          | inr taken ↦ simp (h, p, r, taken, play) (Move-keep (plays q) e _ refl)
          | inl free ↦ simp (h, p, r, free, play) (stopped-Move q e _)
        ]
      ]
    ]
  ]

  pub play_track-Move :
      (t : ℕ) (e : Engine F) → Move {F = F} (plays_track t) (view e) (view_of (play_track w t e))
  play_track-Move t e =
      Move-of_Tries (plays_track t) (view e) _ refl (λ i. refl) (play_track-Tries w t e)

  pub prev-Move : (e : Engine F) → Move {F = F} prevs (view e) (view_of (prev w e))
  prev-Move e = Move-of_Tries prevs (view e) _ refl (λ i. refl) (prev-Tries w e)

  view-keep_accounting : (old e : Engine F) → view (keep_accounting w old e) ≡ view e
  unfolding view
  view-keep_accounting old e = refl

  pause_run :
      (e : Engine F)
      → is_playing (view e).playback ≡ true
      → pause w e ≡ (save_if_open w (pausing w e), ok tt)
  unfolding view pause
  pause_run e h = ground arith

  pause_playing :
      (e : Engine F) (t : ℕ)
      → view e ≡ now_playing t
      → view_of (pause w e) ≡ record (now_playing t) { playback = paused }
  pause_playing e t p = rw (pause_run e (ap (λ (n : Now). is_playing n.playback) p)) (
      stays _ _
      ∙ view-save_if_open w (pausing w e)
      ∙ pausing-view w e
      ∙ ap (λ (n : Now). record n { playback = paused }) p)

  reopened-Move :
      (t : Track F) (pos : F) (was_paused : Bool) (n : Now) (r : Reply F) (old : Engine F)
      → Starts w t.id n r
      → Move
          (reopens t pos was_paused)
          n
          (view_of (pause_reopened w was_paused (keep_accounting w old r.0, r.1)))
  unfolding pause_reopened view_of
  reopened-Move t pos was_paused n (e, unexpected x) old (inl (a, b)) =
      keeps refl (view-keep_accounting old e ∙ b)
  reopened-Move t pos was_paused n (e, unexpected x) old (inr (a, b)) = absurd (ground arith)
  reopened-Move t pos was_paused n (e, ok u) old (inl (a, b)) = absurd (ground arith)
  reopened-Move t pos false n (e, ok u) old (inr (a, b)) =
      starts t.id (ground arith) (view-keep_accounting old e ∙ b)
  reopened-Move t pos true n (e, ok u) old (inr (a, b)) =
      reopened t.id (ground arith)
        (pause_playing (keep_accounting w old e) t.id (view-keep_accounting old e ∙ b))

  pub reopen-Move :
      (t : Track F) (pos : F) (was_paused : Bool) (e : Engine F)
      → Move
          (reopens t pos was_paused)
          (view e)
          (view_of (resume_after_tag_write w t pos was_paused e))
  unfolding resume_after_tag_write
  reopen-Move t pos was_paused e =
      Move-if (reopens t pos was_paused) (view e) w.queue_free
        (if not e.has_current || not (e.state.current_track_id == t.id)
          then (e, ok tt)
          else reopened_of)
        (e, unexpected (make_error busy "queue busy"))
        (λ free.
          Move-if (reopens t pos was_paused) (view e)
            (not e.has_current || not (e.state.current_track_id == t.id)) (e, ok tt) reopened_of
            (λ h. keeps refl (stays e _))
            (λ h. reopened-Move t pos was_paused (view e) _ e (do_play_track-Starts w t pos e)))
        (λ taken. keeps refl (stays e _))
    where
      reopened_of : Reply F
      reopened_of =
          let (e', r) = do_play_track w t pos e in
          pause_reopened w was_paused (keep_accounting w e e', r)
