-- ===== src/Engine/Machine/Advance.antt =====
-- The moves of next, autoNext and engineTick of src/engine/engine.cpp.
use caudio.Prelude.{
  ℕ, ◌≡◌, refl, ◌∙◌, Bool, true, false, not, ◌&&◌, arith, if◌then◌else◌, Expected, ok, unexpected,
  make_error, bad_state, busy,
}
use caudio.Engine.{Floats, World, Engine, stopped, playing}
use caudio.Engine.Persist.{now_ms, has_db, save_state}
use caudio.Engine.Traverse.{is_one}
use caudio.Engine.Play.{reset_playback_accounting, account_playback_time}
use caudio.Engine.Transport.{Reply, decoder_seek, is_playing}
use caudio.Engine.Commands.{
  rewound, repeated, repeat_current, halt_at_end, at_end, is_off, go_on, advance_locked, next,
  auto_next,
}
use caudio.Engine.Tick.{
  do_history_mark, report_progress, gapless_advance, checkpoint, engine_tick, armed, after_advance,
  accounted,
}
use caudio.Engine.View.{
  Now, view, view_of, now_playing, stays, view-queue_next, view-push_event, view-account,
}
use caudio.Engine.Machine.{nexts, auto_nexts, ticks, Move, keeps, starts, shifts, halts}
use caudio.Engine.Machine.Tries.{Tries, fails, played, play_found-Tries}

-- What advancing does: nothing, a track, the current track again, or the halt at the end.
pub data Advances (stop_at_end : Bool) (n m : Now) : Type 0 where
  same : m ≡ n → Advances stop_at_end n m
  started : (t : ℕ) → m ≡ now_playing t → Advances stop_at_end n m
  again : n.current ≡ true → m ≡ record n { playback = playing } → Advances stop_at_end n m
  halted :
      stop_at_end ≡ true
      → m ≡ record n { playback = stopped; current = false; recorded = 0 }
      → Advances stop_at_end n m

module _ {F : Type 0} ⦃fl : Floats F⦄ (w : World F) where
  view-rewound : (e : Engine F) → view (rewound w e) ≡ record (view e) { playback = playing }
  unfolding view rewound reset_playback_accounting
  view-rewound e = refl

  repeated-Advances :
      (s : Bool) (e : Engine F) (r : Expected (Unit {0}))
      → (view e).current ≡ true
      → Advances s (view e) (view_of (repeated w e r))
  unfolding repeated
  repeated-Advances s e (ok u) c =
      again c (stays _ _ ∙ view-push_event w _ (rewound w e) ∙ view-rewound e)
  repeated-Advances s e (unexpected x) c = same (stays e _)

  pub view-halt :
      (e : Engine F)
      → view (halt_at_end w e)
        ≡ record (view e) { playback = stopped; current = false; recorded = 0 }
  unfolding view halt_at_end save_state
  view-halt e = ground arith

  Advances-of_Tries : (s : Bool) (n : Now) (r : Reply F) → Tries n r → Advances s n (view_of r)
  Advances-of_Tries s n r (fails a b) = same b
  Advances-of_Tries s n r (played t a b) = started t b

  Advances-if :
      (s : Bool) (n : Now) (b : Bool) (x y : Reply F)
      → (b ≡ true → Advances s n (view_of x))
      → (b ≡ false → Advances s n (view_of y))
      → Advances s n (view_of (if b then x else y))
  Advances-if s n true x y p q = p refl
  Advances-if s n false x y p q = q refl

  go_on-Advances : (s : Bool) (e : Engine F) → Advances s (view e) (view_of (go_on w s e))
  unfolding go_on
  go_on-Advances s e =
      Advances-if s (view e) (s && is_off e.queue.repeat && at_end w e) (halt_at_end w e, ok tt) _
        (λ h. halted (ground arith) (stays _ _ ∙ view-halt e))
        (λ h.
          Advances-of_Tries s (view e) _ (play_found-Tries w _ (view e) _ (view-queue_next w e)))

  current_of : (e : Engine F) → e.has_current ≡ true → (view e).current ≡ true
  unfolding view
  current_of e h = h

  pub advance-Advances :
      (s : Bool) (e : Engine F) → Advances s (view e) (view_of (advance_locked w s e))
  unfolding advance_locked repeat_current
  advance-Advances s e =
      Advances-if s (view e) (not (has_db w e)) (e, unexpected (make_error bad_state "no db")) _
        (λ h. same (stays e _))
        (λ h.
          Advances-if s (view e) (not e.queue.shuffle && is_one e.queue.repeat && e.has_current)
            (repeated w e (decoder_seek w (fl.of_int 0) e)) _
            (λ h'. repeated-Advances s e _ (current_of e (ground arith)))
            (λ h'.
              Advances-if s (view e) w.queue_free (go_on w s e)
                (e, unexpected (make_error busy "busy")) (λ free. go_on-Advances s e)
                (λ taken. same (stays e _))))

  pub next-Move : (e : Engine F) → Move {F = F} nexts (view e) (view_of (next w e))
  unfolding next
  next-Move e = go _ (advance-Advances false e)
    where
      go : (m : Now) → Advances false (view e) m → Move {F = F} nexts (view e) m
      go m (same p) = keeps refl p
      go m (started t p) = starts t refl p
      go m (again c p) = shifts playing c p
      go m (halted h p) = absurd (ground arith)

  pub auto_next-Move : (e : Engine F) → Move {F = F} auto_nexts (view e) (view_of (auto_next w e))
  unfolding auto_next
  auto_next-Move e = go _ (advance-Advances true e)
    where
      go : (m : Now) → Advances true (view e) m → Move {F = F} auto_nexts (view e) m
      go m (same p) = keeps refl p
      go m (started t p) = starts t refl p
      go m (again c p) = shifts playing c p
      go m (halted h p) = halts refl p

  view-pick :
      (b : Bool) (x y : Engine F) (n : Now)
      → view x ≡ n
      → view y ≡ n
      → view (if b then x else y) ≡ n
  view-pick true x y n p q = p
  view-pick false x y n p q = q

  view-armed : (b : Bool) (e : Engine F) → view (armed w b e) ≡ view e
  unfolding view
  view-armed b e = refl

  view-reported : (e : Engine F) → view (record e { last_progress_ms = now_ms w }) ≡ view e
  unfolding view
  view-reported e = refl

  view-report : (e : Engine F) → view (report_progress w e) ≡ view e
  unfolding report_progress
  view-report e = view-pick _ _ _ _ (view-push_event w _ _ ∙ view-reported e) refl

  view-mark : (e : Engine F) → view (do_history_mark w e) ≡ view e
  unfolding view do_history_mark
  view-mark e = ground arith

  pub view-accounted : (e : Engine F) → view (accounted w e) ≡ view e
  unfolding accounted
  view-accounted e =
      view-mark (if is_playing e.playback_state then account_playback_time w e else e)
      ∙ view-pick (is_playing e.playback_state) _ e _ (view-account w e) refl

  view-checkpoint : (e : Engine F) → view (checkpoint w e) ≡ view e
  unfolding view checkpoint save_state
  view-checkpoint e = ground arith

  view-after_advance : (r : Reply F) → view (after_advance w r) ≡ view_of r
  unfolding view_of
  view-after_advance (e, ok u) = refl
  view-after_advance (e, unexpected x) = view-armed false e

  gapless-Advances : (e : Engine F) → Advances true (view e) (view (gapless_advance w e))
  unfolding gapless_advance auto_next
  gapless-Advances e = pick _ (same refl)
    where
      tried :
          Advances true (view e) (view (after_advance w (advance_locked w true (armed w true e))))
      tried =
          rw (view-after_advance (advance_locked w true (armed w true e)))
            (rw (view-armed true e) at (advance-Advances true (armed w true e)))

      pick :
          (b : Bool)
          → Advances true (view e) (view e)
          → Advances true
              (view e)
              (view (if b then after_advance w (advance_locked w true (armed w true e)) else e))
      pick true h = tried
      pick false h = h

  playing_tick-Advances :
      (e : Engine F)
      → Advances true
          (view e)
          (view (checkpoint w (gapless_advance w (report_progress w (accounted w e)))))
  playing_tick-Advances e =
      rw (view-checkpoint (gapless_advance w (report_progress w (accounted w e)))) (
        rw (view-report (accounted w e), view-accounted e) at
          (gapless-Advances (report_progress w (accounted w e))))

  pub tick-Move : (e : Engine F) → Move {F = F} ticks (view e) (view (engine_tick w e))
  unfolding engine_tick
  tick-Move e = pick _
    where
      go : (m : Now) → Advances true (view e) m → Move {F = F} ticks (view e) m
      go m (same p) = keeps refl p
      go m (started t p) = starts t refl p
      go m (again c p) = shifts playing c p
      go m (halted h p) = halts refl p

      pick :
          (b : Bool)
          → Move {F = F} ticks (view e) (
              view (
                if b
                then checkpoint w (gapless_advance w (report_progress w (accounted w e)))
                else accounted w e))
      pick true = go _ (playing_tick-Advances e)
      pick false = keeps refl (view-accounted e)
