-- ===== src/Engine/Machine/Sound.antt =====
-- Every command of src/engine/engine.cpp is a move of the machine, and what the moves keep.
use caudio.Prelude.{◌≡◌, ◌≢◌, refl, ◌∙◌, true, false, List, [], ◌∷◌, arith, Expected, ok}
use caudio.Engine.{Floats, World, Engine, PlaybackState, stopped, ready, playing, paused}
use caudio.Engine.Transport.{is_playing, is_paused, is_stopped}
use caudio.Engine.Tick.{engine_tick}
use caudio.Engine.View.{Now, view, view_of, stays}
use caudio.Engine.Machine.{
  Command, plays, plays_track, pauses, resumes, stops, suspends, nexts, auto_nexts, prevs, ticks,
  seeks, reopens, switches, shuffles, repeats, volumes, pre_mutes, notes, perform, Move, keeps,
  starts, shifts, halts, stopped_by, reopened, may_shift,
}
use caudio.Engine.Machine.Moves.{pause-Move, resume-Move, stop-Move, seek-Move, suspend-Move}
use caudio.Engine.Machine.Begin.{play-Move, play_track-Move, prev-Move, reopen-Move}
use caudio.Engine.Machine.Advance.{next-Move, auto_next-Move, tick-Move}
use caudio.Engine.Machine.Settings.{
  view-set_volume, view-set_pre_mute, view-note_enqueued, view-set_repeat, view-set_shuffle_command,
  view-switch_queue,
}

module _ {F : Type 0} ⦃fl : Floats F⦄ where
  -- Each command, whatever the database, the media and the device reply, makes one of the moves
  -- that the machine allows it from the state it is called in.
  pub perform-Move :
      (w : World F) (c : Command F) (e : Engine F) → Move c (view e) (view_of (perform w c e))
  unfolding perform
  perform-Move w (plays q) e = play-Move w q e
  perform-Move w (plays_track t) e = play_track-Move w t e
  perform-Move w pauses e = pause-Move w e
  perform-Move w resumes e = resume-Move w e
  perform-Move w stops e = stop-Move w e
  perform-Move w suspends e = suspend-Move w e
  perform-Move w nexts e = next-Move w e
  perform-Move w auto_nexts e = auto_next-Move w e
  perform-Move w prevs e = prev-Move w e
  perform-Move w ticks e = rw (stays (engine_tick w e) (ok tt)) (tick-Move w e)
  perform-Move w (seeks s) e = seek-Move w s e
  perform-Move w (reopens t pos was_paused) e = reopen-Move w t pos was_paused e
  perform-Move w (switches q) e = keeps refl (view-switch_queue w q e)
  perform-Move w (shuffles on) e = keeps refl (view-set_shuffle_command w on e)
  perform-Move w (repeats m) e = keeps refl (view-set_repeat w m e)
  perform-Move w (volumes g) e = keeps refl (view-set_volume w g e)
  perform-Move w (pre_mutes g) e = keeps refl (view-set_pre_mute w g e)
  perform-Move w (notes q n) e = keeps refl (stays _ _ ∙ view-note_enqueued w q n e)

-- Playing and paused have a current track, the persisted id is that of the current track, and the
-- state `ready` is never entered.
pub record Sound (n : Now) : Type 0 where
  pub has_track : is_stopped n.playback ≡ false → n.current ≡ true
  pub same_track : n.current ≡ true → n.recorded ≡ n.track
  pub never_ready : n.playback ≢ ready

to_playing : (s : PlaybackState) → is_playing s ≡ true → (is_stopped s ≡ false) × (s ≢ ready)
to_playing stopped h = absurd (ground arith)
to_playing ready h = absurd (ground arith)
to_playing playing h = (refl, λ x. cc)
to_playing paused h = absurd (ground arith)

to_paused : (s : PlaybackState) → is_paused s ≡ true → (is_stopped s ≡ false) × (s ≢ ready)
to_paused stopped h = absurd (ground arith)
to_paused ready h = absurd (ground arith)
to_paused playing h = absurd (ground arith)
to_paused paused h = (refl, λ x. cc)

module _ {F : Type 0} where
  shift-current :
      (c : Command F) (n : Now) (s : PlaybackState)
      → Sound n
      → may_shift c n s ≡ true
      → (n.current ≡ true) × (is_stopped s ≡ false) × (s ≢ ready)
  shift-current pauses n s h k = (
    h.has_track (to_playing _ (ground arith)).0,
    (to_paused s (ground arith)).0,
    (to_paused s (ground arith)).1,
  )
  shift-current resumes n s h k = (
    h.has_track (to_paused _ (ground arith)).0,
    (to_playing s (ground arith)).0,
    (to_playing s (ground arith)).1,
  )
  shift-current (plays q) n s h k = (
    h.has_track (to_paused _ (ground arith)).0,
    (to_playing s (ground arith)).0,
    (to_playing s (ground arith)).1,
  )
  shift-current (seeks t) n s h k =
      (ground arith, (to_playing s (ground arith)).0, (to_playing s (ground arith)).1)
  shift-current suspends n s h k =
      (ground arith, (to_paused s (ground arith)).0, (to_paused s (ground arith)).1)
  shift-current nexts n s h k =
      (ground arith, (to_playing s (ground arith)).0, (to_playing s (ground arith)).1)
  shift-current auto_nexts n s h k =
      (ground arith, (to_playing s (ground arith)).0, (to_playing s (ground arith)).1)
  shift-current ticks n s h k =
      (ground arith, (to_playing s (ground arith)).0, (to_playing s (ground arith)).1)
  shift-current (plays_track t) n s h k = absurd (ground arith)
  shift-current stops n s h k = absurd (ground arith)
  shift-current prevs n s h k = absurd (ground arith)
  shift-current (reopens t p b) n s h k = absurd (ground arith)
  shift-current (switches q) n s h k = absurd (ground arith)
  shift-current (shuffles b) n s h k = absurd (ground arith)
  shift-current (repeats m) n s h k = absurd (ground arith)
  shift-current (volumes g) n s h k = absurd (ground arith)
  shift-current (pre_mutes g) n s h k = absurd (ground arith)
  shift-current (notes q i) n s h k = absurd (ground arith)

  Move-Sound : (c : Command F) (n m : Now) → Sound n → Move c n m → Sound m
  Move-Sound c n m h (keeps k p) = rw p h
  Move-Sound c n m h (starts t k p) =
      rw p (record { has_track = λ x. refl; same_track = λ x. refl; never_ready = λ x. cc })
  Move-Sound c n m h (shifts s k p) =
      let (cur, running, fine) = shift-current c n s h k in
      rw p (record { has_track = λ x. cur; same_track = h.same_track; never_ready = fine })
  Move-Sound c n m h (halts k p) = rw p (record {
    has_track = λ x. absurd (ground arith);
    same_track = λ x. absurd (ground arith);
    never_ready = λ x. cc;
  })
  Move-Sound c n m h (stopped_by k l p) = rw p (record {
    has_track = λ x. absurd (ground arith);
    same_track = λ x. absurd (ground arith);
    never_ready = λ x. cc;
  })
  Move-Sound c n m h (reopened t k p) =
      rw p (record { has_track = λ x. refl; same_track = λ x. refl; never_ready = λ x. cc })

-- The engine after a sequence of commands, each meeting an environment of its own.
unfoldable pub performed :
    {F : Type 0} ⦃fl : Floats F⦄ → List (World F × Command F) → Engine F → Engine F
performed [] e = e
performed ((w, c) ∷ cs) e = performed cs (perform w c e).0

module _ {F : Type 0} ⦃fl : Floats F⦄ where
  view-first : (r : Engine F × Expected (Unit {0})) → view_of r ≡ view r.0
  unfolding view_of
  view-first r = refl

  -- From an engine that is sound, every sequence of commands leads to a sound one, whatever the
  -- database, the media, the device and the lock do at each of them: a playing or paused engine has
  -- a current track, whose id is the persisted one, and the state is never `ready`.
  pub performed-Sound :
      (cs : List (World F × Command F)) (e : Engine F)
      → Sound (view e)
      → Sound (view (performed cs e))
  unfolding performed
  performed-Sound [] e h = h
  performed-Sound ((w, c) ∷ cs) e h =
      performed-Sound cs (perform w c e).0
        (rw (view-first (perform w c e)) at (Move-Sound c (view e) _ h (perform-Move w c e)))
