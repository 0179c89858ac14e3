-- ===== src/Engine/Machine.antt =====
-- The engine of src/engine/engine.cpp as a state machine over what a client sees: the commands,
-- and the moves that each may make.
pub mod Tries
pub mod Moves
pub mod Begin
pub mod Advance
pub mod Settings
pub mod Sound
use caudio.Prelude.{
  ℕ, ◌≡◌, ◌≢◌, refl, sym, ap, ◌∙◌, Bool, true, false, not, ◌&&◌, ◌||◌, List, [], ◌∷◌, ◌⊎◌, inl, inr,
  arith, ◌==◌, if◌then◌else◌, Expected, ok, unexpected, has_value,
}
use caudio.Engine.{
  Floats, Track, World, Engine, RepeatMode, PlaybackState, stopped, ready, playing, paused,
}
use caudio.Engine.Transport.{
  Reply, is_playing, is_paused, is_stopped, pause, resume, stop, seek, suspend_current_track,
  resume_after_tag_write,
}
use caudio.Engine.Commands.{play, play_track, next, auto_next, prev}
use caudio.Engine.Settings.{
  set_volume, set_pre_mute_volume, set_shuffle, set_repeat, switch_queue, note_enqueued,
}
use caudio.Engine.Tick.{engine_tick}
use caudio.Engine.View.{Now, view, view_of, now_playing}

-- The calls of the engine's interface, and the monitor's tick.
pub data Command (F : Type 0) : Type 0 where
  plays : ℕ → Command F
  plays_track : ℕ → Command F
  pauses resumes stops suspends nexts auto_nexts prevs ticks : Command F
  seeks : F → Command F
  reopens : Track F → F → Bool → Command F
  switches : ℕ → Command F
  shuffles : Bool → Command F
  repeats : RepeatMode → Command F
  volumes pre_mutes : F → Command F
  notes : ℕ → ℕ → Command F

module _ {F : Type 0} ⦃fl : Floats F⦄ where
  unfoldable pub perform : World F → Command F → Engine F → Reply F
  perform w (plays qid) e = play w qid e
  perform w (plays_track t) e = play_track w t e
  perform w pauses e = pause w e
  perform w resumes e = resume w e
  perform w stops e = stop w e
  perform w suspends e = suspend_current_track w e
  perform w nexts e = next w e
  perform w auto_nexts e = auto_next w e
  perform w prevs e = prev w e
  perform w ticks e = (engine_tick w e, ok tt)
  perform w (seeks s) e = seek w s e
  perform w (reopens t pos was_paused) e = resume_after_tag_write w t pos was_paused e
  perform w (switches qid) e = switch_queue w qid e
  perform w (shuffles on) e = set_shuffle w on e
  perform w (repeats m) e = set_repeat w m e
  perform w (volumes g) e = set_volume w g e
  perform w (pre_mutes g) e = set_pre_mute_volume g e
  perform w (notes qid n) e = (note_enqueued w qid n e, ok tt)

module _ {F : Type 0} where
  -- Commands that may change nothing: all but a pause while playing, a resume while paused and a
  -- stop of what is not stopped.
  abbrev pub may_keep : Command F → PlaybackState → Bool
  may_keep pauses s = not (is_playing s)
  may_keep resumes s = not (is_paused s)
  may_keep stops s = is_stopped s
  may_keep _ s = true

  -- Commands that may start the track `id`.
  abbrev pub may_start : Command F → ℕ → Bool
  may_start (plays qid) id = true
  may_start (plays_track t) id = true
  may_start nexts id = true
  may_start auto_nexts id = true
  may_start prevs id = true
  may_start ticks id = true
  may_start (reopens t pos was_paused) id = t.id == id
  may_start _ id = false

  -- Commands that may change the state alone: from `n` to `s`.
  abbrev pub may_shift : Command F → Now → PlaybackState → Bool
  may_shift pauses n s = is_paused s && is_playing n.playback
  may_shift resumes n s = is_playing s && is_paused n.playback
  may_shift (plays qid) n s = is_playing s && is_paused n.playback
  may_shift (seeks t) n s = is_playing s && n.current
  may_shift suspends n s = is_paused s && n.current
  may_shift nexts n s = is_playing s && n.current
  may_shift auto_nexts n s = is_playing s && n.current
  may_shift ticks n s = is_playing s && n.current
  may_shift _ n s = false

  abbrev pub may_halt : Command F → Bool
  may_halt auto_nexts = true
  may_halt ticks = true
  may_halt _ = false

  abbrev pub reopens_paused : Command F → ℕ → Bool
  reopens_paused (reopens t pos was_paused) id = was_paused && (t.id == id)
  reopens_paused _ id = false

  abbrev pub is_stop : Command F → Bool
  is_stop stops = true
  is_stop _ = false

-- The moves of the machine.
pub data Move {F : Type 0} (c : Command F) (n m : Now) : Type 0 where
  keeps : may_keep c n.playback ≡ true → m ≡ n → Move c n m
  starts : (t : ℕ) → may_start c t ≡ true → m ≡ now_playing t → Move c n m
  shifts : (s : PlaybackState) → may_shift c n s ≡ true → m ≡ record n { playback = s } → Move c n m
  halts :
      may_halt c ≡ true
      → m ≡ record n { playback = stopped; current = false; recorded = 0 }
      → Move c n m
  stopped_by :
      is_stop c ≡ true
      → is_stopped n.playback ≡ false
      → m ≡ record n { playback = stopped; current = false }
      → Move c n m
  reopened :
      (t : ℕ)
      → reopens_paused c t ≡ true
      → m ≡ record (now_playing t) { playback = paused }
      → Move c n m
