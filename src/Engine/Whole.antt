-- ===== src/Engine/Whole.antt =====
-- The automatic transitions of src/engine/engine.cpp play a queue in its own order to its end.
use caudio.Prelude.{
  ℕ, zero, suc, ◌+◌, ◌<◌, ◌≡◌, refl, ap, ◌∙◌, Bool, true, false, inl, inr, arith, is_empty_string,
  Expected, ok, unexpected, has_value,
}
use caudio.Engine.{
  Floats, Track, QueueState, World, Engine, EngineEvent, off, Media, opened, stopped,
}
use caudio.Engine.Persist.{has_db, save_state}
use caudio.Engine.Traverse.{move_cursor}
use caudio.Engine.Traverse.Cycle.{queue-move_cursor}
use caudio.Engine.Traverse.Linear.{Walks, Walks-same, Walks-move_cursor, next_inside}
use caudio.Engine.Play.{
  release_media, open_path, open_output, playable, valid_start, begin_track, finish_play,
  do_play_track, after_push, push_event,
}
use caudio.Engine.Transport.{Reply}
use caudio.Engine.Commands.{auto_next, advance_locked, go_on, at_end, halt_at_end}
use caudio.Engine.View.{Now, view, view_of, now_playing}
use caudio.Engine.Started.{Starts, do_play_track-Starts}
use caudio.Engine.Machine.Advance.{view-halt}

module _ {F : Type 0} ⦃fl : Floats F⦄ (w : World F) where
  -- A file that opens: its track has a path, the decoder accepts it.
  abbrev pub Opens : Track F → Type 0
  Opens t = (is_empty_string t.path ≡ false) × ((m : Media) × (w.open_media t.path ≡ opened m))

  plays_open :
      (t : Track F) (s : F) (e : Engine F)
      → w.output_reply ≡ ok tt
      → Opens t
      → has_value (do_play_track w t s e).1 ≡ true
  unfolding do_play_track open_path open_output playable finish_play
  plays_open t s e out (path, file) = let (m, accepted) = file in ground arith

  Leaves : Engine F → Engine F → Type 0
  Leaves e e' = (e'.queue ≡ e.queue) × (has_db w e' ≡ has_db w e)

  open_path-Leaves : (t : Track F) (s : F) (e : Engine F) → Leaves e (open_path w t s e).0
  unfolding Leaves has_db open_path open_output
  open_path-Leaves t s e = ground arith

  playable-Leaves : (t : Track F) (b : Bool) (e : Engine F) → Leaves e (playable w t b e).0
  unfolding Leaves has_db playable
  playable-Leaves t true e = ground arith
  playable-Leaves t false e = ground arith

  begin-Leaves : (t : Track F) (s : F) (e : Engine F) → Leaves e (begin_track w t s e)
  unfolding Leaves begin_track save_state has_db
  begin-Leaves t s e = ground arith

  after_push-Leaves :
      (ev : EngineEvent F) (e : Engine F) (r : Expected (Unit {0})) → Leaves e (after_push ev e r)
  unfolding Leaves has_db
  after_push-Leaves ev e (ok u) = (refl, refl)
  after_push-Leaves ev e (unexpected x) = (refl, refl)

  push-Leaves : (ev : EngineEvent F) (e : Engine F) → Leaves e (push_event ev e)
  unfolding push_event Leaves has_db
  push-Leaves ev e = after_push-Leaves ev _ _

  trans-Leaves : (e1 e2 e3 : Engine F) → Leaves e1 e2 → Leaves e2 e3 → Leaves e1 e3
  unfolding Leaves
  trans-Leaves e1 e2 e3 (a, b) (c, d) = (c ∙ a, d ∙ b)

  release-Leaves : (e : Engine F) → Leaves e (release_media w e)
  unfolding Leaves has_db release_media
  release-Leaves e = (refl, refl)

  finish-Leaves :
      (t : Track F) (s : F) (e : Engine F) (r : Engine F × Expected (Unit {0}))
      → Leaves e r.0
      → Leaves e (finish_play w t s r).0
  unfolding finish_play
  finish-Leaves t s e (e', ok u) h =
      trans-Leaves e e' _ h
        (trans-Leaves e' (begin_track w t s e') _ (begin-Leaves t s e') (push-Leaves _ _))
  finish-Leaves t s e (e', unexpected x) h = h

  play-Leaves : (t : Track F) (s : F) (e : Engine F) → Leaves e (do_play_track w t s e).0
  unfolding do_play_track
  play-Leaves t s e = finish-Leaves t _ e _ (
      trans-Leaves e (open_path w t (valid_start w s) (release_media w e)).0 _
        (trans-Leaves e (release_media w e) _ (release-Leaves e)
          (open_path-Leaves t (valid_start w s) (release_media w e)))
        (playable-Leaves t _ _))

  pub play_same :
      (t : Track F) (s : F) (e : Engine F)
      → ((do_play_track w t s e).0.queue ≡ e.queue)
        × (has_db w (do_play_track w t s e).0 ≡ has_db w e)
  unfolding Leaves
  play_same t s e = play-Leaves t s e

  pub started_view :
      (t : Track F) (s : F) (e : Engine F)
      → w.output_reply ≡ ok tt
      → Opens t
      → view (do_play_track w t s e).0 ≡ now_playing t.id
  started_view t s e out file = go (do_play_track-Starts w t s e)
    where
      go :
          Starts w t.id (view e) (do_play_track w t s e)
          → view (do_play_track w t s e).0 ≡ now_playing t.id
      go (inl (failed, b)) = absurd (ground (arith, plays_open t s e out file))
      go (inr (a, b)) = unfold view_of in b

  -- `n` calls of autoNext, one after the other.
  unfoldable pub auto_run : ℕ → Engine F → Engine F
  auto_run zero e = e
  auto_run (suc n) e = auto_run n (auto_next w e).0

module _ {F : Type 0} ⦃fl : Floats F⦄ (w : World F) (track_at : ℕ → Track F) (cnt : ℕ) where
  -- A queue in its own order, with repeat off, whose files open on a working device.
  pub record Playable (e : Engine F) : Type 0 where
    pub walks : Walks w track_at cnt e
    pub free : w.queue_free ≡ true
    pub no_repeat : e.queue.repeat ≡ off
    pub device : w.output_reply ≡ ok tt
    pub files : (p : ℕ) → p < cnt → Opens w (track_at p)

  auto_inside :
      (e : Engine F)
      → Playable e
      → e.queue.cursor < cnt
      → auto_next w e
        ≡ do_play_track w
            (track_at e.queue.cursor)
            (fl.of_int 0)
            (move_cursor w (e.queue.cursor + 1) e)
  unfolding auto_next advance_locked go_on at_end
  auto_inside e h lt =
      let order = h.walks.in_order in
      ground (
        arith,
        h.walks.open_db,
        order,
        h.no_repeat,
        h.free,
        h.walks.counted,
        next_inside w track_at cnt e h.walks lt,
      )

  auto_at_end :
      (e : Engine F) → Playable e → e.queue.cursor ≡ cnt → auto_next w e ≡ (halt_at_end w e, ok tt)
  unfolding auto_next advance_locked go_on at_end
  auto_at_end e h at =
      ground (arith, h.walks.open_db, h.walks.in_order, h.no_repeat, h.free, h.walks.counted)

  played_next :
      (e : Engine F)
      → Playable e
      → e.queue.cursor < cnt
      → (view (auto_next w e).0 ≡ now_playing (track_at e.queue.cursor).id)
        × Playable (auto_next w e).0
        × ((auto_next w e).0.queue.cursor ≡ e.queue.cursor + 1)
  played_next e h lt = rw (auto_inside e h lt) (
    started_view w t (fl.of_int 0) e1 h.device (h.files _ lt),
    record {
      walks =
          Walks-same w track_at cnt e1 e2 same.0 same.1
            (Walks-move_cursor w track_at cnt _ e (omega arith) h.walks);
      free = h.free;
      no_repeat = ap (λ (q : QueueState). q.repeat) queue-e2 ∙ h.no_repeat;
      device = h.device;
      files = h.files;
    },
    ap (λ (q : QueueState). q.cursor) queue-e2,
  )
    where
      t : Track F
      t = track_at e.queue.cursor

      e1 : Engine F
      e1 = move_cursor w (e.queue.cursor + 1) e

      e2 : Engine F
      e2 = (do_play_track w t (fl.of_int 0) e1).0

      same : (e2.queue ≡ e1.queue) × (has_db w e2 ≡ has_db w e1)
      same = play_same w t (fl.of_int 0) e1

      queue-e2 : e2.queue ≡ record e.queue { cursor = e.queue.cursor + 1 }
      queue-e2 = same.0 ∙ queue-move_cursor w (e.queue.cursor + 1) e

  -- In such a queue the `suc k`-th automatic transition from a cursor plays the track `k` places
  -- after it, as long as there is one.
  pub auto_run_plays :
      (k : ℕ) (e : Engine F)
      → Playable e
      → e.queue.cursor + k < cnt
      → view (auto_run w (suc k) e) ≡ now_playing (track_at (e.queue.cursor + k)).id
  unfolding auto_run
  auto_run_plays zero e h lt =
      (played_next e h (omega arith)).0 ∙ ap (λ (c : ℕ). now_playing (track_at c).id) at
    where
      at : e.queue.cursor ≡ e.queue.cursor + 0
      at = omega arith
  auto_run_plays (suc k) e h lt =
      let (shown, still, moved) = played_next e h (omega arith) in
      auto_run_plays k (auto_next w e).0 still (omega (arith, moved))
      ∙ ap (λ (c : ℕ). now_playing (track_at c).id) further
    where
      further : (auto_next w e).0.queue.cursor + k ≡ e.queue.cursor + suc k
      further = omega (arith, (played_next e h (omega arith)).2)

  -- In such a queue, after as many automatic transitions as there are tracks from the cursor on,
  -- one more stops playback.
  pub auto_run_halts :
      (k : ℕ) (e : Engine F)
      → Playable e
      → e.queue.cursor + k ≡ cnt
      → (view (auto_run w (suc k) e)).playback ≡ stopped
  unfolding auto_run
  auto_run_halts zero e h done =
      ap (λ (r : Reply F). (view r.0).playback) (auto_at_end e h (omega arith))
      ∙ ap (λ (n : Now). n.playback) (view-halt w e)
  auto_run_halts (suc k) e h done =
      let (shown, still, moved) = played_next e h (omega arith) in
      auto_run_halts k (auto_next w e).0 still (omega (arith, moved))
