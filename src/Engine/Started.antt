-- ===== src/Engine/Started.antt =====
-- What doPlayTrack of src/engine/engine.cpp leaves of what a client sees: a started track, or the
-- old picture with an error.
use caudio.Prelude.{
  ℕ, ◌≡◌, refl, ◌∙◌, Bool, true, false, ◌⊎◌, inl, inr, arith, Expected, ok, unexpected, has_value,
}
use caudio.Engine.{Floats, Track, World, Engine, Media}
use caudio.Engine.Play.{
  open_path, open_output, playable, begin_track, finish_play, do_play_track, release_media,
  valid_start,
}
use caudio.Engine.View.{Now, view, view_of, now_playing, view-push_event}

module _ {F : Type 0} ⦃fl : Floats F⦄ (w : World F) where
  view-release : (e : Engine F) → view (release_media w e) ≡ view e
  unfolding view release_media
  view-release e = refl

  view-open_output : (m : Media) (e : Engine F) → view (open_output w m e) ≡ view e
  unfolding view open_output
  view-open_output m e = ground arith

  view-open_path : (t : Track F) (s : F) (e : Engine F) → view (open_path w t s e).0 ≡ view e
  unfolding view open_path
  view-open_path t s e = ground arith

  view-playable : (t : Track F) (b : Bool) (e : Engine F) → view_of (playable w t b e) ≡ view e
  unfolding view view_of playable
  view-playable t true e = ground arith
  view-playable t false e = ground arith

  view-begin_track :
      (t : Track F) (s : F) (e : Engine F) → view (begin_track w t s e) ≡ now_playing t.id
  unfolding view begin_track
  view-begin_track t s e = ground arith

  -- A step that fails shows no change; one that succeeds shows `t` playing.
  abbrev pub Starts : ℕ → Now → Engine F × Expected (Unit {0}) → Type 0
  Starts t n r =
      (has_value r.1 ≡ false) × (view_of r ≡ n)
      ⊎ (has_value r.1 ≡ true) × (view_of r ≡ now_playing t)

  finish_play-Starts :
      (t : Track F) (s : F) (r : Engine F × Expected (Unit {0})) (n : Now)
      → view_of r ≡ n
      → Starts t.id n (finish_play w t s r)
  unfolding view_of finish_play
  finish_play-Starts t s (e, ok u) n p =
      inr (refl, view-push_event w _ (begin_track w t s e) ∙ view-begin_track t s e)
  finish_play-Starts t s (e, unexpected x) n p = inl (refl, p)

  pub do_play_track-Starts :
      (t : Track F) (s : F) (e : Engine F) → Starts t.id (view e) (do_play_track w t s e)
  unfolding do_play_track
  do_play_track-Starts t s e = finish_play-Starts t _ _ (view e) (
      view-playable t _ _ ∙ view-open_path t (valid_start w s) (release_media w e) ∙ view-release e)
