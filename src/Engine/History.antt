-- ===== src/Engine/History.antt =====
-- The history entry of a track (doHistoryMark of src/engine/engine.cpp) is written once.
use caudio.Prelude.{◌≡◌, refl, ap, ◌∙◌, true, List, [], ◌∷◌, arith, has_value}
use caudio.Engine.{Floats, World, Engine}
use caudio.Engine.Tick.{is_due, do_history_mark}

module _ {F : Type 0} ⦃fl : Floats F⦄ where
  -- The history marks of successive ticks.
  unfoldable pub marks : List (World F) → Engine F → Engine F
  unfolding do_history_mark
  marks [] e = e
  marks (w ∷ ws) e = marks ws (do_history_mark w e)

  mark_marked : (w : World F) (e : Engine F) → e.marked_played ≡ true → do_history_mark w e ≡ e
  unfolding do_history_mark is_due
  mark_marked w e h = ground arith

  marked_stays : (ws : List (World F)) (e : Engine F) → e.marked_played ≡ true → marks ws e ≡ e
  unfolding marks
  marked_stays [] e h = refl
  marked_stays (w ∷ ws) e h = ap (marks ws) (mark_marked w e h) ∙ marked_stays ws e h

  -- Once the database has taken the entry of the current track, no later tick writes another one:
  -- the engine stays as the first mark left it, until another track begins.
  pub mark_once :
      (w : World F) (ws : List (World F)) (e : Engine F)
      → is_due w e ≡ true
      → has_value w.db.mark_played_reply ≡ true
      → marks (w ∷ ws) e ≡ do_history_mark w e
  unfolding marks
  mark_once w ws e due taken = marked_stays ws (do_history_mark w e) marked
    where
      marked : (do_history_mark w e).marked_played ≡ true
      marked = unfold do_history_mark in ground arith
