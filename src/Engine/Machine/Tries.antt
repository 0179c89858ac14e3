-- ===== src/Engine/Machine/Tries.antt =====
-- The commands of src/engine/engine.cpp that look for a track and start it.
use caudio.Prelude.{
  ℕ, ◌≡◌, refl, ◌∙◌, Bool, true, false, not, ◌||◌, is_neg, Option, none, some, Option-cases, inl,
  inr, ◌==◌, if◌then◌else◌, Expected, Error, ok, unexpected, has_value,
}
use caudio.Engine.{Floats, Track, World, Engine}
use caudio.Engine.Persist.{has_db, and_then}
use caudio.Engine.Traverse.{with_cursor, queue_next_locked, is_empty}
use caudio.Engine.Transport.{Reply}
use caudio.Engine.Commands.{
  play_found, play_from_cursor, start_offset, try_auto_resume, play_stopped, locate, index_of,
  found_in_order, play_index, play_track, prev,
}
use caudio.Engine.View.{
  Now, view, view_of, now_playing, stays, view-and_then, view-if, view-queue_next, view-queue_prev,
  view-set_shuffle,
}
use caudio.Engine.Started.{Starts, do_play_track-Starts}

-- An error that shows no change, or a track that plays.
pub data Tries {F : Type 0} (n : Now) (r : Reply F) : Type 0 where
  fails : has_value r.1 ≡ false → view_of r ≡ n → Tries n r
  played : (t : ℕ) → has_value r.1 ≡ true → view_of r ≡ now_playing t → Tries n r

module _ {F : Type 0} ⦃fl : Floats F⦄ (w : World F) where
  Tries-of_Starts : (t : ℕ) (n n' : Now) (r : Reply F) → Starts w t n r → n ≡ n' → Tries n' r
  Tries-of_Starts t n n' r (inl (a, b)) p = fails a (b ∙ p)
  Tries-of_Starts t n n' r (inr (a, b)) p = played t a b

  pub play_found-Tries :
      (s : F) (n : Now) (r : Engine F × Expected (Track F))
      → view_of r ≡ n
      → Tries n (play_found w s r)
  unfolding view_of
  play_found-Tries s n (e, ok t) p =
      Tries-of_Starts t.id (view e) n _ (do_play_track-Starts w t s e) p
  play_found-Tries s n (e, unexpected x) p = fails refl p

  play_from_cursor-Tries :
      (n : Now) (r : Engine F × Expected (Track F)) → view_of r ≡ n → Tries n (play_from_cursor w r)
  unfolding view_of play_from_cursor
  play_from_cursor-Tries n (e, ok t) p =
      Tries-of_Starts t.id (view e) n _ (do_play_track-Starts w t (start_offset w t e) e) p
  play_from_cursor-Tries n (e, unexpected x) p = fails refl p

  from_cursor-Tries :
      (n : Now) (e : Engine F) → view e ≡ n → Tries n (play_from_cursor w (queue_next_locked w e))
  from_cursor-Tries n e p = play_from_cursor-Tries n _ (view-queue_next w e ∙ p)

  auto_resume-Tries :
      (idx : ℕ) (n : Now) (e : Engine F) → view e ≡ n → Tries n (try_auto_resume w idx e)
  unfolding view try_auto_resume
  auto_resume-Tries idx n e p = play_found-Tries _ n _ (view-queue_next w (with_cursor e idx) ∙ p)

  Tries-if :
      (b : Bool) (x y : Reply F) (n : Now) → Tries n x → Tries n y → Tries n (if b then x else y)
  Tries-if true x y n p q = p
  Tries-if false x y n p q = q

  retry-Tries :
      (n : Now) (r : Reply F)
      → Tries n r
      → Tries n (if has_value r.1 then r else play_from_cursor w (queue_next_locked w r.0))
  unfolding view_of
  retry-Tries n (e, ok u) h = h
  retry-Tries n (e, unexpected x) (fails a b) = from_cursor-Tries n e b
  retry-Tries n (e, unexpected x) (played t a b) = cc

  pub play_stopped-Tries : (e : Engine F) → Tries (view e) (play_stopped w e)
  unfolding play_stopped
  play_stopped-Tries e = Tries-if _ _ _ (view e) persisted (from_cursor-Tries (view e) e refl)
    where
      persisted :
          Tries
            (view e)
            (elim (w.db.queue_index_of e.queue.queue_id e.state.current_track_id)
              as (λ x. Reply F) [
                | none ↦ play_from_cursor w (queue_next_locked w e)
                | some idx ↦
                    (let r = try_auto_resume w idx e in
                      if has_value r.1 then r else play_from_cursor w (queue_next_locked w r.0))
              ])
      persisted =
          elim (Option-cases (w.db.queue_index_of e.queue.queue_id e.state.current_track_id)) [
            | inl p ↦ rw p (from_cursor-Tries (view e) e refl)
            | inr (idx, p) ↦ rw p (retry-Tries (view e) _ (auto_resume-Tries idx (view e) e refl))
          ]

  Tries-fails : (n : Now) (e : Engine F) (x : Error) → view e ≡ n → Tries n (e, unexpected x)
  Tries-fails n e x p = fails refl (stays _ _ ∙ p)

  Tries-and_then :
      {B : Type 0} (r : Engine F × Expected B) (f : B → Engine F → Reply F) (n : Now)
      → view_of r ≡ n
      → ((b : B) (e : Engine F) → view e ≡ n → Tries n (f b e))
      → Tries n (and_then r f)
  unfolding view_of
  Tries-and_then (e, ok b) f n p q = q b e p
  Tries-and_then (e, unexpected x) f n p q = fails refl p

  view-found_in_order : (o : Option ℕ) (e : Engine F) → view_of (found_in_order w o e) ≡ view e
  view-found_in_order none e = stays _ _
  view-found_in_order (some i) e = stays _ _

  view-locate : (idx : ℕ) (e : Engine F) → view_of (locate w idx e) ≡ view e
  unfolding locate
  view-locate idx e =
      view-if _ _ _ _
        (view-and_then _ _ _
          (view-if (is_empty e.queue.perm) _ (e, ok tt) _ (view-set_shuffle w true e) (stays e _))
          (λ u e' p. view-found_in_order (index_of idx e'.queue.perm) e' ∙ p))
        (stays e (ok idx))

  view-with_cursor : (e : Engine F) (c : ℕ) → view (with_cursor e c) ≡ view e
  unfolding view
  view-with_cursor e c = refl

  play_index-Tries : (o : Option ℕ) (e : Engine F) → Tries (view e) (play_index w o e)
  play_index-Tries none e = Tries-fails (view e) e _ refl
  play_index-Tries (some idx) e =
      Tries-and_then (locate w idx e) _ (view e) (view-locate idx e)
        (λ c e' p. play_found-Tries _ (view e) _ (view-queue_next w _ ∙ view-with_cursor e' c ∙ p))

  pub play_track-Tries : (t : ℕ) (e : Engine F) → Tries (view e) (play_track w t e)
  unfolding play_track
  play_track-Tries t e =
      Tries-if (not (has_db w e)) (e, unexpected _) _ (view e) (Tries-fails _ e _ refl)
        (Tries-if (t == 0 || is_neg t) (e, unexpected _) _ (view e) (Tries-fails _ e _ refl)
          (Tries-if w.queue_free _ (e, unexpected _) (view e)
            (play_index-Tries (w.db.queue_index_of e.queue.queue_id t) e) (Tries-fails _ e _ refl)))

  pub prev-Tries : (e : Engine F) → Tries (view e) (prev w e)
  unfolding prev
  prev-Tries e =
      Tries-if _ _ _ _ (Tries-fails _ e _ refl)
        (Tries-if _ _ _ _ (play_found-Tries _ _ _ (view-queue_prev w e)) (Tries-fails _ e _ refl))
