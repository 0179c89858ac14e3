-- ===== src/Engine/Traverse/Cycle.antt =====
-- Repeated calls of queueNextLocked of src/engine/engine.cpp, and what moving the cursor leaves.
use native.Mathlib.Nat.{mod-add-mod}
use caudio.Prelude.{
  ℕ, zero, suc, ◌+◌, ◌%◌, ◌≡◌, refl, sym, ap, ap₂, ◌∙◌, List, [], ◌∷◌, map, arith, Expected, ok,
}
use caudio.Engine.{Floats, Track, World, Engine}
use caudio.Engine.Persist.{persist_cursor_locked, has_db}
use caudio.Engine.Traverse.{positions, move_cursor, queue_next_locked}

module _ {F : Type 0} ⦃fl : Floats F⦄ (w : World F) where
  -- `n` calls of queueNextLocked, one after the other.
  unfoldable pub next_run : ℕ → Engine F → List (Expected (Track F))
  next_run zero e = []
  next_run (suc n) e = let (e', r) = queue_next_locked w e in r ∷ next_run n e'

  pub queue-move_cursor :
      (c : ℕ) (e : Engine F) → (move_cursor w c e).queue ≡ record e.queue { cursor = c }
  unfolding move_cursor persist_cursor_locked
  queue-move_cursor c e = ground arith

  pub has_db-move_cursor : (c : ℕ) (e : Engine F) → has_db w (move_cursor w c e) ≡ has_db w e
  unfolding move_cursor persist_cursor_locked
  has_db-move_cursor c e = ground arith

module _ {F : Type 0} ⦃fl : Floats F⦄ (w : World F) (Inv : Engine F → Type 0) (cnt : ℕ)
    (item : ℕ → Track F)
    (step : (e : Engine F)
      → Inv e
      → Inv (queue_next_locked w e).0
        × ((queue_next_locked w e).0.queue.cursor ≡ e.queue.cursor % cnt + 1)
        × ((queue_next_locked w e).1 ≡ ok (item (e.queue.cursor % cnt)))) where
  pub cycle_run :
      (n b : ℕ) (e : Engine F)
      → Inv e
      → b % cnt ≡ e.queue.cursor % cnt
      → next_run w n e ≡ map (λ p. ok (item (p % cnt))) (positions b n)
  unfolding next_run
  cycle_run zero b e h at = refl
  cycle_run (suc n) b e h at =
      let (still, moved, track) = step e h in
      ap₂ ◌∷◌ (track ∙ ap (λ (p : ℕ). ok (item p)) (sym at)) (
        cycle_run n (b + 1) (queue_next_locked w e).0 still (
          sym (mod-add-mod b cnt 1)
          ∙ ap (λ (p : ℕ). (p + 1) % cnt) at
          ∙ ap (λ (p : ℕ). p % cnt) (sym moved)))
