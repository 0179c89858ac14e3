-- ===== src/Engine/Tests/Orders.antt =====
-- The queue's orders (queueNextLocked, queuePrevLocked, setShuffleLocked) on a queue of three.
use mathlib.Core.List.{Perm}
use mathlib.Core.List.Perm
use caudio.Prelude.{ℕ, zero, suc, ◌%◌, ◌<◌, ◌≡◌, refl, true, List, [], ◌∷◌, map, arith, get_or, ok}
use caudio.Engine.{Engine, all}
use caudio.Engine.Persist.{has_db, persist_cursor_locked, fetch_track_by_pos_locked}
use caudio.Engine.Traverse.{positions, queue_next_locked, queue_prev_locked, set_shuffle_locked}
use caudio.Engine.Traverse.Cycle.{next_run}
use caudio.Engine.Traverse.Linear.{Walks, next_run_linear, prev-next-next}
use caudio.Engine.Traverse.Shuffled.{Draws, item, next_run_shuffled, wrap_keeps_order}
use caudio.Engine.Traverse.Pass.{Undrawn, shuffled_pass}
use caudio.Engine.Tests.{whole, song, world, in_order, engine_at}

loads_three : (p : ℕ) → p < 3 → world.db.queue_track_at 1 p ≡ ok (song p)
loads_three zero h = refl
loads_three (suc zero) h = refl
loads_three (suc (suc zero)) h = refl
loads_three (suc (suc (suc p))) h = absurd (omega arith)

-- The queue in its own order, with the cursor at `c`.
abbrev linear_at : ℕ → Engine ℕ
linear_at c = engine_at (record in_order { cursor = c })

linear_at-Walks : (c : ℕ) → c < 4 → Walks world song 3 (linear_at c)
linear_at-Walks c h = record {
  open_db = unfold has_db in refl;
  in_order = refl;
  named = λ e. absurd (omega arith);
  wraps = refl;
  counted = refl;
  loads = loads_three;
  nonempty = omega arith;
  sized = omega arith;
  placed = omega arith;
}

next_run_linear_example :
    next_run world 5 (linear_at 2) ≡ map (λ p. ok (song (p % 3))) (positions 2 5)
next_run_linear_example =
    next_run_linear world song 3 5 (linear_at 2) (linear_at-Walks 2 (omega arith))

abbrev drawn : List ℕ
drawn = 1 ∷ 2 ∷ 0 ∷ []

abbrev shuffled_at : ℕ → Engine ℕ
shuffled_at c =
    engine_at (record { shuffle = true; repeat = all; perm = drawn; cursor = c; queue_id = 1 })

drawn_loads :
    (i : ℕ) → i < 3 → world.db.queue_track_at 1 (get_or drawn i 0) ≡ ok (song (get_or drawn i 0))
drawn_loads zero h = refl
drawn_loads (suc zero) h = refl
drawn_loads (suc (suc zero)) h = refl
drawn_loads (suc (suc (suc p))) h = absurd (omega arith)

shuffled_at-Draws : (c : ℕ) → c < 4 → Draws world song drawn (shuffled_at c)
shuffled_at-Draws c h = record {
  open_db = unfold has_db in refl;
  shuffled = refl;
  named = λ e. absurd (omega arith);
  wraps = refl;
  order = refl;
  loads = drawn_loads;
  nonempty = omega arith;
  sized = omega arith;
  placed = omega arith;
}

-- From the end of the order on: round to its start, the same order again.
next_run_shuffled_example :
    next_run world 4 (shuffled_at 3) ≡ map (λ i. ok (item world song drawn (i % 3))) (positions 3 4)
next_run_shuffled_example =
    next_run_shuffled world song drawn 4 (shuffled_at 3) (shuffled_at-Draws 3 (omega arith))

wrap_keeps_order_example :
    ((queue_next_locked world (shuffled_at 3)).1 ≡ ok (song 1))
    × ((queue_next_locked world (shuffled_at 3)).0.queue
        ≡ record { shuffle = true; repeat = all; perm = drawn; cursor = 1; queue_id = 1 })
wrap_keeps_order_example =
    wrap_keeps_order world song drawn (shuffled_at 3) (shuffled_at-Draws 3 (omega arith)) refl

inside : (queue_next_locked world (linear_at 0)).0.queue.cursor < 3
unfolding queue_next_locked persist_cursor_locked fetch_track_by_pos_locked
inside = omega arith

prev-next-next_example :
    let first = queue_next_locked world (linear_at 0) in
    let back = queue_prev_locked world (queue_next_locked world first.0).0 in
    (back.1 ≡ first.1) × (back.0.queue ≡ first.0.queue)
prev-next-next_example =
    prev-next-next world song 3 (linear_at 0) (linear_at-Walks 0 (omega arith)) inside

linear_at-Undrawn : Undrawn world song 3 (linear_at 2)
linear_at-Undrawn = record {
  open_db = unfold has_db in refl;
  no_order = refl;
  named = λ e. absurd (omega arith);
  wraps = refl;
  counted = refl;
  loads = loads_three;
  nonempty = omega arith;
  sized = omega arith;
  fair = Perm.trans (Perm.cons 1 (Perm.swap 0 2 [])) (Perm.swap 0 1 (2 ∷ []));
}

shuffled_pass_example :
    let e = (set_shuffle_locked world true (linear_at 2)).0 in
    (next_run world 3 e ≡ map (λ p. ok (song p)) e.queue.perm)
    × Perm (next_run world 3 e) (map (λ p. ok (song p)) (positions 0 3))
shuffled_pass_example = shuffled_pass world song 3 (linear_at 2) linear_at-Undrawn
