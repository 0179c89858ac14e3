-- ===== src/Mpsc/Tests.antt =====
-- The queue of src/utils/mpsc_queue.hpp at an instance.
use caudio.Prelude.{ℕ, ◌≡◌, true, false, List, [], ◌∷◌, arith, if◌then◌else◌, ◌==◌}
use caudio.Mpsc.{make}
use caudio.Mpsc.Refine.{Call, pushes, pops, waits, run, fifo_run, run-make_refines}

-- A queue of one: the second push fails, and the wait after the stop takes nothing.
abbrev calls : List (Call ℕ)
calls = pushes 7 ∷ pushes 8 ∷ waits true ∷ pops ∷ waits false ∷ []

run-make_refines_example : run (make 0) calls ≡ fifo_run (if 0 == 0 then 1 else 0) [] calls
run-make_refines_example = run-make_refines 0 calls (omega arith)
