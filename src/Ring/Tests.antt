-- ===== src/Ring/Tests.antt =====
-- Runs of SpscRing, the ring of include/caudio/utils/ring.hpp.
use caudio.Prelude.{ℕ, ◌%◌, ◌≡◌, refl, List, [], ◌∷◌, ◌++◌, some, arith, take, drop}
use caudio.Ring.{SpscRing, index, make, write_frames, copy_in, used_of, read_frames, copy_out}
use caudio.Ring.Mask.{index-make}
use caudio.Ring.Frames.{Holds}
use caudio.Ring.Fresh.{make-Holds}
use caudio.Ring.Writes.{write_frames-Holds}
use caudio.Ring.Reads.{read_frames-Holds}
use caudio.Ring.Refine.{
  Call, writes, writes_span, reads, reads_span, readable, writable, resets, run, fifo_run,
  AllHaveFrames, all_offered, HasFrames, offered, run-make_refines_fifo,
}

-- Three stereo frames of room.
abbrev stereo : SpscRing ℕ
stereo = make 0 3 2

abbrev two_frames : List ℕ
two_frames = 11 ∷ 12 ∷ 21 ∷ 22 ∷ []

abbrev filled : SpscRing ℕ
filled = (write_frames stereo (some two_frames) 2).0

stereo-Holds : Holds stereo 0 []
stereo-Holds = make-Holds 0 3 2 (omega arith) (omega arith) (omega arith)

filled-Holds : Holds filled 2 two_frames
unfolding make
filled-Holds =
    (write_frames-Holds stereo 0 2 [] two_frames stereo-Holds (omega arith) (omega arith)).0

-- Room for one frame, then around the end of the storage.
around :
    (read_frames (write_frames (read_frames filled 1).0 (some (31 ∷ 32 ∷ 41 ∷ 42 ∷ [])) 2).0 9).1
    ≡ 21 ∷ 22 ∷ 31 ∷ 32 ∷ 41 ∷ 42 ∷ []
unfolding make write_frames read_frames copy_in copy_out used_of index
around = refl

index-make_example : index {T = ℕ} (make 0 4 2) 11 ≡ 11 % 4
index-make_example = index-make {T = ℕ} 0 4 2 (make 0 4 2) 11 (omega arith) refl refl

write_frames-Holds_example :
    Holds (write_frames filled (some two_frames) 2).0 3 (two_frames ++ take 2 two_frames)
    × ((write_frames filled (some two_frames) 2).1 ≡ 1)
unfolding write_frames make used_of copy_in
write_frames-Holds_example =
    write_frames-Holds filled 2 2 two_frames two_frames filled-Holds (omega arith) (omega arith)

read_frames-Holds_example :
    Holds (read_frames filled 1).0 1 (drop 2 two_frames)
    × ((read_frames filled 1).1 ≡ take 2 two_frames)
    × ((read_frames filled 1).2 ≡ 1)
unfolding write_frames make used_of copy_in
read_frames-Holds_example = read_frames-Holds filled 2 1 two_frames filled-Holds

abbrev calls : List (Call ℕ)
calls =
    writes two_frames 2
    ∷ reads 1
    ∷ writes (31 ∷ 32 ∷ 41 ∷ 42 ∷ 51 ∷ 52 ∷ []) 3
    ∷ writes_span two_frames
    ∷ writable
    ∷ reads_span 19
    ∷ readable
    ∷ resets
    ∷ []

run-make_refines_fifo_example : run (make 0 3 2) calls ≡ fifo_run 3 2 0 [] calls
unfolding AllHaveFrames all_offered HasFrames offered
run-make_refines_fifo_example =
    run-make_refines_fifo 0 3 2 calls (omega arith) (omega arith) (omega arith)
      (omega arith, (tt, (omega arith, (tt, (tt, (tt, (tt, (tt, tt)))))))) (omega arith)
