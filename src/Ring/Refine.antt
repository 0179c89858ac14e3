-- ===== src/Ring/Refine.antt =====
-- Any sequence of calls on SpscRing of include/caudio/utils/ring.hpp against a bounded list.
use caudio.Prelude.{
  ℕ, ◌+◌, ◌-◌, ◌*◌, ◌/◌, ◌≤◌, ◌<◌, ◌≡◌, ◌%◌, refl, sym, ap, ap₂, ◌∙◌, List, [], ◌∷◌, ◌++◌, some,
  arith, ltb, if◌then◌else◌, word, length, take, drop,
}
use native.Mathlib.Nat.{zero-mod, div-mul-le_self}
use caudio.Ring.{
  SpscRing, make, write, read, write_frames, read_frames, copy_in, available_read, available_write,
  reset, index,
}
use caudio.Ring.Spans.{span_write, span_read}
use caudio.Ring.Stored.{straight}
use caudio.Ring.Frames.{Holds, used-Holds}
use caudio.Ring.Fresh.{make-Holds}
use caudio.Ring.Writes.{write_frames-Holds}
use caudio.Ring.Reads.{read_frames-Holds}

-- The producer's calls and the consumer's, in the order in which they take effect.
pub data Call {ℓ} (T : Type ℓ) : Type ℓ where
  writes : List T → ℕ → Call T
  writes_span : List T → Call T
  reads : ℕ → Call T
  reads_span : ℕ → Call T
  readable : Call T
  writable : Call T
  resets : Call T

module _ {ℓ} {T : Type ℓ} where
  -- One call on the ring, with the samples that it delivers and the number that it returns.
  step : SpscRing T → Call T → SpscRing T × List T × ℕ
  step r (writes xs frames) = let (r', n) = write_frames r (some xs) frames in (r', [], n)
  step r (writes_span xs) = let (r', n) = write r xs in (r', [], n)
  step r (reads frames) = read_frames r frames
  step r (reads_span size) = read r size
  step r readable = (r, [], available_read r)
  step r writable = (r, [], available_write r)
  step r resets = (reset r, [], 0)

  pub run : SpscRing T → List (Call T) → List (List T × ℕ)
  run r [] = []
  run r (c ∷ cs) = let (r', xs, n) = step r c in (xs, n) ∷ run r' cs

  -- What the ring promises: a list of at most `cap` frames of `ch` samples, oldest first.
  fifo_write : ℕ → ℕ → ℕ → List T → List T → ℕ → (ℕ × List T) × List T × ℕ
  fifo_write cap ch n xs ys frames =
      let m = if ltb (cap - n) frames then cap - n else frames in
      ((n + m, xs ++ take (m * ch) ys), [], m)

  fifo_read : ℕ → ℕ → List T → ℕ → (ℕ × List T) × List T × ℕ
  fifo_read ch n xs frames =
      let m = if ltb n frames then n else frames in ((n - m, drop (m * ch) xs), take (m * ch) xs, m)

  fifo_step : ℕ → ℕ → ℕ → List T → Call T → (ℕ × List T) × List T × ℕ
  fifo_step cap ch n xs (writes ys frames) = fifo_write cap ch n xs ys frames
  fifo_step cap ch n xs (writes_span ys) = fifo_write cap ch n xs ys (length ys / ch)
  fifo_step cap ch n xs (reads frames) = fifo_read ch n xs frames
  fifo_step cap ch n xs (reads_span size) = fifo_read ch n xs (size / ch)
  fifo_step cap ch n xs readable = ((n, xs), [], n)
  fifo_step cap ch n xs writable = ((n, xs), [], cap - n)
  fifo_step cap ch n xs resets = ((0, []), [], 0)

  pub fifo_run : ℕ → ℕ → ℕ → List T → List (Call T) → List (List T × ℕ)
  fifo_run cap ch n xs [] = []
  fifo_run cap ch n xs (c ∷ cs) =
      let ((m, left), ys, k) = fifo_step cap ch n xs c in (ys, k) ∷ fifo_run cap ch m left cs

  -- The frames that a call offers, and whether its buffer has them.
  unfoldable pub offered : ℕ → Call T → ℕ
  offered ch (writes xs frames) = frames
  offered ch (writes_span xs) = length xs / ch
  offered ch (reads frames) = 0
  offered ch (reads_span size) = 0
  offered ch readable = 0
  offered ch writable = 0
  offered ch resets = 0

  unfoldable pub HasFrames : ℕ → Call T → Type 0
  HasFrames ch (writes xs frames) = frames * ch ≤ length xs
  HasFrames ch (writes_span xs) = Unit {0}
  HasFrames ch (reads frames) = Unit {0}
  HasFrames ch (reads_span size) = Unit {0}
  HasFrames ch readable = Unit {0}
  HasFrames ch writable = Unit {0}
  HasFrames ch resets = Unit {0}

  unfoldable pub all_offered : ℕ → List (Call T) → ℕ
  all_offered ch [] = 0
  all_offered ch (c ∷ cs) = offered ch c + all_offered ch cs

  unfoldable pub AllHaveFrames : ℕ → List (Call T) → Type 0
  AllHaveFrames ch [] = Unit {0}
  AllHaveFrames ch (c ∷ cs) = HasFrames ch c × AllHaveFrames ch cs

  cap-step :
      (r : SpscRing T) (c : Call T)
      → ((step r c).0.cap ≡ r.cap) × ((step r c).0.channels ≡ r.channels)
  unfolding step write read write_frames read_frames copy_in reset
  cap-step r (writes xs frames) = (ground arith, ground arith)
  cap-step r (writes_span xs) = (ground arith, ground arith)
  cap-step r (reads frames) = (ground arith, ground arith)
  cap-step r (reads_span size) = (ground arith, ground arith)
  cap-step r readable = (refl, refl)
  cap-step r writable = (refl, refl)
  cap-step r resets = (refl, refl)

  wr-step :
      (r : SpscRing T) (c : Call T)
      → r.wr + offered r.channels c < word
      → (step r c).0.wr ≤ r.wr + offered r.channels c
  unfolding step write read write_frames read_frames copy_in reset offered
  wr-step r (writes xs frames) w = ground arith
  wr-step r (writes_span xs) w = ground arith
  wr-step r (reads frames) w = ground arith
  wr-step r (reads_span size) w = ground arith
  wr-step r readable w = omega arith
  wr-step r writable w = omega arith
  wr-step r resets w = omega arith

  reset-Holds : (r : SpscRing T) (n : ℕ) (xs : List T) → Holds r n xs → Holds (reset r) 0 []
  unfolding reset index
  reset-Holds r n xs h = record {
    positive = h.positive;
    audible = h.audible;
    storage = h.storage;
    counters = refl;
    bounded = omega arith;
    in_word = omega arith;
    samples = (let none : 0 ≡ 0 * r.channels = omega arith in none);
    slot = h.slot;
    stored = straight [] r.buf at refl;
  }
    where
      at : 0 ≡ 0 % r.cap * r.channels
      at =
          (let none : 0 ≡ 0 * r.channels = omega arith in none)
          ∙ ap (λ (c : ℕ). c * r.channels) (sym (zero-mod r.cap))

  writable-Holds :
      (r : SpscRing T) (n : ℕ) (xs : List T) → Holds r n xs → available_write r ≡ r.cap - n
  unfolding available_write
  writable-Holds r n xs h = ap (λ (u : ℕ). r.cap - u) (used-Holds r n xs h)

  readable-Holds : (r : SpscRing T) (n : ℕ) (xs : List T) → Holds r n xs → available_read r ≡ n
  unfolding available_read
  readable-Holds r n xs h = used-Holds r n xs h

  step_refines :
      (r : SpscRing T) (n : ℕ) (xs : List T) (c : Call T)
      → Holds r n xs
      → HasFrames r.channels c
      → r.wr + offered r.channels c < word
      → let after = fifo_step r.cap r.channels n xs c in
        Holds (step r c).0 after.0.0 after.0.1 × ((step r c).1 ≡ after.1) × ((step r c).2 ≡ after.2)
  unfolding step fifo_step fifo_write fifo_read HasFrames offered
  step_refines r n xs (writes ys frames) h le w =
      let (kept, count) = write_frames-Holds r n frames xs ys h le w in (kept, refl, count)
  step_refines r n xs (writes_span ys) h le w =
      let (kept, count) =
        write_frames-Holds r n (length ys / r.channels) xs ys h
          (div-mul-le_self (length ys) r.channels) w in
      rw (span_write r ys) (kept, refl, count)
  step_refines r n xs (reads frames) h le w = read_frames-Holds r n frames xs h
  step_refines r n xs (reads_span size) h le w =
      rw (span_read r size) (read_frames-Holds r n (size / r.channels) xs h)
  step_refines r n xs readable h le w = (h, refl, readable-Holds r n xs h)
  step_refines r n xs writable h le w = (h, refl, writable-Holds r n xs h)
  step_refines r n xs resets h le w = (reset-Holds r n xs h, refl, refl)

  run_refines :
      (cs : List (Call T)) (r : SpscRing T) (cap ch n : ℕ) (xs : List T)
      → r.cap ≡ cap
      → r.channels ≡ ch
      → Holds r n xs
      → AllHaveFrames ch cs
      → r.wr + all_offered ch cs < word
      → run r cs ≡ fifo_run cap ch n xs cs
  unfolding run fifo_run AllHaveFrames all_offered
  run_refines [] r cap ch n xs e f h le w = refl
  run_refines (c ∷ cs) r cap ch n xs e f h (one, le) w =
      let same : offered r.channels c ≡ offered ch c = ap (λ (j : ℕ). offered j c) f in
      let all : all_offered r.channels cs ≡ all_offered ch cs =
        ap (λ (j : ℕ). all_offered j cs) f in
      let (kept, out, count) = step_refines r n xs c h (rw f one) (omega arith) in
      let (same_cap, same_ch) = cap-step r c in
      ap₂ ◌∷◌ (ap₂ (λ (ys : List T) (k : ℕ). (ys, k)) out count) (
        run_refines cs (step r c).0 r.cap r.channels _ _ same_cap same_ch kept (rw f le)
          (omega (arith, wr-step r c (omega arith))))
      ∙ ap₂ (λ (k j : ℕ). fifo_run k j n xs (c ∷ cs)) e f

  -- Every sequence of calls on a fresh ring with a capacity and channels, whose product is below
  -- 2^64, which offers fewer than 2^64 frames in all from buffers that have them, delivers and
  -- returns, call by call, what a list bounded by the capacity does, oldest frame first.
  pub run-make_refines_fifo :
      (default : T) (cap channels : ℕ) (cs : List (Call T))
      → 0 < cap
      → 0 < channels
      → cap * channels < word
      → AllHaveFrames channels cs
      → all_offered channels cs < word
      → run (make default cap channels) cs ≡ fifo_run cap channels 0 [] cs
  run-make_refines_fifo default cap channels cs pos audible fits le w =
      unfold make in
      run_refines cs (make default cap channels) cap channels 0 [] refl refl
        (make-Holds default cap channels pos audible fits) le (omega arith)
