-- ===== src/Ring/Reads.antt =====
-- SpscRing::read of include/caudio/utils/ring.hpp: frames come out in the order in which they went in.
use native.Mathlib.Nat.{mod-eq_of_lt}
use native.Mathlib.Decide.{dec_lt}
use caudio.Prelude.{
  ℕ, ◌+◌, ◌-◌, ◌*◌, ◌%◌, ◌≤◌, ◌<◌, ◌≡◌, ◌⊎◌, inl, inr, refl, List, [], arith, take, drop, ltb,
  add_size, ◌==◌, ◌||◌, Bool-cases, if◌then◌else◌, word, true, false,
}
use caudio.Ring.{SpscRing, index, copy_out, read_frames}
use caudio.Ring.Copies.{length-drop}
use caudio.Ring.Frames.{plus_samples, longer_zero, no_room, at_most, Holds, used-Holds}
use caudio.Ring.Delivered.{Took, copy_out_lem}

module _ {ℓ} {T : Type ℓ} where
  read_run :
      (r : SpscRing T) (n frames : ℕ) (xs : List T)
      → Holds r n xs
      → 0 < frames
      → 0 < n
      → let m = if ltb n frames then n else frames in
        read_frames r frames ≡ (record r { rd = add_size r.rd m }, copy_out r m, m)
  unfolding read_frames
  read_run r n frames xs h asked pending = simp (wanted, used-Holds r n xs h, some_stored)
    where
      wanted : (frames == 0 || r.cap == 0) ≡ false
      wanted = ground (arith, h.positive)

      some_stored : (n == 0) ≡ false
      some_stored = ground arith

  taken-Holds :
      (r : SpscRing T) (n m : ℕ) (xs : List T)
      → Holds r n xs
      → m ≤ n
      → Holds (record r { rd = add_size r.rd m }) (n - m) (drop (m * r.channels) xs)
  unfolding index
  taken-Holds r n m xs h le = record {
    positive = h.positive;
    audible = h.audible;
    storage = h.storage;
    counters = omega (arith, h.counters, moved);
    bounded = omega (arith, h.bounded);
    in_word = h.in_word;
    samples = omega (arith, h.samples, length-drop (m * r.channels) xs, pieces);
    slot = h.slot;
    stored = rw moved (unfold Took in (copy_out_lem r n m xs h le).1);
  }
    where
      moved : (r.rd + m) % word ≡ r.rd + m
      moved = mod-eq_of_lt (omega (arith, h.counters, h.in_word))

      pieces : m * r.channels + (n - m) * r.channels ≡ n * r.channels
      pieces = plus_samples m (n - m) n r.channels (omega arith)

  read_none :
      (r : SpscRing T) (n frames : ℕ) (xs : List T)
      → Holds r n xs
      → (frames ≡ 0) ⊎ (n ≡ 0)
      → read_frames r frames ≡ (r, [], 0)
  unfolding read_frames
  read_none r n frames xs h (inl none) = simp none
  read_none r n frames xs h (inr empty) = elim (Bool-cases (frames == 0 || r.cap == 0)) [
    | inl nothing ↦ simp nothing
    | inr asked ↦ simp (asked, used-Holds r n xs h, nothing_stored)
  ]
    where
      nothing_stored : (n == 0) ≡ true
      nothing_stored = ground arith

  was_read_none :
      (r : SpscRing T) (n m frames : ℕ) (xs : List T)
      → Holds r n xs
      → m ≡ 0
      → read_frames r frames ≡ (r, [], 0)
      → Holds (read_frames r frames).0 (n - m) (drop (m * r.channels) xs)
        × ((read_frames r frames).1 ≡ take (m * r.channels) xs)
        × ((read_frames r frames).2 ≡ m)
  was_read_none r n m frames xs h z run = rw (run, z, no_samples) ((rw same h), refl, refl)
    where
      no_samples : 0 * r.channels ≡ 0
      no_samples = omega arith

      same : n - 0 ≡ n
      same = omega arith

  was_read :
      (r : SpscRing T) (n m frames : ℕ) (xs : List T)
      → Holds r n xs
      → m ≤ n
      → read_frames r frames ≡ (record r { rd = add_size r.rd m }, copy_out r m, m)
      → Holds (read_frames r frames).0 (n - m) (drop (m * r.channels) xs)
        × ((read_frames r frames).1 ≡ take (m * r.channels) xs)
        × ((read_frames r frames).2 ≡ m)
  was_read r n m frames xs h le run =
      rw run (taken-Holds r n m xs h le, (unfold Took in (copy_out_lem r n m xs h le).0), refl)

  -- A read delivers as many of the stored frames as were asked for and are there, the oldest first,
  -- returns their number, and leaves the others stored.
  pub read_frames-Holds :
      (r : SpscRing T) (n frames : ℕ) (xs : List T)
      → Holds r n xs
      → let m = if ltb n frames then n else frames in
        Holds (read_frames r frames).0 (n - m) (drop (m * r.channels) xs)
        × ((read_frames r frames).1 ≡ take (m * r.channels) xs)
        × ((read_frames r frames).2 ≡ m)
  read_frames-Holds r n frames xs h = elim (dec_lt 0 frames) [
    | no none ↦
        was_read_none r n _ frames xs h (longer_zero n frames (omega arith))
          (read_none r n frames xs h (inl (omega arith)))
    | yes asked ↦ elim (dec_lt 0 n) [
      | no empty ↦
          was_read_none r n _ frames xs h (no_room n frames (omega arith))
            (read_none r n frames xs h (inr (omega arith)))
      | yes pending ↦
          was_read r n _ frames xs h (at_most n frames).1 (read_run r n frames xs h asked pending)
    ]
  ]
