-- ===== src/Ring/Writes.antt =====
-- SpscRing::write of include/caudio/utils/ring.hpp: frames go in behind the stored ones.
use native.Mathlib.Nat.{add-mul, mod-eq_of_lt}
use native.Mathlib.Decide.{dec_lt}
use mathlib.Core.List.{append-nil}
use caudio.Prelude.{
  ℕ, ◌+◌, ◌-◌, ◌*◌, ◌≤◌, ◌<◌, ◌≡◌, ◌⊎◌, inl, inr, refl, sym, ap, ap₂, ◌∙◌, List, ◌++◌, some, arith,
  length, take, length-append, ltb, ◌==◌, ◌||◌, Bool, Bool-cases, if◌then◌else◌, word, true, false,
}
use caudio.Ring.{SpscRing, index, copy_in, write_frames}
use caudio.Ring.Copies.{length-take, length-blit}
use caudio.Ring.Frames.{longer_zero, no_room, at_most, within_samples, Holds, used-Holds}
use caudio.Ring.Pieces.{copied-Stored}

module _ {ℓ} {T : Type ℓ} where
  length-if :
      (b : Bool) (xs ys : List T) (k : ℕ)
      → length xs ≡ k
      → length ys ≡ k
      → length (if b then xs else ys) ≡ k
  length-if true xs ys k p q = p
  length-if false xs ys k p q = q

  length-copy_in :
      (r : SpscRing T) (m : ℕ) (ys : List T) → length (copy_in r ys m).buf ≡ length r.buf
  unfolding copy_in
  length-copy_in r m ys =
      length-if _ _ _ (length r.buf) (length-blit _ _ 0 ∙ length-blit r.buf _ _)
        (length-blit r.buf _ _)

  copy_in-Holds :
      (r : SpscRing T) (n m : ℕ) (xs ys : List T)
      → Holds r n xs
      → n + m ≤ r.cap
      → r.wr + m < word
      → m * r.channels ≤ length ys
      → Holds (copy_in r ys m) (n + m) (xs ++ take (m * r.channels) ys)
  unfolding copy_in index
  copy_in-Holds r n m xs ys h fits w le = record {
    positive = h.positive;
    audible = h.audible;
    storage = length-copy_in r m ys ∙ h.storage;
    counters = mod-eq_of_lt w ∙ omega (arith, h.counters);
    bounded = fits;
    in_word = omega (arith, mod-eq_of_lt w);
    samples =
        length-append xs (take (m * r.channels) ys)
        ∙ ap₂ ◌+◌ h.samples (length-take (m * r.channels) ys le)
        ∙ sym (add-mul n m r.channels);
    slot = h.slot;
    stored = copied-Stored r n m xs ys h fits le;
  }

  write_run :
      (r : SpscRing T) (n frames : ℕ) (xs ys : List T)
      → Holds r n xs
      → 0 < frames
      → n < r.cap
      → let m = if ltb (r.cap - n) frames then r.cap - n else frames in
        write_frames r (some ys) frames ≡ (copy_in r ys m, m)
  unfolding write_frames
  write_run r n frames xs ys h some_frames room = simp (asked, used-Holds r n xs h, free)
    where
      asked : (frames == 0 || r.cap == 0) ≡ false
      asked = ground arith

      free : (r.cap - n == 0) ≡ false
      free = ground arith

  write_none :
      (r : SpscRing T) (n frames : ℕ) (xs ys : List T)
      → Holds r n xs
      → (frames ≡ 0) ⊎ (n ≡ r.cap)
      → write_frames r (some ys) frames ≡ (r, 0)
  unfolding write_frames
  write_none r n frames xs ys h (inl none) = simp none
  write_none r n frames xs ys h (inr full) = elim (Bool-cases (frames == 0 || r.cap == 0)) [
    | inl nothing ↦ simp nothing
    | inr asked ↦ simp (asked, used-Holds r n xs h, no_room)
  ]
    where
      no_room : (r.cap - n == 0) ≡ true
      no_room = ground arith

  nothing-Holds :
      (r : SpscRing T) (n : ℕ) (xs ys : List T)
      → Holds r n xs
      → Holds r (n + 0) (xs ++ take (0 * r.channels) ys)
  nothing-Holds r n xs ys h = rw (same, empty) h
    where
      same : n + 0 ≡ n
      same = omega arith

      empty : xs ++ take (0 * r.channels) ys ≡ xs
      empty =
          ap (λ (k : ℕ). xs ++ take k ys) {x = 0 * r.channels} {y = 0} (omega arith) ∙ append-nil xs

  wrote_none :
      (r : SpscRing T) (n m frames : ℕ) (xs ys : List T)
      → Holds r n xs
      → m ≡ 0
      → write_frames r (some ys) frames ≡ (r, 0)
      → Holds (write_frames r (some ys) frames).0 (n + m) (xs ++ take (m * r.channels) ys)
        × ((write_frames r (some ys) frames).1 ≡ m)
  wrote_none r n m frames xs ys h z run = rw (run, z) (nothing-Holds r n xs ys h, refl)

  wrote_some :
      (r : SpscRing T) (n m frames : ℕ) (xs ys : List T)
      → Holds (copy_in r ys m) (n + m) (xs ++ take (m * r.channels) ys)
      → write_frames r (some ys) frames ≡ (copy_in r ys m, m)
      → Holds (write_frames r (some ys) frames).0 (n + m) (xs ++ take (m * r.channels) ys)
        × ((write_frames r (some ys) frames).1 ≡ m)
  wrote_some r n m frames xs ys h run = rw run (h, refl)

  -- A write puts as many of the frames as there is room for behind the stored ones, oldest first,
  -- and returns their number.
  pub write_frames-Holds :
      (r : SpscRing T) (n frames : ℕ) (xs ys : List T)
      → Holds r n xs
      → frames * r.channels ≤ length ys
      → r.wr + frames < word
      → let m = if ltb (r.cap - n) frames then r.cap - n else frames in
        Holds (write_frames r (some ys) frames).0 (n + m) (xs ++ take (m * r.channels) ys)
        × ((write_frames r (some ys) frames).1 ≡ m)
  write_frames-Holds r n frames xs ys h le w = elim (dec_lt 0 frames) [
    | no none ↦
        wrote_none r n _ frames xs ys h (longer_zero (r.cap - n) frames (omega arith))
          (write_none r n frames xs ys h (inl (omega arith)))
    | yes asked ↦ elim (dec_lt n r.cap) [
      | no full ↦
          wrote_none r n _ frames xs ys h (no_room (r.cap - n) frames (omega arith))
            (write_none r n frames xs ys h (inr (omega (arith, h.bounded))))
      | yes room ↦
          let (short, fit) = at_most (r.cap - n) frames in
          wrote_some r n _ frames xs ys
            (copy_in-Holds r n _ xs ys h (omega (arith, h.bounded, fit)) (omega (arith, short))
              (within_samples _ frames r.channels (length ys) short le))
            (write_run r n frames xs ys h asked room)
    ]
  ]
