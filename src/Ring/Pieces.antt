-- ===== src/Ring/Pieces.antt =====
-- SpscRing::write of include/caudio/utils/ring.hpp: the storage after its one or two memcpy calls.
use native.Mathlib.Nat.{add-mul, mul-le-mul_right, mod-lt}
use native.Mathlib.Decide.{dec_lt}
use caudio.Prelude.{
  ℕ, ◌+◌, ◌-◌, ◌*◌, ◌%◌, ◌≤◌, ◌<◌, ◌≡◌, inl, inr, refl, sym, ap, ◌∙◌, List, ◌++◌, arith, length,
  take, drop, lt→ltb,
}
use caudio.Ring.{SpscRing, copy_in, blit}
use caudio.Ring.Copies.{take-add, length-take, length-drop}
use caudio.Ring.Stored.{Stored, write_behind, write_round, write_split}
use caudio.Ring.Frames.{slot_after, plus_samples, the_next_slot, shorter, longer, not_before, Holds}

module _ {ℓ} {T : Type ℓ} where
  copy_in_whole :
      (r : SpscRing T) (n m : ℕ) (xs ys : List T)
      → Holds r n xs
      → r.wr % r.cap + m ≤ r.cap
      → (copy_in r ys m).buf ≡ blit r.buf (r.wr % r.cap * r.channels) (take (m * r.channels) ys)
  unfolding copy_in
  copy_in_whole r n m xs ys h fits =
      simp (h.slot r.wr, shorter m (r.cap - r.wr % r.cap) (omega arith), not_before m)

  copy_in_split :
      (r : SpscRing T) (n m : ℕ) (xs ys : List T)
      → Holds r n xs
      → r.cap < r.wr % r.cap + m
      → let first = r.cap - r.wr % r.cap in
        (copy_in r ys m).buf
        ≡ blit
            (blit r.buf (r.wr % r.cap * r.channels) (take (first * r.channels) ys))
            0
            (take ((m - first) * r.channels) (drop (first * r.channels) ys))
  unfolding copy_in
  copy_in_split r n m xs ys h over = simp (
    h.slot r.wr,
    longer m (r.cap - r.wr % r.cap) (omega arith),
    lt→ltb (r.cap - r.wr % r.cap) m (omega arith),
  )

  -- The storage after a write of `m` frames that fit: in two pieces, in one, or from its front.
  split-Stored :
      (r : SpscRing T) (n m : ℕ) (xs ys : List T)
      → Holds r n xs
      → n + m ≤ r.cap
      → m * r.channels ≤ length ys
      → r.wr % r.cap ≡ r.rd % r.cap + n
      → r.cap < r.wr % r.cap + m
      → Stored (copy_in r ys m).buf (r.rd % r.cap * r.channels) (xs ++ take (m * r.channels) ys)
  split-Stored r n m xs ys h fits le at over =
      rw (copied, ← whole)
        (write_split r.buf start xs one two h.stored
          (omega (arith, offset, to_end, a_frame, h.storage, h.audible))
          (omega (arith, offset, to_end, h.storage, length-one))
          (omega (arith, h.samples, h.storage, length-one, length-two, pieces, frames)))
    where
      start : ℕ
      start = r.rd % r.cap * r.channels

      first : ℕ
      first = r.cap - r.wr % r.cap

      one : List T
      one = take (first * r.channels) ys

      two : List T
      two = take ((m - first) * r.channels) (drop (first * r.channels) ys)

      first_pos : 1 ≤ first
      first_pos = omega (arith, mod-lt r.wr h.positive)

      to_end : r.wr % r.cap * r.channels + first * r.channels ≡ r.cap * r.channels
      to_end = plus_samples (r.wr % r.cap) first r.cap r.channels (omega (arith, first_pos))

      a_frame : 1 * r.channels ≤ first * r.channels
      a_frame = mul-le-mul_right r.channels first_pos

      pieces : first * r.channels + (m - first) * r.channels ≡ m * r.channels
      pieces = plus_samples first (m - first) m r.channels (omega arith)

      frames : n * r.channels + m * r.channels ≤ r.cap * r.channels
      frames =
          omega (arith, plus_samples n m (n + m) r.channels refl, mul-le-mul_right r.channels fits)

      length-one : length one ≡ first * r.channels
      length-one = length-take (first * r.channels) ys (omega (arith, pieces))

      length-two : length two ≡ (m - first) * r.channels
      length-two =
          length-take ((m - first) * r.channels) (drop (first * r.channels) ys)
            (omega (arith, pieces, length-drop (first * r.channels) ys))

      offset : r.wr % r.cap * r.channels ≡ start + length xs
      offset =
          omega (arith, plus_samples (r.rd % r.cap) n (r.wr % r.cap) r.channels (sym at), h.samples)

      whole : one ++ two ≡ take (m * r.channels) ys
      whole =
          take-add (m * r.channels) (first * r.channels) ((m - first) * r.channels) ys (sym pieces)

      copied : (copy_in r ys m).buf ≡ blit (blit r.buf (start + length xs) one) 0 two
      copied =
          copy_in_split r n m xs ys h over ∙ ap (λ (q : ℕ). blit (blit r.buf q one) 0 two) offset

  inside-Stored :
      (r : SpscRing T) (n m : ℕ) (xs ys : List T)
      → Holds r n xs
      → m * r.channels ≤ length ys
      → r.wr % r.cap ≡ r.rd % r.cap + n
      → r.wr % r.cap + m ≤ r.cap
      → Stored (copy_in r ys m).buf (r.rd % r.cap * r.channels) (xs ++ take (m * r.channels) ys)
  inside-Stored r n m xs ys h le at inside = rw copied (
      write_behind r.buf start xs (take (m * r.channels) ys) h.stored
        (omega (arith, offset, a_frame, h.storage, h.audible))
        (omega (arith, offset, h.storage, room, length-take (m * r.channels) ys le)))
    where
      start : ℕ
      start = r.rd % r.cap * r.channels

      offset : r.wr % r.cap * r.channels ≡ start + length xs
      offset =
          omega (arith, plus_samples (r.rd % r.cap) n (r.wr % r.cap) r.channels (sym at), h.samples)

      a_frame : r.wr % r.cap * r.channels + 1 * r.channels ≤ r.cap * r.channels
      a_frame = omega (
        arith,
        plus_samples (r.wr % r.cap) 1 (r.wr % r.cap + 1) r.channels refl,
        mul-le-mul_right r.channels (the_next_slot (r.wr % r.cap) r.cap (mod-lt r.wr h.positive)),
      )

      room : r.wr % r.cap * r.channels + m * r.channels ≤ r.cap * r.channels
      room = omega (
        arith,
        plus_samples (r.wr % r.cap) m (r.wr % r.cap + m) r.channels refl,
        mul-le-mul_right r.channels inside,
      )

      copied : (copy_in r ys m).buf ≡ blit r.buf (start + length xs) (take (m * r.channels) ys)
      copied =
          copy_in_whole r n m xs ys h inside
          ∙ ap (λ (q : ℕ). blit r.buf q (take (m * r.channels) ys)) offset

  round-Stored :
      (r : SpscRing T) (n m : ℕ) (xs ys : List T)
      → Holds r n xs
      → n + m ≤ r.cap
      → m * r.channels ≤ length ys
      → r.wr % r.cap + r.cap ≡ r.rd % r.cap + n
      → Stored (copy_in r ys m).buf (r.rd % r.cap * r.channels) (xs ++ take (m * r.channels) ys)
  round-Stored r n m xs ys h fits le at =
      rw (copy_in_whole r n m xs ys h (omega (arith, mod-lt r.rd h.positive))) (
        write_round r.buf (r.rd % r.cap * r.channels) (r.wr % r.cap * r.channels) xs
          (take (m * r.channels) ys) h.stored (omega (arith, offset, h.storage, h.samples))
          (omega (arith, h.samples, h.storage, frames, length-take (m * r.channels) ys le)))
    where
      offset :
          r.wr % r.cap * r.channels + r.cap * r.channels
          ≡ r.rd % r.cap * r.channels + n * r.channels
      offset =
          plus_samples (r.wr % r.cap) r.cap (r.rd % r.cap + n) r.channels at
          ∙ add-mul (r.rd % r.cap) n r.channels

      frames : n * r.channels + m * r.channels ≤ r.cap * r.channels
      frames =
          omega (arith, plus_samples n m (n + m) r.channels refl, mul-le-mul_right r.channels fits)

  pub copied-Stored :
      (r : SpscRing T) (n m : ℕ) (xs ys : List T)
      → Holds r n xs
      → n + m ≤ r.cap
      → m * r.channels ≤ length ys
      → Stored (copy_in r ys m).buf (r.rd % r.cap * r.channels) (xs ++ take (m * r.channels) ys)
  copied-Stored r n m xs ys h fits le = elim (slot_after r.cap r.rd n h.positive h.bounded) [
    | inl (lt, at) ↦
        let here : r.wr % r.cap ≡ r.rd % r.cap + n = ap (λ (c : ℕ). c % r.cap) h.counters ∙ at in
        elim (dec_lt r.cap (r.wr % r.cap + m)) [
          | yes over ↦ split-Stored r n m xs ys h fits le here over
          | no inside ↦ inside-Stored r n m xs ys h le here (omega arith)
        ]
    | inr (ge, at) ↦
        round-Stored r n m xs ys h fits le (ap (λ (c : ℕ). c % r.cap + r.cap) h.counters ∙ at)
  ]
