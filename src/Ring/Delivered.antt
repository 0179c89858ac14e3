-- ===== src/Ring/Delivered.antt =====
-- SpscRing::read of include/caudio/utils/ring.hpp: what its one or two memcpy calls deliver.
use native.Mathlib.Nat.{mul-le-mul_right, mod-lt}
use native.Mathlib.Decide.{dec_lt}
use caudio.Prelude.{
  ℕ, ◌+◌, ◌-◌, ◌*◌, ◌%◌, ◌≤◌, ◌<◌, ◌≡◌, inl, inr, refl, sym, ap, ◌∙◌, List, ◌++◌, arith, length,
  take, drop, lt→ltb,
}
use caudio.Ring.{SpscRing, copy_out}
use caudio.Ring.Stored.{Stored}
use caudio.Ring.Taken.{read_within, left_within, left_to_end, read_split}
use caudio.Ring.Frames.{slot_after, plus_samples, the_next_slot, shorter, longer, not_before, Holds}

module _ {ℓ} {T : Type ℓ} where
  copy_out_whole :
      (r : SpscRing T) (n m : ℕ) (xs : List T)
      → Holds r n xs
      → r.rd % r.cap + m ≤ r.cap
      → copy_out r m ≡ take (m * r.channels) (drop (r.rd % r.cap * r.channels) r.buf)
  unfolding copy_out
  copy_out_whole r n m xs h fits =
      simp (h.slot r.rd, shorter m (r.cap - r.rd % r.cap) (omega arith), not_before m)

  copy_out_split :
      (r : SpscRing T) (n m : ℕ) (xs : List T)
      → Holds r n xs
      → r.cap < r.rd % r.cap + m
      → let first = r.cap - r.rd % r.cap in
        copy_out r m
        ≡ take (first * r.channels) (drop (r.rd % r.cap * r.channels) r.buf)
          ++ take ((m - first) * r.channels) r.buf
  unfolding copy_out
  copy_out_split r n m xs h over = simp (
    h.slot r.rd,
    longer m (r.cap - r.rd % r.cap) (omega arith),
    lt→ltb (r.cap - r.rd % r.cap) m (omega arith),
  )

  -- What a read of `m` stored frames delivers and leaves.
  unfoldable pub Took : SpscRing T → ℕ → List T → Type ℓ
  Took r m xs =
      (copy_out r m ≡ take (m * r.channels) xs)
      × Stored r.buf ((r.rd + m) % r.cap * r.channels) (drop (m * r.channels) xs)

  one_piece :
      (r : SpscRing T) (n m : ℕ) (xs : List T)
      → Holds r n xs
      → m ≤ n
      → r.rd % r.cap + m ≤ r.cap
      → Took r m xs
  unfolding Took
  one_piece r n m xs h le fits = (
    copy_out_whole r n m xs h fits
        ∙ read_within r.buf _ (m * r.channels) xs h.stored pending inside,
    elim (slot_after r.cap r.rd m h.positive (omega (arith, h.bounded))) [
      | inl (lt, at) ↦
          rw (offset at) (left_within r.buf _ (m * r.channels) xs h.stored pending inside)
      | inr (ge, at) ↦
          rw (front at)
            (left_to_end r.buf _ (m * r.channels) xs h.stored pending (to_end (omega arith)))
    ],
  )
    where
      pending : m * r.channels ≤ length xs
      pending = omega (arith, mul-le-mul_right r.channels le, h.samples)

      sum : r.rd % r.cap * r.channels + m * r.channels ≡ (r.rd % r.cap + m) * r.channels
      sum = plus_samples (r.rd % r.cap) m (r.rd % r.cap + m) r.channels refl

      inside : r.rd % r.cap * r.channels + m * r.channels ≤ length r.buf
      inside = omega (arith, sum, mul-le-mul_right r.channels fits, h.storage)

      offset :
          (r.rd + m) % r.cap ≡ r.rd % r.cap + m
          → (r.rd + m) % r.cap * r.channels ≡ r.rd % r.cap * r.channels + m * r.channels
      offset at = ap (λ (c : ℕ). c * r.channels) at ∙ sym sum

      to_end : r.rd % r.cap + m ≡ r.cap → r.rd % r.cap * r.channels + m * r.channels ≡ length r.buf
      to_end at = sum ∙ ap (λ (c : ℕ). c * r.channels) at ∙ sym h.storage

      front : (r.rd + m) % r.cap + r.cap ≡ r.rd % r.cap + m → (r.rd + m) % r.cap * r.channels ≡ 0
      front at =
          ap (λ (c : ℕ). c * r.channels) {x = (r.rd + m) % r.cap} {y = 0} (omega arith)
          ∙ (let none : 0 * r.channels ≡ 0 = omega arith in none)

  two_pieces :
      (r : SpscRing T) (n m : ℕ) (xs : List T)
      → Holds r n xs
      → m ≤ n
      → r.cap < r.rd % r.cap + m
      → Took r m xs
  unfolding Took
  two_pieces r n m xs h le over =
      let (out, left) =
        read_split r.buf start (first * r.channels) (m * r.channels) xs h.stored pending to_end
          more in
      (
        copy_out_split r n m xs h over
            ∙ ap (λ (k : ℕ). take (first * r.channels) (drop start r.buf) ++ take k r.buf) rest
            ∙ out,
        rw offset left,
      )
    where
      start : ℕ
      start = r.rd % r.cap * r.channels

      first : ℕ
      first = r.cap - r.rd % r.cap

      pending : m * r.channels ≤ length xs
      pending = omega (arith, mul-le-mul_right r.channels le, h.samples)

      to_end : start + first * r.channels ≡ length r.buf
      to_end =
          plus_samples (r.rd % r.cap) first r.cap r.channels (omega (arith, mod-lt r.rd h.positive))
          ∙ sym h.storage

      pieces : first * r.channels + (m - first) * r.channels ≡ m * r.channels
      pieces = plus_samples first (m - first) m r.channels (omega arith)

      a_frame : 1 * r.channels ≤ (m - first) * r.channels
      a_frame = mul-le-mul_right r.channels (the_next_slot 0 (m - first) (omega arith))

      more : first * r.channels < m * r.channels
      more = omega (arith, pieces, a_frame, h.audible)

      rest : (m - first) * r.channels ≡ m * r.channels - first * r.channels
      rest = omega (arith, pieces)

      offset : (r.rd + m) % r.cap * r.channels ≡ m * r.channels - first * r.channels
      offset = ap (λ (c : ℕ). c * r.channels) beyond ∙ rest
        where
          beyond : (r.rd + m) % r.cap ≡ m - first
          beyond = elim (slot_after r.cap r.rd m h.positive (omega (arith, h.bounded))) [
            | inl (lt, at) ↦ absurd (omega arith)
            | inr (ge, at) ↦ omega (arith, at, mod-lt r.rd h.positive)
          ]

  pub copy_out_lem : (r : SpscRing T) (n m : ℕ) (xs : List T) → Holds r n xs → m ≤ n → Took r m xs
  copy_out_lem r n m xs h le = elim (dec_lt r.cap (r.rd % r.cap + m)) [
    | yes over ↦ two_pieces r n m xs h le over
    | no inside ↦ one_piece r n m xs h le (omega arith)
  ]
