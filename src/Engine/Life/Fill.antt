-- ===== src/Engine/Life/Fill.antt =====
-- decodeLoop of src/engine/engine.cpp and the ring of include/caudio/utils/ring.hpp.
use native.Mathlib.Nat.{div-le_self, div-le_of_le-mul, mul_comm, div-mul-le_self}
use mathlib.Core.Path.{subst}
use caudio.Prelude.{
  ℕ, ◌+◌, ◌-◌, ◌*◌, ◌/◌, ◌≤◌, ◌<◌, ◌≡◌, refl, sym, true, false, inl, inr, Bool-cases, List, ◌++◌,
  some, arith, length, take, word, ltb, ◌==◌, if◌then◌else◌,
}
use caudio.Ring
use caudio.Ring.{SpscRing}
use caudio.Ring.Frames.{Holds, used-Holds}
use caudio.Ring.Spans.{span_write}
use caudio.Ring.Writes.{write_frames-Holds}
use caudio.Engine.{Floats, World, Media}
use caudio.Engine.Life.{channels_of, chunk_size, decoded_into, append_decoded, decode_into}

all_fit : (room k : ℕ) → k ≤ room → (if ltb room k then room else k) ≡ k
all_fit room k le = ground arith

module _ {ℓ} {T : Type ℓ} where
  write_nothing :
      (r : SpscRing T) (ys : List T) (frames : ℕ)
      → (frames == 0) ≡ true
      → Ring.write_frames r (some ys) frames ≡ (r, 0)
  unfolding Ring.write_frames
  write_nothing r ys frames h = rw h refl

  available-Holds :
      (r : SpscRing T) (n : ℕ) (xs : List T) → Holds r n xs → Ring.available_write r ≡ r.cap - n
  unfolding Ring.available_write
  available-Holds r n xs h = rw (used-Holds r n xs h) refl

  fitting_write :
      (r : SpscRing T) (n k : ℕ) (xs ys : List T)
      → Holds r n xs
      → k ≤ r.cap - n
      → k * r.channels ≤ length ys
      → r.wr + k < word
      → Holds (Ring.write_frames r (some ys) k).0 (n + k) (xs ++ take (k * r.channels) ys)
        × ((Ring.write_frames r (some ys) k).1 ≡ k)
  fitting_write r n k xs ys h room le small =
      subst
        (λ (m : ℕ).
          Holds (Ring.write_frames r (some ys) k).0 (n + m) (xs ++ take (m * r.channels) ys)
          × ((Ring.write_frames r (some ys) k).1 ≡ m))
        (all_fit (r.cap - n) k room) (write_frames-Holds r n k xs ys h le small)

module _ {F : Type 0} ⦃fl : Floats F⦄ (w : World F) where
  chunk-fits : (avail ch : ℕ) → 0 < avail → chunk_size w avail ch ≤ avail
  unfolding chunk_size
  chunk-fits avail ch pos = ground (arith, div-le_self avail ch)

  append_run :
      (ring : SpscRing F) (ys : List F)
      → append_decoded w ring.channels ys ring
        ≡ Ring.write_frames ring (some ys) (length ys / ring.channels)
  unfolding append_decoded
  append_run ring ys = elim (Bool-cases (length ys / ring.channels == 0)) [
    | inl z ↦ rw z (sym (write_nothing ring ys (length ys / ring.channels) z))
    | inr more ↦ rw more (span_write ring ys)
  ]

  -- What appending a chunk that fits leaves in the ring, and its count.
  abbrev Appended : SpscRing F → ℕ → List F → ℕ → List F → SpscRing F × ℕ → Type 0
  Appended ring n xs ch ys r =
      Holds r.0 (n + length ys / ch) (xs ++ take (length ys / ch * ch) ys) × (r.1 ≡ length ys / ch)

  append-Holds :
      (ring : SpscRing F) (n ch : ℕ) (xs ys : List F)
      → Holds ring n xs
      → ring.channels ≡ ch
      → length ys / ch ≤ ring.cap - n
      → ring.wr + length ys / ch < word
      → Appended ring n xs ch ys (append_decoded w ch ys ring)
  append-Holds ring n ch xs ys h same =
      subst
        (λ (c : ℕ).
          length ys / c ≤ ring.cap - n
          → ring.wr + length ys / c < word
          → Appended ring n xs c ys (append_decoded w c ys ring))
        same at_channels
    where
      at_channels :
          length ys / ring.channels ≤ ring.cap - n
          → ring.wr + length ys / ring.channels < word
          → Appended ring n xs ring.channels ys (append_decoded w ring.channels ys ring)
      at_channels le small = rw (append_run ring ys) (
          fitting_write ring n (length ys / ring.channels) xs ys h le
            (div-mul-le_self (length ys) ring.channels) small)

  decode_run :
      (m : Media) (ring : SpscRing F) (n : ℕ) (xs : List F)
      → Holds ring n xs
      → n < ring.cap
      → let ch = channels_of w m in
        decode_into w m ring
        ≡ append_decoded w ch (decoded_into w (chunk_size w (ring.cap - n) ch * ch) w.decoded) ring
  unfolding decode_into
  decode_run m ring n xs h room =
      let some_room : (ring.cap - n == 0) ≡ false = ground arith in
      rw (available-Holds ring n xs h, some_room) refl

  -- One iteration of `decodeLoop` with a ring that holds n frames and is not full puts every whole
  -- frame that it decodes behind the stored ones and returns their number: the buffer that it
  -- offers the decoder never holds more frames than the ring has room for. The decoder delivers no
  -- more than the buffer holds, and the write counter stays within 64 bits.
  pub decode_into_lem :
      (m : Media) (ring : SpscRing F) (n : ℕ) (xs : List F)
      → Holds ring n xs
      → ring.channels ≡ channels_of w m
      → n < ring.cap
      → let ch = channels_of w m in
        let offered = chunk_size w (ring.cap - n) ch * ch in
        let ys = decoded_into w offered w.decoded in
        length ys ≤ offered
        → ring.wr + length ys / ch < word
        → Holds (decode_into w m ring).0 (n + length ys / ch) (xs ++ take (length ys / ch * ch) ys)
          × ((decode_into w m ring).1 ≡ length ys / ch)
  decode_into_lem m ring n xs h same room fits small =
      rw (decode_run m ring n xs h room)
        (append-Holds ring n (channels_of w m) xs _ h same inside small)
    where
      chunk : ℕ
      chunk = chunk_size w (ring.cap - n) (channels_of w m)

      fits' : length (decoded_into w (chunk * channels_of w m) w.decoded) ≤ channels_of w m * chunk
      fits' = omega (arith, fits, mul_comm (channels_of w m) chunk)

      inside :
          length (decoded_into w (chunk * channels_of w m) w.decoded) / channels_of w m
          ≤ ring.cap - n
      inside = omega (
        arith,
        chunk-fits (ring.cap - n) (channels_of w m) (omega arith),
        div-le_of_le-mul (channels_of w m) fits',
      )
