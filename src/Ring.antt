-- ===== src/Ring.antt =====
-- include/caudio/utils/ring.hpp: the single-producer single-consumer ring of audio frames.
-- Producer and consumer each own one counter, so a call sees the other's counter once; a call is
-- one step. Counters and sizes are 64-bit words.
pub mod Mask
pub mod Copies
pub mod Stored
pub mod Taken
pub mod Frames
pub mod Pieces
pub mod Writes
pub mod Delivered
pub mod Reads
pub mod Fresh
pub mod Spans
pub mod Refine
mod Tests
use Prim.Native.Nat.{bit_and}
use caudio.Prelude.{
  ℕ, zero, suc, ◌+◌, ◌-◌, ◌*◌, ◌/◌, ◌%◌, Bool, ◌&&◌, ◌||◌, List, [], ◌∷◌, ◌++◌, Option, none, some,
  ◌==◌, ltb, if◌then◌else◌, word, add_size, length, take, drop, replicate,
}

-- `channels` samples make a frame; `buf` has `cap * channels` samples, where that is a 64-bit word.
pub record SpscRing {ℓ} (T : Type ℓ) : Type ℓ where
  pub cap : ℕ
  pub channels : ℕ
  pub buf : List T
  pub wr : ℕ
  pub rd : ℕ
  pub mask : ℕ

-- `(cap & (cap - 1)) == 0` for a capacity above 0.
unfoldable pub is_power : ℕ → Bool
is_power cap = ltb 0 cap && (bit_and cap (cap - 1) == 0)

-- `size()` arithmetic: the counters' distance, cut off at the capacity.
unfoldable pub used_of : ℕ → ℕ → ℕ → ℕ
used_of cap wr rd = let used = (wr + word - rd) % word in if ltb cap used then cap else used

module _ {ℓ} {T : Type ℓ} where
  -- `SpscRing(capacityFrames, channels)`, its storage filled with `T{}`; the number of samples is a
  -- product of 64-bit words, which wraps.
  unfoldable pub make : T → ℕ → ℕ → SpscRing T
  unfolding is_power
  make default cap channels = record {
    cap = cap;
    channels = channels;
    buf = replicate (cap * channels % word) default;
    wr = 0;
    rd = 0;
    mask = if is_power cap then cap - 1 else 0;
  }

  unfoldable pub index : SpscRing T → ℕ → ℕ
  index r counter = if r.mask == 0 then counter % r.cap else bit_and counter r.mask

  -- `memcpy` of `xs` into the storage from sample `o` on.
  unfoldable pub blit : List T → ℕ → List T → List T
  blit [] o xs = []
  blit (b ∷ bs) zero [] = b ∷ bs
  blit (b ∷ bs) zero (x ∷ xs) = x ∷ blit bs zero xs
  blit (b ∷ bs) (suc o) xs = b ∷ blit bs o xs

  -- Both `memcpy` calls of a write: up to the end of the storage, and on from its start.
  unfoldable pub copy_in : SpscRing T → List T → ℕ → SpscRing T
  unfolding blit index
  copy_in r xs frames =
      let at = index r r.wr in
      let first = if ltb frames (r.cap - at) then frames else r.cap - at in
      let buf = blit r.buf (at * r.channels) (take (first * r.channels) xs) in
      record r {
        buf =
            if ltb first frames
            then blit buf 0 (take ((frames - first) * r.channels) (drop (first * r.channels) xs))
            else buf;
        wr = add_size r.wr frames;
      }

  -- `write(const T*, frames)`; `none` is a null pointer.
  unfoldable pub write_frames : SpscRing T → Option (List T) → ℕ → SpscRing T × ℕ
  write_frames r none frames = (r, 0)
  write_frames r (some xs) frames =
      if frames == 0 || r.cap == 0
      then (r, 0)
      else (let free = r.cap - used_of r.cap r.wr r.rd in
          if free == 0
          then (r, 0)
          else (let n = if ltb free frames then free else frames in (copy_in r xs n, n)))

  -- `write(std::span<const T>)`.
  unfoldable pub write : SpscRing T → List T → SpscRing T × ℕ
  write r xs =
      if length xs == 0 || r.cap == 0
      then (r, 0)
      else (let frames = length xs / r.channels in
          if frames == 0 then (r, 0) else write_frames r (some xs) frames)

  -- The samples that both `memcpy` calls of a read deliver.
  unfoldable pub copy_out : SpscRing T → ℕ → List T
  unfolding index
  copy_out r frames =
      let at = index r r.rd in
      let first = if ltb frames (r.cap - at) then frames else r.cap - at in
      let head = take (first * r.channels) (drop (at * r.channels) r.buf) in
      if ltb first frames then head ++ take ((frames - first) * r.channels) r.buf else head

  -- `read(T*, frames)` into a buffer that is no null pointer: the new ring, the samples delivered
  -- and their count in frames.
  unfoldable pub read_frames : SpscRing T → ℕ → SpscRing T × List T × ℕ
  read_frames r frames =
      if frames == 0 || r.cap == 0
      then (r, [], 0)
      else (let avail = used_of r.cap r.wr r.rd in
          if avail == 0
          then (r, [], 0)
          else (let n = if ltb avail frames then avail else frames in
              (record r { rd = add_size r.rd n }, copy_out r n, n)))

  -- `read(std::span<T>)`, with the size of the buffer in samples.
  unfoldable pub read : SpscRing T → ℕ → SpscRing T × List T × ℕ
  read r size =
      if size == 0 || r.cap == 0
      then (r, [], 0)
      else (let frames = size / r.channels in
          if frames == 0 then (r, [], 0) else read_frames r frames)

  unfoldable pub available_read : SpscRing T → ℕ
  available_read r = used_of r.cap r.wr r.rd

  unfoldable pub available_write : SpscRing T → ℕ
  available_write r = r.cap - used_of r.cap r.wr r.rd

  unfoldable pub reset : SpscRing T → SpscRing T
  reset r = record r { rd = 0; wr = 0 }
