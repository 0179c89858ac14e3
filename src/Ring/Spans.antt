-- ===== src/Ring/Spans.antt =====
-- SpscRing of include/caudio/utils/ring.hpp: the calls with a span are those with a pointer.
use caudio.Prelude.{
  ℕ, ◌/◌, ◌≡◌, refl, List, [], some, arith, ◌==◌, ◌||◌, true, Bool-cases, inl, inr, length,
}
use native.Mathlib.Nat.{zero-div}
use caudio.Ring.{SpscRing, write, read, write_frames, read_frames}

no_frames : (size ch cap : ℕ) → (size == 0 || cap == 0) ≡ true → (size / ch == 0 || cap == 0) ≡ true
no_frames size ch cap h = elim (Bool-cases (cap == 0)) [
  | inl z ↦ ground arith
  | inr p ↦ let none : size ≡ 0 = ground arith in rw none (rw (zero-div ch) refl)
]

no_whole : (frames cap : ℕ) → (frames == 0) ≡ true → (frames == 0 || cap == 0) ≡ true
no_whole frames cap h = rw h refl

module _ {ℓ} {T : Type ℓ} where
  write_nothing :
      (r : SpscRing T) (xs : List T) (frames : ℕ)
      → (frames == 0 || r.cap == 0) ≡ true
      → write_frames r (some xs) frames ≡ (r, 0)
  unfolding write_frames
  write_nothing r xs frames h = simp h

  read_nothing :
      (r : SpscRing T) (frames : ℕ)
      → (frames == 0 || r.cap == 0) ≡ true
      → read_frames r frames ≡ (r, [], 0)
  unfolding read_frames
  read_nothing r frames h = simp h

  pub span_write :
      (r : SpscRing T) (xs : List T)
      → write r xs ≡ write_frames r (some xs) (length xs / r.channels)
  unfolding write
  span_write r xs = elim (Bool-cases (length xs == 0 || r.cap == 0)) [
    | inl none ↦ simp (
      none,
      write_nothing r xs (length xs / r.channels) (no_frames (length xs) r.channels r.cap none),
    )
    | inr asked ↦ elim (Bool-cases (length xs / r.channels == 0)) [
      | inl less ↦ simp (
        asked,
        less,
        write_nothing r xs (length xs / r.channels) (no_whole (length xs / r.channels) r.cap less),
      )
      | inr more ↦ simp (asked, more)
    ]
  ]

  pub span_read : (r : SpscRing T) (size : ℕ) → read r size ≡ read_frames r (size / r.channels)
  unfolding read
  span_read r size = elim (Bool-cases (size == 0 || r.cap == 0)) [
    | inl none ↦
        simp (none, read_nothing r (size / r.channels) (no_frames size r.channels r.cap none))
    | inr asked ↦ elim (Bool-cases (size / r.channels == 0)) [
      | inl less ↦ simp (
        asked,
        less,
        read_nothing r (size / r.channels) (no_whole (size / r.channels) r.cap less),
      )
      | inr more ↦ simp (asked, more)
    ]
  ]
