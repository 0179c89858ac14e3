-- ===== src/Ring/Frames.antt =====
-- SpscRing of include/caudio/utils/ring.hpp: counters, slots and offsets, and a ring that is in order.
use native.Mathlib.Nat.{
  add-mul, mul-le-mul_right, mod-add-mod, mod-eq_of_lt, mod-eq-sub-mod, mod-lt,
}
use native.Mathlib.Decide.{dec_lt}
use caudio.Prelude.{
  ℕ, ◌+◌, ◌-◌, ◌*◌, ◌%◌, ◌≤◌, ◌<◌, ◌≡◌, ◌⊎◌, inl, inr, sym, ap, ◌∙◌, List, arith, length, ltb,
  if◌then◌else◌, word, false,
}
use caudio.Ring.{SpscRing, index, used_of}
use caudio.Ring.Stored.{Stored}

-- The slot of the counter `n` after another one.
pub slot_after :
    (cap rd n : ℕ)
    → 0 < cap
    → n ≤ cap
    → (rd % cap + n < cap) × ((rd + n) % cap ≡ rd % cap + n)
      ⊎ (cap ≤ rd % cap + n) × ((rd + n) % cap + cap ≡ rd % cap + n)
slot_after cap rd n pos le = elim (dec_lt (rd % cap + n) cap) [
  | yes lt ↦ inl (lt, sym (mod-add-mod rd cap n) ∙ mod-eq_of_lt lt)
  | no ge ↦ inr (
    omega arith,
    omega (
      arith,
      mod-add-mod rd cap n,
      mod-eq-sub-mod {n = rd % cap + n} {m = cap} (omega arith),
      mod-eq_of_lt {n = rd % cap + n - cap} {m = cap} (omega (arith, mod-lt rd pos)),
      mod-lt rd pos,
    ),
  )
]

-- Offsets in samples.
pub plus_samples : (a b c ch : ℕ) → a + b ≡ c → a * ch + b * ch ≡ c * ch
plus_samples a b c ch e = sym (add-mul a b ch) ∙ ap (λ (t : ℕ). t * ch) e

pub the_next_slot : (a b : ℕ) → a < b → a + 1 ≤ b
the_next_slot a b h = omega arith

pub shorter : (m k : ℕ) → m ≤ k → (if ltb m k then m else k) ≡ m
shorter m k le = ground arith

pub longer : (m k : ℕ) → k < m → (if ltb m k then m else k) ≡ k
longer m k lt = ground arith

pub not_before : (m : ℕ) → ltb m m ≡ false
not_before m = ground arith

-- The number of frames that a call takes: all, or as many as fit.
pub longer_zero : (k m : ℕ) → m ≡ 0 → (if ltb k m then k else m) ≡ 0
longer_zero k m z = ground arith

pub no_room : (k m : ℕ) → k ≡ 0 → (if ltb k m then k else m) ≡ 0
no_room k m z = ground arith

pub at_most : (k m : ℕ) → ((if ltb k m then k else m) ≤ m) × ((if ltb k m then k else m) ≤ k)
at_most k m = (ground arith, ground arith)

pub within_samples : (a b ch len : ℕ) → a ≤ b → b * ch ≤ len → a * ch ≤ len
within_samples a b ch len le fits = omega (arith, mul-le-mul_right ch le)

module _ {ℓ} {T : Type ℓ} where
  -- The ring is in order and holds `n` frames, whose samples are `xs`, the oldest first.
  pub record Holds (r : SpscRing T) (n : ℕ) (xs : List T) : Type ℓ where
    pub positive : 0 < r.cap
    pub audible : 0 < r.channels
    pub storage : length r.buf ≡ r.cap * r.channels
    pub counters : r.wr ≡ r.rd + n
    pub bounded : n ≤ r.cap
    pub in_word : r.wr < word
    pub samples : length xs ≡ n * r.channels
    pub slot : (c : ℕ) → index r c ≡ c % r.cap
    pub stored : Stored r.buf (r.rd % r.cap * r.channels) xs

  pub used-Holds :
      (r : SpscRing T) (n : ℕ) (xs : List T) → Holds r n xs → used_of r.cap r.wr r.rd ≡ n
  unfolding used_of
  used-Holds r n xs h = ground (arith, h.counters, h.bounded, h.in_word)
