-- ===== src/Ring/Mask.antt =====
-- include/caudio/utils/ring.hpp: the mask that replaces the remainder for a power of two.
use Prim.Native.Nat.{bit_and, min, digits, bit_and-bitwise}
use native.Mathlib.Nat.{
  mod-eq_of_lt, mul-add-mod_self_left, mod-lt, div-add-mod, mul_assoc, mod-one,
}
use native.Mathlib.Decide.{dec_lt}
use caudio.Prelude.{
  ℕ, zero, suc, ◌+◌, ◌-◌, ◌*◌, ◌/◌, ◌%◌, ◌≤◌, ◌<◌, ◌≡◌, refl, sym, ap, ap₂, ◌∙◌, arith,
}
use caudio.Ring.{SpscRing, is_power, make, index}

-- Any two counts of digits that the first number does not exceed give the same digits.
same_digits : (n k a b : ℕ) → a ≤ n → a ≤ k → digits (λ y. 0) min n a b ≡ digits (λ y. 0) min k a b
same_digits zero zero zero b l r = refl
same_digits zero (suc k) zero b l r = refl
same_digits (suc n) zero zero b l r = refl
same_digits (suc n) (suc k) zero b l r = refl
same_digits zero k (suc a) b l r = absurd (omega arith)
same_digits (suc n) zero (suc a) b l r = absurd (omega arith)
same_digits (suc n) (suc k) (suc a) b l r =
    ap (λ (t : ℕ). t * 2 + min (suc a % 2) (b % 2))
      (same_digits n k (suc a / 2) (b / 2) (omega arith) (omega arith))

-- The lowest digit of `&`.
bit_and-halves : (a b : ℕ) → bit_and a b ≡ bit_and (a / 2) (b / 2) * 2 + min (a % 2) (b % 2)
bit_and-halves zero b = simp bit_and-bitwise (omega arith)
bit_and-halves (suc a) b = simp bit_and-bitwise (
    ap (λ (t : ℕ). t * 2 + min (suc a % 2) (b % 2))
      (same_digits a (suc a / 2) (suc a / 2) (b / 2) (omega arith) (omega arith)))

bit_and_self : (fuel a : ℕ) → a ≤ fuel → bit_and a a ≡ a
bit_and_self zero zero le = refl
bit_and_self zero (suc a) le = absurd (omega arith)
bit_and_self (suc fuel) a le = ground (arith, bit_and-halves a a, bit_and_self fuel (a / 2))

bit_and_zero : (fuel a : ℕ) → a ≤ fuel → bit_and a 0 ≡ 0
bit_and_zero zero zero le = refl
bit_and_zero zero (suc a) le = absurd (omega arith)
bit_and_zero (suc fuel) a le = ground (arith, bit_and-halves a 0, bit_and_zero fuel (a / 2))

double-mod : (c m : ℕ) → 0 < m → c % (2 * m) ≡ 2 * (c / 2 % m) + c % 2
double-mod c m pos =
    ap (λ (t : ℕ). t % (2 * m)) parts
    ∙ mul-add-mod_self_left (2 * m) (c / 2 / m) (2 * (c / 2 % m) + c % 2)
    ∙ mod-eq_of_lt (omega (arith, mod-lt (c / 2) pos))
  where
    parts : c ≡ 2 * m * (c / 2 / m) + (2 * (c / 2 % m) + c % 2)
    parts = omega (arith, div-add-mod (c / 2) m, mul_assoc 2 m (c / 2 / m))

-- From the mask of `m` to the mask of `2 * m`.
mask_twice :
    (m c : ℕ) → 0 < m → bit_and (c / 2) (m - 1) ≡ c / 2 % m → bit_and c (2 * m - 1) ≡ c % (2 * m)
mask_twice m c pos h =
    bit_and-halves c (2 * m - 1)
    ∙ ap (λ (t : ℕ). bit_and (c / 2) t * 2 + min (c % 2) ((2 * m - 1) % 2)) half
    ∙ ap (λ (t : ℕ). bit_and (c / 2) (m - 1) * 2 + min (c % 2) t) odd
    ∙ low
    ∙ sym (double-mod c m pos)
  where
    half : (2 * m - 1) / 2 ≡ m - 1
    half = omega arith

    odd : (2 * m - 1) % 2 ≡ 1
    odd = omega arith

    low : bit_and (c / 2) (m - 1) * 2 + min (c % 2) 1 ≡ 2 * (c / 2 % m) + c % 2
    low = omega (arith, h)

halved_mask : (m : ℕ) → 0 < m → bit_and (2 * m) (2 * m - 1) ≡ 0 → bit_and m (m - 1) ≡ 0
halved_mask m pos h = omega (
  arith,
  h,
  bit_and-halves (2 * m) (2 * m - 1),
  ap (λ (t : ℕ). bit_and (2 * m / 2) t) half,
  ap (λ (t : ℕ). bit_and t (m - 1)) whole_half,
)
  where
    half : (2 * m - 1) / 2 ≡ m - 1
    half = omega arith

    whole_half : 2 * m / 2 ≡ m
    whole_half = omega arith

-- An odd number that passes the test is 1.
odd_mask : (m : ℕ) → bit_and (2 * m + 1) (2 * m) ≡ 0 → m ≡ 0
odd_mask m h = omega (
  arith,
  h,
  bit_and-halves (2 * m + 1) (2 * m),
  ap (λ (t : ℕ). bit_and t (2 * m / 2)) up,
  ap (λ (t : ℕ). bit_and m t) down,
  bit_and_self m m (omega arith),
)
  where
    up : (2 * m + 1) / 2 ≡ m
    up = omega arith

    down : 2 * m / 2 ≡ m
    down = omega arith

mask-mod :
    (fuel cap c : ℕ)
    → cap ≤ fuel
    → 0 < cap
    → bit_and cap (cap - 1) ≡ 0
    → bit_and c (cap - 1) ≡ c % cap
mask-mod zero cap c le pos h = absurd (omega arith)
mask-mod (suc fuel) cap c le pos h = elim (dec_lt 0 (cap % 2)) [
  | yes odd ↦
      let twice : 2 * (cap / 2) + 1 ≡ cap = omega arith in
      let none_above : cap / 2 ≡ 0 = odd_mask (cap / 2) (ap₂ bit_and twice (omega arith) ∙ h) in
      let single : cap ≡ 1 = omega arith in
      rw single (bit_and_zero c c (omega arith) ∙ sym (mod-one c))
  | no even ↦
      let twice : 2 * (cap / 2) ≡ cap = omega arith in
      let below : bit_and (cap / 2) (cap / 2 - 1) ≡ 0 =
        halved_mask (cap / 2) (omega arith) (ap₂ bit_and twice (omega arith) ∙ h) in
      rw twice at (
        mask_twice (cap / 2) c (omega arith)
          (mask-mod fuel (cap / 2) (c / 2) (omega arith) (omega arith) below))
]

module _ {ℓ} {T : Type ℓ} where
  -- In a ring that the constructor made, and after any number of reads and writes, the slot of a
  -- counter is its remainder by the capacity, whether the ring uses the mask or the remainder.
  pub index-make :
      (default : T) (cap channels : ℕ) (r : SpscRing T) (counter : ℕ)
      → 0 < cap
      → r.cap ≡ (make default cap channels).cap
      → r.mask ≡ (make default cap channels).mask
      → index r counter ≡ counter % cap
  unfolding index make is_power
  index-make default cap channels r counter pos c m =
      ground (arith, c, m, pos, mask-mod cap cap counter (omega arith) pos)
