-- ===== src/Ring/Fresh.antt =====
-- SpscRing of include/caudio/utils/ring.hpp: the ring that the constructor makes.
use native.Mathlib.Nat.{zero-mod, mod-eq_of_lt}
use caudio.Prelude.{
  ℕ, ◌*◌, ◌%◌, ◌<◌, ◌≡◌, refl, sym, ap, ◌∙◌, [], arith, word, replicate, length-replicate,
}
use caudio.Ring.{make}
use caudio.Ring.Mask.{index-make}
use caudio.Ring.Stored.{straight}
use caudio.Ring.Frames.{Holds}

module _ {ℓ} {T : Type ℓ} where
  -- A fresh ring with a capacity and channels, whose product is below 2^64, is in order and holds no
  -- frame.
  pub make-Holds :
      (default : T) (cap channels : ℕ)
      → 0 < cap
      → 0 < channels
      → cap * channels < word
      → Holds (make default cap channels) 0 []
  unfolding make
  make-Holds default cap channels pos audible fits = record {
    positive = pos;
    audible = audible;
    storage = length-replicate (cap * channels % word) default ∙ mod-eq_of_lt fits;
    counters = refl;
    bounded = omega arith;
    in_word = omega arith;
    samples = (let none : 0 ≡ 0 * channels = omega arith in none);
    slot = λ c. index-make default cap channels (make default cap channels) c pos refl refl;
    stored = straight [] (replicate (cap * channels % word) default) at refl;
  }
    where
      at : 0 ≡ 0 % cap * channels
      at =
          (let none : 0 ≡ 0 * channels = omega arith in none)
          ∙ ap (λ (c : ℕ). c * channels) (sym (zero-mod cap))
