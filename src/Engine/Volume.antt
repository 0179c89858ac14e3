-- ===== src/Engine/Volume.antt =====
-- setVolume and setPreMuteVolume of src/engine/engine.cpp, clampVolume of
-- include/caudio/utils/math.hpp.
use caudio.Prelude.{◌≡◌, sym, ◌∙◌, true, false, inl, inr, Bool-cases, Option, none, some, arith}
use caudio.Engine.{Floats, World, Engine, Output}
use caudio.Engine.Persist.{save_state}
use caudio.Engine.Settings.{clamp_volume, set_volume}

-- What the comparisons of the literals 0 and 1 give; both are finite.
pub record Literals (F : Type 0) ⦃fl : Floats F⦄ : Type 0 where
  pub zero_zero : fl.lt (fl.of_int 0) (fl.of_int 0) ≡ false
  pub one_one : fl.lt (fl.of_int 1) (fl.of_int 1) ≡ false
  pub one_zero : fl.lt (fl.of_int 1) (fl.of_int 0) ≡ false
  pub finite_zero : fl.is_finite (fl.of_int 0) ≡ true
  pub finite_one : fl.is_finite (fl.of_int 1) ≡ true

module _ {F : Type 0} ⦃fl : Floats F⦄ where
  -- A gain that the device takes: neither below 0 nor above 1.
  abbrev pub InRange : F → Type 0
  InRange g = (fl.lt g (fl.of_int 0) ≡ false) × (fl.lt (fl.of_int 1) g ≡ false)

  -- The volume nearest to a requested one in [0, 1], and 0 where that is not a finite number.
  pub data Nearest (v : F) : F → Type 0 where
    not_finite : fl.is_finite v ≡ false → Nearest v (fl.of_int 0)
    below : fl.is_finite v ≡ true → fl.lt v (fl.of_int 0) ≡ true → Nearest v (fl.of_int 0)
    above :
        fl.is_finite v ≡ true
        → fl.lt v (fl.of_int 0) ≡ false
        → fl.lt (fl.of_int 1) v ≡ true
        → Nearest v (fl.of_int 1)
    inside : fl.is_finite v ≡ true → InRange v → Nearest v v

  clamp-Nearest : (v : F) → Nearest v (clamp_volume v)
  unfolding clamp_volume
  clamp-Nearest v = elim (Bool-cases (fl.is_finite v)) [
    | inr nan ↦ rw nan (not_finite nan)
    | inl fin ↦ elim (Bool-cases (fl.lt v (fl.of_int 0))) [
      | inl low ↦ rw (fin, low) (below fin low)
      | inr ge ↦ elim (Bool-cases (fl.lt (fl.of_int 1) v)) [
        | inl high ↦ rw (fin, ge, high) (above fin ge high)
        | inr le ↦ rw (fin, ge, le) (inside fin (ge, le))
      ]
    ]
  ]

  Nearest-finite : Literals F → (v g : F) → Nearest v g → fl.is_finite g ≡ true
  Nearest-finite h v g (not_finite nan) = h.finite_zero
  Nearest-finite h v g (below fin low) = h.finite_zero
  Nearest-finite h v g (above fin ge high) = h.finite_one
  Nearest-finite h v g (inside fin r) = fin

  clamp-InRange : Literals F → (v : F) → InRange (clamp_volume v)
  unfolding clamp_volume
  clamp-InRange h v = ground (arith, h.zero_zero, h.one_one, h.one_zero)

  clamp_same : (v : F) → fl.is_finite v ≡ true → InRange v → clamp_volume v ≡ v
  unfolding clamp_volume
  clamp_same v f r = ground arith

  abbrev pub gain_of : Option (Output F) → F → F
  gain_of none d = d
  gain_of (some o) d = o.gain

  set_volume-fields :
      (w : World F) (v : F) (e : Engine F)
      → ((set_volume w v e).0.state.volume ≡ clamp_volume v)
        × ((set_volume w v e).0.volume ≡ clamp_volume v)
        × (gain_of (set_volume w v e).0.output (set_volume w v e).0.volume
            ≡ (set_volume w v e).0.volume)
  unfolding set_volume save_state
  set_volume-fields w v e = ground arith

  -- After `setVolume(v)` the volume is a finite number that is neither below 0 nor above 1: `v`
  -- itself in that range, the nearer end for a finite `v` outside it, and 0 for NaN and the
  -- infinities; the state to persist and the open device have the same volume. The comparisons of
  -- the literals 0 and 1 are the usual ones, and both are finite.
  pub set_volume-InRange :
      (w : World F) (v : F) (e : Engine F)
      → Literals F
      → let e' = (set_volume w v e).0 in
        Nearest v e'.volume
        × (fl.is_finite e'.volume ≡ true)
        × InRange e'.volume
        × (e'.state.volume ≡ e'.volume)
        × (gain_of e'.output e'.volume ≡ e'.volume)
  set_volume-InRange w v e h =
      let (stored, shown, device) = set_volume-fields w v e in
      (
        rw shown (clamp-Nearest v),
        rw shown (Nearest-finite h v (clamp_volume v) (clamp-Nearest v)),
        rw shown (clamp-InRange h v),
        stored ∙ sym shown,
        device,
      )

  -- A finite `v` in [0, 1] is the volume that `setVolume(v)` leaves.
  pub set_volume_same :
      (w : World F) (v : F) (e : Engine F)
      → fl.is_finite v ≡ true
      → InRange v
      → (set_volume w v e).0.volume ≡ v
  set_volume_same w v e f r = (set_volume-fields w v e).1 ∙ clamp_same v f r
