-- ===== src/Engine/Life/Born.antt =====
-- From the construction of src/engine/engine.cpp on, the machine is sound.
use caudio.Prelude.{◌≡◌, refl, ◌∙◌, Bool, true, false, List, arith}
use caudio.Engine.{Floats, World, Engine, EngineConfig, stopped}
use caudio.Engine.Persist.{attach_database, load_state, restored}
use caudio.Engine.Life.{construct, init}
use caudio.Engine.View.{view}
use caudio.Engine.Machine.{Command}
use caudio.Engine.Machine.Sound.{Sound, performed, performed-Sound}

module _ {F : Type 0} ⦃fl : Floats F⦄ (w : World F) where
  -- A new engine with its database loaded.
  abbrev pub opened_engine : EngineConfig → Bool → Engine F
  opened_engine cfg given = (attach_database w given (init w (construct w cfg))).0

  load_state-rest :
      (e : Engine F)
      → ((load_state w e).0.playback_state ≡ e.playback_state)
        × ((load_state w e).0.has_current ≡ e.has_current)
  unfolding load_state restored
  load_state-rest e = ground arith

  attach-rest :
      (given : Bool) (e : Engine F)
      → ((attach_database w given e).0.playback_state ≡ e.playback_state)
        × ((attach_database w given e).0.has_current ≡ e.has_current)
  unfolding attach_database
  attach-rest given e = ground (arith, load_state-rest (record e { attached = true }))

  opened-rest :
      (cfg : EngineConfig) (given : Bool)
      → ((opened_engine cfg given).playback_state ≡ stopped)
        × ((opened_engine cfg given).has_current ≡ false)
  opened-rest cfg given =
      let (p, c) = attach-rest given (init w (construct w cfg)) in
      (p ∙ (unfold init construct in refl), c ∙ (unfold init construct in refl))

  Sound-at_rest :
      (e : Engine F) → e.playback_state ≡ stopped → e.has_current ≡ false → Sound (view e)
  unfolding view
  Sound-at_rest e p c = record {
    has_track = λ h. absurd (ground arith);
    same_track = λ h. absurd (ground arith);
    never_ready = λ h. absurd (ground arith);
  }

  opened-Sound : (cfg : EngineConfig) (given : Bool) → Sound (view (opened_engine cfg given))
  opened-Sound cfg given =
      let (p, c) = opened-rest cfg given in Sound-at_rest (opened_engine cfg given) p c

  -- From the construction on, with any configuration and whatever row the database holds: after
  -- every sequence of commands, whatever the database, the media, the device and the lock do at
  -- each, a playing or paused engine has a current track, whose id is the one in the state to
  -- persist, and the state is never `ready`.
  pub opened-performed :
      (cfg : EngineConfig) (given : Bool) (cs : List (World F × Command F))
      → Sound (view (performed cs (opened_engine cfg given)))
  opened-performed cfg given cs =
      performed-Sound cs (opened_engine cfg given) (opened-Sound cfg given)
