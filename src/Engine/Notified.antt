-- ===== src/Engine/Notified.antt =====
-- The callbacks of pushEvent in src/engine/engine.cpp, described by cases.
use caudio.Prelude.{
  ◌≡◌, refl, ap, Bool, inl, inr, Bool-cases, true, false, List, [], ◌∷◌, ◌++◌, if◌then◌else◌,
}
use caudio.Engine.{
  Floats, EngineEvent, EventType, no_event, track_started, track_ended, queue_changed, progress,
  failure, Callbacks, Called, started, ended, changed, errored,
}
use caudio.Engine.Play.{ended_pct, dispatched, prepend}

module _ {F : Type 0} ⦃fl : Floats F⦄ where
  -- The position of an event in percent of its duration.
  abbrev pub share_of : EngineEvent F → F
  share_of ev = fl.mul (fl.div ev.position ev.duration) (fl.of_int 100)

  -- The percentage heard of a track: 0 for one without a duration, else in [0, 100].
  pub data Heard (ev : EngineEvent F) : F → Type 0 where
    no_duration : fl.lt (fl.of_int 0) ev.duration ≡ false → Heard ev (fl.of_int 0)
    below :
        fl.lt (fl.of_int 0) ev.duration ≡ true
        → fl.lt (share_of ev) (fl.of_int 0) ≡ true
        → Heard ev (fl.of_int 0)
    above :
        fl.lt (fl.of_int 0) ev.duration ≡ true
        → fl.lt (share_of ev) (fl.of_int 0) ≡ false
        → fl.lt (fl.of_int 100) (share_of ev) ≡ true
        → Heard ev (fl.of_int 100)
    within :
        fl.lt (fl.of_int 0) ev.duration ≡ true
        → fl.lt (share_of ev) (fl.of_int 0) ≡ false
        → fl.lt (fl.of_int 100) (share_of ev) ≡ false
        → Heard ev (share_of ev)

  -- Which callbacks an event invokes, and with what: the one for its kind, where it is set.
  pub data Notifies (cbs : Callbacks) (ev : EngineEvent F) : List (Called F) → Type 0 where
    tells_start :
        ev.type ≡ track_started
        → cbs.on_track_started ≡ true
        → Notifies cbs ev (started ev.track_id ∷ [])
    no_start : ev.type ≡ track_started → cbs.on_track_started ≡ false → Notifies cbs ev []
    tells_end :
        (pct : F)
        → ev.type ≡ track_ended
        → cbs.on_track_ended ≡ true
        → Heard ev pct
        → Notifies cbs ev (ended ev.track_id pct ∷ [])
    no_end : ev.type ≡ track_ended → cbs.on_track_ended ≡ false → Notifies cbs ev []
    tells_change :
        ev.type ≡ queue_changed
        → cbs.on_queue_changed ≡ true
        → Notifies cbs ev (changed ev.queue_id ∷ [])
    no_change : ev.type ≡ queue_changed → cbs.on_queue_changed ≡ false → Notifies cbs ev []
    tells_error : ev.type ≡ failure → cbs.on_error ≡ true → Notifies cbs ev (errored ev.msg ∷ [])
    no_error : ev.type ≡ failure → cbs.on_error ≡ false → Notifies cbs ev []
    reports : ev.type ≡ progress → Notifies cbs ev []
    blank : ev.type ≡ no_event → Notifies cbs ev []

  clamped_end :
      (ev : EngineEvent F)
      → fl.lt (fl.of_int 100) (fl.of_int 0) ≡ false
      → fl.lt (fl.of_int 0) ev.duration ≡ true
      → Heard ev (ended_pct ev)
  unfolding ended_pct
  clamped_end ev usual d = elim (Bool-cases (fl.lt (share_of ev) (fl.of_int 0))) [
    | inl low ↦ rw (d, low, usual) (below d low)
    | inr ge ↦ elim (Bool-cases (fl.lt (fl.of_int 100) (share_of ev))) [
      | inl high ↦ rw (d, ge, high) (above d ge high)
      | inr le ↦ rw (d, ge, le) (within d ge le)
    ]
  ]

  ended_pct-Heard :
      (ev : EngineEvent F) → fl.lt (fl.of_int 100) (fl.of_int 0) ≡ false → Heard ev (ended_pct ev)
  unfolding ended_pct
  ended_pct-Heard ev usual = elim (Bool-cases (fl.lt (fl.of_int 0) ev.duration)) [
    | inl d ↦ clamped_end ev usual d
    | inr z ↦ rw z (no_duration z)
  ]

  if_set :
      (P : List (Called F) → Type 0) (b : Bool) (new : List (Called F))
      → (b ≡ true → P new)
      → (b ≡ false → P [])
      → P (if b then new else [])
  if_set P true new on off = on refl
  if_set P false new on off = off refl

  pub dispatched-Notifies :
      (cbs : Callbacks) (ev : EngineEvent F) (kind : EventType)
      → ev.type ≡ kind
      → fl.lt (fl.of_int 100) (fl.of_int 0) ≡ false
      → Notifies cbs ev (dispatched cbs kind ev)
  unfolding dispatched
  dispatched-Notifies cbs ev track_started k usual =
      if_set (Notifies cbs ev) _ _ (tells_start k) (no_start k)
  dispatched-Notifies cbs ev track_ended k usual =
      if_set (Notifies cbs ev) _ _
        (λ set. tells_end (ended_pct ev) k set (ended_pct-Heard ev usual)) (no_end k)
  dispatched-Notifies cbs ev queue_changed k usual =
      if_set (Notifies cbs ev) _ _ (tells_change k) (no_change k)
  dispatched-Notifies cbs ev failure k usual =
      if_set (Notifies cbs ev) _ _ (tells_error k) (no_error k)
  dispatched-Notifies cbs ev progress k usual = reports k
  dispatched-Notifies cbs ev no_event k usual = blank k

  pub prepend_lem : (new old : List (Called F)) → prepend new old ≡ new ++ old
  prepend_lem [] old = refl
  prepend_lem (c ∷ new) old = ap (◌∷◌ c) (prepend_lem new old)
