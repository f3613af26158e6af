-- ===== src/Client/App/Frames/Lock.antt =====
-- A window holds the player on the planet.
use lodeen.Base.Float.{Float}
use lodeen.Base.{◌≡◌, refl, arith, true, some, if◌then◌else◌}
use lodeen.Client.App.Frames.{lock, hold, apply_ui_lock}
use lodeen.Client.App.State.{App, vector3_sum}
use lodeen.Client.Input.{Raylib, FlightController}
use lodeen.Protocol.Geometry.{Vector3}

module _ {F : Type 0} ⦃fl : Float F⦄ ⦃rl : Raylib F⦄ where
  -- The chat or a window is open, and the planet moves on between two frames: the second frame puts
  -- the player at the planet's new place plus the place held since the first, which is also the
  -- place in the planet's frame, and likewise the velocity. The first frame takes what is held from
  -- the flight as it is, unless a window was open before.
  pub apply_ui_lock-holds :
      (a : App F rl.Quaternion) (f : FlightController F rl.Quaternion) (e v : Vector3 F)
      → a.flight ≡ some f
      → (g : FlightController F rl.Quaternion) × ((apply_ui_lock true
            (record (apply_ui_lock true a) { earth_pos = e; earth_vel = v })).flight
          ≡ some g)
        × (g.rel_pos ≡ (lock f a).0)
        × (g.rel_vel ≡ (lock f a).1)
        × (g.at ≡ vector3_sum e (lock f a).0)
        × (g.vel ≡ vector3_sum v (lock f a).1)
  unfolding apply_ui_lock hold lock
  apply_ui_lock-holds a f e v h = (
    record f {
      rel_pos = (lock f a).0;
      rel_vel = (lock f a).1;
      rel_init = (if a.flight_locked then f.rel_init else true);
      at = vector3_sum e (lock f a).0;
      vel = vector3_sum v (lock f a).1;
    },
    ground arith,
    refl,
    refl,
    refl,
    refl,
  )
