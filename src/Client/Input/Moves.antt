-- ===== src/Client/Input/Moves.antt =====
-- What happens to the flight controller from frame to frame, the ranges of speed and pitch, and the
-- moves that leave both alone.
use lodeen.Base.Float.{Float, lit, num, flt}
use lodeen.Base.{◌≡◌, ◌∙◌, arith, Bool, true, false, if◌then◌else◌}
use lodeen.Client.Input.{Raylib, Vector2, Keys, FlightController, Mode}
use lodeen.Protocol.Geometry.{Vector3}
use lodeen.Client.Input.Survival.{
  update_survival, commit, parallel_transport, project_to_tangent, init_rel_if_needed, fall,
  tick_physics_only, sync_to_earth_frame, max_pitch, walk,
}
use lodeen.Client.Input.Flight.{update_look_only, update, switch_mode, take_off}

module _ {F : Type 0} ⦃fl : Float F⦄ where
  -- A right angle, `math.Pi / 2` as a float32.
  abbrev pub half_pi : F
  half_pi = lit 15707963267948966 16

-- The constants of the pitch are in order: 0 and 89 degrees in either direction lie within 90.
pub record HasPitchLimits (F : Type 0) ⦃fl : Float F⦄ : Type 0 where
  pub looking_up : flt {F = F} max_pitch half_pi ≡ true
  pub looking_down : flt {F = F} (fl.ops.neg half_pi) (fl.ops.neg max_pitch) ≡ true
  pub wide : flt {F = F} max_pitch (fl.ops.neg max_pitch) ≡ false
  pub ahead_up : flt {F = F} half_pi (num 0) ≡ false
  pub ahead_down : flt {F = F} (num 0) (fl.ops.neg half_pi) ≡ false
  pub unit : flt {F = F} (num 1) (fl.ops.neg (num 1)) ≡ false

-- `math.Asin`, as documented, of a number from -1 to 1 or NaN, as a float32.
pub record HasAsinRange (F : Type 0) ⦃fl : Float F⦄ : Type 0 where
  pub asin_range :
      (s : F)
      → flt (num 1) s ≡ false
      → flt s (fl.ops.neg (num 1)) ≡ false
      → let angle = fl.narrow (fl.wide.asin (fl.widen s)) in
        (flt half_pi angle ≡ false) × (flt angle (fl.ops.neg half_pi) ≡ false)

module _ {F : Type 0} ⦃fl : Float F⦄ ⦃rl : Raylib F⦄ where
  -- What happens to the controller in a frame; `carries` is what the rest of the client sets.
  pub data FlightStep (f : FlightController F rl.Quaternion)
      : FlightController F rl.Quaternion → Type 0 where
    updates : (dt : F) (mouse : Vector2 F) (keys : Keys F) → FlightStep f (update dt mouse keys f)
    looks :
        (dt : F) (mouse : Vector2 F) (keys : Keys F)
        → FlightStep f (update_look_only dt mouse keys f)
    falls : (dt : F) → FlightStep f (tick_physics_only dt f)
    syncs : (dt : F) → FlightStep f (sync_to_earth_frame dt f)
    switches : (m : Mode) → FlightStep f (switch_mode m f)
    carries :
        (p v rel rel_vel earth sun earth_vel : Vector3 F) (riding in_boat helio rel_init : Bool)
        → FlightStep f (record f {
          at = p;
          vel = v;
          rel_pos = rel;
          rel_vel = rel_vel;
          rel_init = rel_init;
          earth_pos = earth;
          sun_pos = sun;
          earth_vel = earth_vel;
          riding = riding;
          in_boat = in_boat;
          helio_init = helio;
        })

  pub data FlightSteps (f : FlightController F rl.Quaternion)
      : FlightController F rl.Quaternion → Type 0 where
    here : FlightSteps f f
    next :
        {g h : FlightController F rl.Quaternion}
        → FlightSteps f g
        → FlightStep g h
        → FlightSteps f h

  -- The speed is not below 10 nor above 5000, the pitch not beyond a right angle on either side.
  pub record IsInRange (f : FlightController F rl.Quaternion) : Type 0 where
    pub fast : flt f.speed (num 10) ≡ false
    pub slow : flt (num 5000) f.speed ≡ false
    pub low : flt half_pi f.pitch ≡ false
    pub high : flt f.pitch (fl.ops.neg half_pi) ≡ false

  -- The same speed and pitch.
  abbrev pub Keeps : FlightController F rl.Quaternion → FlightController F rl.Quaternion → Type 0
  Keeps f g = (g.speed ≡ f.speed) × (g.pitch ≡ f.pitch)

  if-Keeps :
      (test : Bool) (f g h : FlightController F rl.Quaternion)
      → Keeps f g
      → Keeps f h
      → Keeps f (if test then g else h)
  if-Keeps true f g h kg kh = kg
  if-Keeps false f g h kg kh = kh

  commit-Keeps :
      (old_pos rel rel_vel : Vector3 F) (f : FlightController F rl.Quaternion)
      → Keeps f (commit old_pos rel rel_vel f)
  unfolding commit parallel_transport project_to_tangent
  commit-Keeps old_pos rel rel_vel f = ground arith

  init_rel_if_needed-Keeps : (f : FlightController F rl.Quaternion) → Keeps f (init_rel_if_needed f)
  unfolding init_rel_if_needed
  init_rel_if_needed-Keeps f = ground arith

  pub update_survival-Keeps :
      (dt : F) (keys : Keys F) (f : FlightController F rl.Quaternion)
      → Keeps f (update_survival dt keys f)
  unfolding update_survival walk
  update_survival-Keeps dt keys f =
      let started = init_rel_if_needed-Keeps f in
      let ended = commit-Keeps f.at _ _ (init_rel_if_needed f) in
      (ended.0 ∙ started.0, ended.1 ∙ started.1)

  fall-Keeps : (dt : F) (f : FlightController F rl.Quaternion) → Keeps f (fall dt f)
  unfolding fall
  fall-Keeps dt f = if-Keeps _ f _ _ (commit-Keeps f.at _ _ f) (commit-Keeps f.at _ _ f)

  pub tick_physics_only-Keeps :
      (dt : F) (f : FlightController F rl.Quaternion) → Keeps f (tick_physics_only dt f)
  unfolding tick_physics_only
  tick_physics_only-Keeps dt f = ground (arith, fall-Keeps dt f)

  pub sync_to_earth_frame-Keeps :
      (dt : F) (f : FlightController F rl.Quaternion) → Keeps f (sync_to_earth_frame dt f)
  unfolding sync_to_earth_frame
  sync_to_earth_frame-Keeps dt f = ground arith

  pub take_off-Keeps : (f : FlightController F rl.Quaternion) → Keeps f (take_off f)
  unfolding take_off
  take_off-Keeps f = ground arith

  pub Keeps-IsInRange :
      {f g : FlightController F rl.Quaternion} → Keeps f g → IsInRange f → IsInRange g
  Keeps-IsInRange k v = record {
    fast = rw (k.0) (v.fast);
    slow = rw (k.0) (v.slow);
    low = rw (k.1) (v.low);
    high = rw (k.1) (v.high);
  }
