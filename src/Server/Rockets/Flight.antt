-- ===== src/Server/Rockets/Flight.antt =====
-- The tick of a piloted rocket: internal/server/net/rockets_tick.go, and `tickRockets` of
-- rockets.go. The phases are functions on the rocket, in the order of `tickPilotedRocket`.
use lodeen.Base.{ℕ, zero, suc, String, Bool, ◌&&◌, ◌||◌, not, ◌==◌, if◌then◌else◌}
use lodeen.Base.Int.{pos, pos_part, leb_ℤ}
use lodeen.Base.Map.{map_values}
use lodeen.Base.Float.{Float, ◌⊕◌, ◌⊖◌, ◌⊗◌, ◌⊘◌, lit, num, flt, fle, sqrt32}
use lodeen.Protocol.Geometry.{
  Vector3, origin, dot_self, norm, surface_radius, sun_pos, sun_radius, planet_radius, mu_earth,
  mu_sun, soi_earth,
}
use lodeen.Server.State.{Server, Rocket}
use lodeen.Server.Time.{time_sub, second}
use lodeen.Server.Rockets.{add_vector, sub_vector, div_vector, mul_vector, tick_free_rocket}
use lodeen.Server.Rockets.Orbit.{atmosphere_height, dot, update_orbital_params}

module _ {F : Type 0} ⦃fl : Float F⦄ where
  unfoldable pub is_zero_vector : Vector3 F → Bool
  is_zero_vector v = fl.ops.eq v.x (num 0) && fl.ops.eq v.y (num 0) && fl.ops.eq v.z (num 0)

  unfoldable pub neg_vector : Vector3 F → Vector3 F
  neg_vector v = record { x = fl.ops.neg v.x; y = fl.ops.neg v.y; z = fl.ops.neg v.z }

  unfoldable pub cross : Vector3 F → Vector3 F → Vector3 F
  cross a b = record {
    x = a.y ⊗ b.z ⊖ a.z ⊗ b.y;
    y = a.z ⊗ b.x ⊖ a.x ⊗ b.z;
    z = a.x ⊗ b.y ⊖ a.y ⊗ b.x;
  }

  -- The direction that the mode names; the zero vector where there is none.
  unfoldable pub autopilot_target : String → Vector3 F → Vector3 F → F → Vector3 F
  unfolding neg_vector cross div_vector mul_vector
  autopilot_target mode rel_pos rel_vel r_len =
      let v_len = norm rel_vel in
      let n = cross rel_pos rel_vel in
      let nl = norm n in
      let k : F = if mode == "antinormal" then fl.ops.neg (num 1) else num 1 in
      if mode == "prograde"
      then if flt (lit 1 1) v_len then div_vector rel_vel v_len else origin
      else if mode == "retrograde"
      then if flt (lit 1 1) v_len then div_vector (neg_vector rel_vel) v_len else origin
      else if mode == "radial_out"
      then if flt (lit 1 1) r_len then div_vector rel_pos r_len else origin
      else if mode == "radial_in"
      then if flt (lit 1 1) r_len then div_vector (neg_vector rel_pos) r_len else origin
      else if mode == "normal" || mode == "antinormal"
      then if flt (lit 1 2) nl then mul_vector (div_vector n nl) k else origin
      else origin

  unfoldable pub apply_autopilot : Vector3 F → Vector3 F → F → Rocket F → Rocket F
  unfolding is_zero_vector autopilot_target
  apply_autopilot rel_pos rel_vel dist_earth r =
      let target = autopilot_target r.auto_pilot rel_pos rel_vel dist_earth in
      if r.auto_pilot == ""
      then r
      else if is_zero_vector target
      then r
      else record r { target_up = target }

  -- `up` after a turn by the part `k` of the way to `t`.
  unfoldable pub turn : Vector3 F → Vector3 F → F → Vector3 F
  unfolding div_vector
  turn up t k =
      let u : Vector3 F = record {
        x = up.x ⊕ (t.x ⊖ up.x) ⊗ k;
        y = up.y ⊕ (t.y ⊖ up.y) ⊗ k;
        z = up.z ⊕ (t.z ⊖ up.z) ⊗ k;
      } in
      if flt (lit 1 2) (norm u) then div_vector u (norm u) else u

  -- `steerRate` is 3.
  unfoldable pub steer_up_toward_target : F → Rocket F → Rocket F
  unfolding is_zero_vector turn div_vector
  steer_up_toward_target dt r =
      let t_len = norm r.target_up in
      let t = div_vector r.target_up t_len in
      let d = dot r.up t in
      let d1 : F = if flt (num 1) d then num 1 else d in
      let d2 : F = if flt d1 (fl.ops.neg (num 1)) then fl.ops.neg (num 1) else d1 in
      let angle = fl.narrow (fl.wide.acos (fl.widen d2)) in
      let max_angle = num 3 ⊗ dt in
      if is_zero_vector r.target_up
      then r
      else if fle t_len (lit 1 2)
      then r
      else if flt max_angle angle && flt (lit 1 3) angle
      then record r { up = turn r.up t (max_angle ⊘ angle) }
      else record r { up = t }

  -- The pull of a body: `v` points away from it, `dist` is its length.
  unfoldable pub pull : Vector3 F → F → F → Vector3 F
  unfolding neg_vector div_vector mul_vector
  pull v dist g = mul_vector (div_vector (neg_vector v) dist) g

  -- The sums start at the zero of the named results. `maxGravity` is 500.
  unfoldable pub gravity_accel : Vector3 F → F → F → Bool → Vector3 F → Vector3 F
  unfolding pull add_vector
  gravity_accel rel_pos dist_earth dist_sun is_earth from_sun =
      let sun : Vector3 F =
        if flt (num 1) dist_sun
        then add_vector origin (pull from_sun dist_sun (mu_sun ⊘ (dist_sun ⊗ dist_sun)))
        else origin in
      let g = mu_earth ⊘ (dist_earth ⊗ dist_earth) in
      let g' : F = if flt (num 500) g then num 500 else g in
      if is_earth && flt (num 1) dist_earth
      then add_vector sun (pull rel_pos dist_earth g')
      else sun

  -- The loop that burns whole units: `n` units are left and `accum` waits to be burnt.
  unfoldable pub burn : ℕ → F → ℕ × F
  burn zero accum = (0, accum)
  burn (suc n) accum =
      let rest = burn n (accum ⊖ num 1) in if fle (num 1) accum then rest else (suc n, accum)

  -- `rocketFuelBurn` is 5.
  unfoldable pub burn_fuel : F → Rocket F → Rocket F
  unfolding burn
  burn_fuel dt r =
      let abs_thrust : F = if flt r.thrust (num 0) then fl.ops.neg r.thrust else r.thrust in
      let (left, accum) = burn (pos_part r.fuel) (r.fuel_accum ⊕ num 5 ⊗ dt ⊗ abs_thrust) in
      if r.infinite_fuel then r else record r { fuel = pos left; fuel_accum = accum }

  -- The rocket and the acceleration of its engine. `rocketThrustAccel` is 50.
  unfoldable pub consume_thrust : F → Rocket F → Rocket F × Vector3 F
  unfolding burn_fuel mul_vector
  consume_thrust dt r =
      if fl.ops.eq r.thrust (num 0) || leb_ℤ r.fuel (pos 0)
      then (r, origin)
      else (burn_fuel dt r, mul_vector r.up (num 50 ⊗ r.thrust))

  -- `atmoDensityCoef` is 0.02, `atmoScaleHeight` is 12.
  unfoldable pub apply_atmospheric_drag : Vector3 F → F → F → Rocket F → Rocket F
  unfolding add_vector sub_vector
  apply_atmospheric_drag ev dist_earth dt r =
      let w = fl.wide in
      let alt = dist_earth ⊖ planet_radius in
      let rel = sub_vector r.vel ev in
      let speed_sq = dot_self rel in
      let density = fl.narrow (w.exp (w.div (w.neg (fl.widen alt)) (w.lit 12 0))) in
      let speed = sqrt32 speed_sq in
      let dv = lit 2 2 ⊗ density ⊗ speed_sq ⊘ speed ⊗ dt in
      let dv' : F = if flt speed dv then speed else dv in
      let slower : Vector3 F = record {
        x = rel.x ⊖ rel.x ⊘ speed ⊗ dv';
        y = rel.y ⊖ rel.y ⊘ speed ⊗ dv';
        z = rel.z ⊖ rel.z ⊘ speed ⊗ dv';
      } in
      if fle alt (num 0) || fle atmosphere_height alt
      then r
      else if fle speed_sq (lit 1 2)
      then r
      else record r { vel = add_vector ev slower }

  -- `maxSpeedSoft` is 100.
  unfoldable pub apply_speed_limit : Vector3 F → Bool → Rocket F → Rocket F
  unfolding add_vector sub_vector mul_vector
  apply_speed_limit ev is_earth r =
      let rel = sub_vector r.vel ev in
      let speed_sq = dot_self rel in
      if not is_earth
      then r
      else if fle speed_sq (num 10000)
      then r
      else record r { vel = add_vector ev (mul_vector rel (num 100 ⊘ sqrt32 speed_sq)) }

  unfoldable pub collide_with_earth : Vector3 F → Vector3 F → Rocket F → Rocket F
  unfolding add_vector sub_vector mul_vector
  collide_with_earth ep ev r =
      let rel_vel = sub_vector r.vel ev in
      let new_rel = sub_vector r.at ep in
      let new_dist = norm new_rel in
      let surf_r = surface_radius new_rel in
      if fle (surf_r ⊕ lit 15 1) new_dist
      then r
      else if fle (num 0) (dot new_rel rel_vel) && fle surf_r new_dist
      then r
      else record r {
        at = add_vector ep (mul_vector new_rel ((surf_r ⊕ lit 15 1) ⊘ new_dist));
        vel = ev;
      }

  unfoldable pub collide_with_sun : Rocket F → Rocket F
  unfolding add_vector sub_vector mul_vector
  collide_with_sun r =
      let sd = sub_vector r.at sun_pos in
      let sun_dist_sq = dot_self sd in
      let clamp_r : F = lit 2515 1 in
      let root = sqrt32 sun_dist_sq in
      let sun_dist : F = if flt root (lit 1 2) then lit 1 2 else root in
      if fle (clamp_r ⊗ clamp_r) sun_dist_sq
      then r
      else if fle (num 0) (dot r.vel sd) && fle sun_radius sun_dist
      then r
      else record r {
        at = add_vector sun_pos (mul_vector sd (clamp_r ⊘ sun_dist));
        vel = origin;
        primary_body = "sun";
      }

  unfoldable pub update_rocket_frame : Vector3 F → Bool → F → Rocket F → Rocket F
  unfolding sub_vector
  update_rocket_frame ep is_earth dist_sun r = record r {
    local_pos = if is_earth then sub_vector r.at ep else sub_vector r.at sun_pos;
    primary_body = if is_earth then "earth" else "sun";
    dist_sun = dist_sun;
    soi_radius = soi_earth;
  }

  -- The time of the last line in the log.
  unfoldable pub log_rocket_tick : ℕ → Rocket F → Rocket F
  log_rocket_tick now r =
      if leb_ℤ (time_sub now r.last_log_at) (pos second) then r else record r { last_log_at = now }

  -- The engine and gravity, up to the new velocity.
  unfoldable pub accelerate : F → Vector3 F → Rocket F → Rocket F
  unfolding consume_thrust
  accelerate dt g r =
      let (q, t) = consume_thrust dt r in
      let v : Vector3 F = q.vel in
      record q {
        vel = record {
          x = v.x ⊕ (g.x ⊕ t.x) ⊗ dt;
          y = v.y ⊕ (g.y ⊕ t.y) ⊗ dt;
          z = v.z ⊕ (g.z ⊕ t.z) ⊗ dt;
        };
      }

  unfoldable pub move_rocket : F → Rocket F → Rocket F
  unfolding add_vector mul_vector
  move_rocket dt r = record r { at = add_vector r.at (mul_vector r.vel dt) }

  unfoldable pub tick_piloted_rocket : ℕ → Vector3 F → Vector3 F → F → Rocket F → Rocket F
  unfolding apply_autopilot steer_up_toward_target gravity_accel accelerate apply_atmospheric_drag
      apply_speed_limit move_rocket collide_with_earth update_rocket_frame collide_with_sun
      update_orbital_params log_rocket_tick sub_vector
  tick_piloted_rocket now ep ev dt r =
      let rel_pos = sub_vector r.at ep in
      let rel_vel = sub_vector r.vel ev in
      let dist_earth = norm rel_pos in
      let from_sun = sub_vector r.at sun_pos in
      let dist_sun = norm from_sun in
      let is_earth = flt dist_earth soi_earth in
      let r1 = steer_up_toward_target dt (apply_autopilot rel_pos rel_vel dist_earth r) in
      let g = gravity_accel rel_pos dist_earth dist_sun is_earth from_sun in
      let r2 = accelerate dt g r1 in
      let r3 : Rocket F = if is_earth then apply_atmospheric_drag ev dist_earth dt r2 else r2 in
      let r4 = move_rocket dt (apply_speed_limit ev is_earth r3) in
      let r5 : Rocket F = if is_earth then collide_with_earth ep ev r4 else r4 in
      let r6 = collide_with_sun (update_rocket_frame ep is_earth dist_sun r5) in
      log_rocket_tick now (update_orbital_params ep is_earth r6)

  unfoldable pub tick_rocket : ℕ → Vector3 F → Vector3 F → F → Rocket F → Rocket F
  unfolding tick_piloted_rocket
  tick_rocket now ep ev dt r =
      if not r.piloted then tick_free_rocket ep ev r else tick_piloted_rocket now ep ev dt r

  unfoldable pub tick_rockets : ℕ → F → Server F → Server F
  unfolding tick_rocket
  tick_rockets now dt s = record s {
    rockets = map_values (tick_rocket now s.world.earth_pos s.world.earth_vel dt) s.rockets;
  }
