-- ===== src/Server/World.antt =====
-- The two planets on their orbits: internal/server/net/world.go.
use lodeen.Base.{if◌then◌else◌}
use lodeen.Base.Float.{Float, ◌⊕◌, ◌⊖◌, ◌⊗◌, ◌⊘◌, num, flt, sqrt32}
use lodeen.Protocol.Geometry.{
  Vector3, dist2, sun_pos, star2_pos, sun_distance, mu_sun, mu_star2, planet2_orbit_radius,
}
use lodeen.Server.State.{WorldState}

module _ {F : Type 0} ⦃fl : Float F⦄ where
  -- `float32(math.Sqrt(float64(mu) / float64(r)))`, the speed of a circular orbit.
  unfoldable pub circular_speed : F → F → F
  circular_speed mu r = fl.narrow (fl.wide.sqrt (fl.wide.div (fl.widen mu) (fl.widen r)))

  unfoldable pub new_world_state : WorldState F
  unfolding circular_speed
  new_world_state =
      let sun : Vector3 F = sun_pos in
      let star2 : Vector3 F = star2_pos in
      record {
        earth_pos = record sun { x = sun.x ⊕ sun_distance };
        earth_vel = record { x = num 0; y = num 0; z = circular_speed mu_sun sun_distance };
        planet2_pos = record star2 { x = star2.x ⊕ planet2_orbit_radius };
        planet2_vel = record {
          x = num 0;
          y = num 0;
          z = circular_speed mu_star2 planet2_orbit_radius;
        };
      }

  -- Position and velocity after a step of `dt` in the field of a mass at `center`.
  unfoldable pub tick_body : Vector3 F → Vector3 F → Vector3 F → F → F → Vector3 F × Vector3 F
  tick_body p v center mu dt =
      let dist = sqrt32 (dist2 center p) in
      let g = mu ⊘ (dist ⊗ dist) in
      let w : Vector3 F = record {
        x = v.x ⊕ (center.x ⊖ p.x) ⊘ dist ⊗ g ⊗ dt;
        y = v.y ⊕ (center.y ⊖ p.y) ⊘ dist ⊗ g ⊗ dt;
        z = v.z ⊕ (center.z ⊖ p.z) ⊘ dist ⊗ g ⊗ dt;
      } in
      if flt dist (num 1)
      then (p, v)
      else (record { x = p.x ⊕ w.x ⊗ dt; y = p.y ⊕ w.y ⊗ dt; z = p.z ⊕ w.z ⊗ dt }, w)

  -- `Tick` of a `WorldState`.
  unfoldable pub tick_world : F → WorldState F → WorldState F
  unfolding tick_body
  tick_world dt w =
      let (earth_pos, earth_vel) = tick_body w.earth_pos w.earth_vel sun_pos mu_sun dt in
      let (planet2_pos, planet2_vel) =
        tick_body w.planet2_pos w.planet2_vel star2_pos mu_star2 dt in
      record {
        earth_pos = earth_pos;
        earth_vel = earth_vel;
        planet2_pos = planet2_pos;
        planet2_vel = planet2_vel;
      }
