-- ===== src/Server/Rockets/Orbit.antt =====
-- The parameters of a rocket's orbit: internal/server/net/rockets_orbit.go.
use lodeen.Base.{◌≡◌, Bool, true, false, ◌&&◌, not, arith, if◌then◌else◌}
use lodeen.Base.Float.{Float, ◌⊕◌, ◌⊖◌, ◌⊗◌, ◌⊘◌, num, flt, fle, sqrt32}
use lodeen.Protocol.Geometry.{
  Vector3, dot_self, norm, sun_pos, sun_radius, planet_radius, mu_earth, mu_sun,
}
use lodeen.Server.State.{Rocket}
use lodeen.Server.Rockets.{sub_vector}

-- The five results of `orbitalParams`.
pub record OrbitalParams (F : Type 0) : Type 0 where
  pub apo : F
  pub peri : F
  pub speed : F
  pub alt : F
  pub target_v : F

module _ {F : Type 0} ⦃fl : Float F⦄ where
  -- `atmosphereHeight`
  abbrev pub atmosphere_height : F
  atmosphere_height = num 50

  unfoldable pub dot : Vector3 F → Vector3 F → F
  dot a b = a.x ⊗ b.x ⊕ a.y ⊗ b.y ⊕ a.z ⊗ b.z

  -- The eccentricity.
  unfoldable pub eccentricity : Vector3 F → Vector3 F → F → F → F
  unfolding dot
  eccentricity rel vel r mu =
      let rv = dot rel vel in
      let k = dot_self vel ⊖ mu ⊘ r in
      norm (record {
        x = (k ⊗ rel.x ⊖ rv ⊗ vel.x) ⊘ mu;
        y = (k ⊗ rel.y ⊖ rv ⊗ vel.y) ⊘ mu;
        z = (k ⊗ rel.z ⊖ rv ⊗ vel.z) ⊘ mu;
      })

  -- Both heights are 0 on an open path, and close to the centre of the body.
  unfoldable pub orbital_params : Vector3 F → Vector3 F → Vector3 F → F → F → OrbitalParams F
  unfolding eccentricity sub_vector
  orbital_params p vel primary mu body_radius =
      let rel = sub_vector p primary in
      let r = norm rel in
      let v2 = dot_self vel in
      let energy = v2 ⊘ num 2 ⊖ mu ⊘ r in
      let a = fl.ops.neg mu ⊘ (num 2 ⊗ energy) in
      let e = eccentricity rel vel r mu in
      let no_orbit : OrbitalParams F = record {
        apo = num 0;
        peri = num 0;
        speed = sqrt32 v2;
        alt = r ⊖ body_radius;
        target_v = if flt (num 1) r then sqrt32 (mu ⊘ r) else num 0;
      } in
      if flt r (num 1) then no_orbit else if fle (num 0) energy then no_orbit else record no_orbit {
        apo = a ⊗ (num 1 ⊕ e) ⊖ body_radius;
        peri = a ⊗ (num 1 ⊖ e) ⊖ body_radius;
      }

  unfoldable pub is_stable : Bool → OrbitalParams F → Bool
  is_stable true o = flt atmosphere_height o.peri && flt atmosphere_height o.alt
  is_stable false o = flt (num 0) o.peri

  -- `stable` sets the flag where it was not set, and its absence clears it.
  unfoldable pub set_in_orbit : Bool → Rocket F → Rocket F
  set_in_orbit stable r =
      if stable && not r.in_orbit
      then record r { in_orbit = true }
      else if not stable
      then record r { in_orbit = false }
      else r

  unfoldable pub update_orbital_params : Vector3 F → Bool → Rocket F → Rocket F
  unfolding orbital_params is_stable set_in_orbit
  update_orbital_params ep is_earth r =
      let primary : Vector3 F = if is_earth then ep else sun_pos in
      let mu : F = if is_earth then mu_earth else mu_sun in
      let radius : F = if is_earth then planet_radius else sun_radius in
      let o = orbital_params r.at r.vel primary mu radius in
      set_in_orbit (is_stable is_earth o) (record r {
        apoapsis = o.apo;
        periapsis = o.peri;
        speed = o.speed;
        altitude = o.alt;
        target_velocity = o.target_v;
      })

  -- After a tick's update the flag says exactly that the orbit is stable: around the Earth the
  -- periapsis and the altitude are above the atmosphere, around the Sun the periapsis is above the
  -- surface. What the flag was before makes no difference.
  pub update_orbital_params-in_orbit :
      (ep : Vector3 F) (is_earth : Bool) (r : Rocket F)
      → let q = update_orbital_params ep is_earth r in
        q.in_orbit ≡ (
          if is_earth
          then flt atmosphere_height q.periapsis && flt atmosphere_height q.altitude
          else flt (num 0) q.periapsis)
  unfolding update_orbital_params is_stable set_in_orbit
  update_orbital_params-in_orbit ep true r = ground arith
  update_orbital_params-in_orbit ep false r = ground arith
