-- ===== src/Protocol/Geometry.antt =====
-- Coordinates, the constants of the two star systems and the terrain:
-- internal/shared/protocol/constants.go, terrain.go, and `Vector3` of messages_snapshot.go.
pub mod Surface
use lodeen.Base.{ℕ, Bool, if◌then◌else◌}
use lodeen.Base.Float.{Float, ◌⊕◌, ◌⊖◌, ◌⊗◌, ◌⊘◌, lit, num, flt, sqrt32}

pub record Vector3 (F : Type 0) : Type 0 where
  pub x : F
  pub y : F
  pub z : F

module _ {F : Type 0} ⦃fl : Float F⦄ where
  -- The value `Vector3{}`.
  abbrev pub origin : Vector3 F
  origin = record { x = num 0; y = num 0; z = num 0 }

  abbrev pub sun_distance : F
  sun_distance = num 5000

  abbrev pub sun_radius : F
  sun_radius = num 250

  abbrev pub planet_radius : F
  planet_radius = num 50

  abbrev pub player_height : F
  player_height = lit 15 1

  abbrev pub mu_earth : F
  mu_earth = num 100000

  abbrev pub mu_sun : F
  mu_sun = num 2000000

  abbrev pub soi_earth : F
  soi_earth = num 400

  abbrev pub star2_distance : F
  star2_distance = num 30000

  abbrev pub star2_radius : F
  star2_radius = num 180

  abbrev pub mu_star2 : F
  mu_star2 = num 1500000

  abbrev pub planet2_orbit_radius : F
  planet2_orbit_radius = num 3000

  abbrev pub planet2_radius : F
  planet2_radius = num 60

  -- `PlanetRadius + 2.0` is a constant expression, exact.
  abbrev pub sea_level : F
  sea_level = num 52

  -- `v.X*v.X + v.Y*v.Y + v.Z*v.Z`
  unfoldable pub dot_self : Vector3 F → F
  dot_self v = v.x ⊗ v.x ⊕ v.y ⊗ v.y ⊕ v.z ⊗ v.z

  -- `float32(math.Sqrt(float64(…)))` of that sum.
  unfoldable pub norm : Vector3 F → F
  norm v = sqrt32 (dot_self v)

  -- The direction at a distance, `Vector3{X: d.X / l * r, …}`.
  unfoldable pub star_position : Vector3 F → F → Vector3 F
  star_position d r = let l = norm d in record { x = d.x ⊘ l ⊗ r; y = d.y ⊘ l ⊗ r; z = d.z ⊘ l ⊗ r }

  -- `SunPos`, along `SunDirection`.
  unfoldable pub sun_pos : Vector3 F
  sun_pos = star_position (record { x = lit 70 2; y = lit 0 2; z = lit 70 2 }) sun_distance

  -- `Star2Pos`, along `Star2Direction`.
  unfoldable pub star2_pos : Vector3 F
  star2_pos =
      star_position (record { x = fl.ops.neg (lit 707 3); y = num 0; z = fl.ops.neg (lit 707 3) })
        star2_distance

  -- `h := sin * cos * sin * MaxRelief * 0.6`, and two finer waves: the sines and cosines are those
  -- of float64, the factors 12 * 0.6 and so on are applied one by one in float32.
  unfoldable pub terrain_height : F → F → F → F
  terrain_height nx ny nz =
      let w = fl.wide in
      let relief : F = num 12 in
      let a = fl.narrow (
        w.mul (w.mul (w.sin (fl.widen (nx ⊗ lit 31 1))) (w.cos (fl.widen (ny ⊗ lit 27 1))))
          (w.sin (fl.widen (nz ⊗ lit 33 1)))) in
      let b = fl.narrow (
        w.mul (w.sin (fl.widen (nx ⊗ lit 73 1 ⊕ ny ⊗ lit 51 1)))
          (w.cos (fl.widen (nz ⊗ lit 67 1)))) in
      let c = fl.narrow (w.cos (fl.widen (nx ⊗ lit 115 1 ⊕ ny ⊗ lit 131 1 ⊕ nz ⊗ lit 97 1))) in
      planet_radius ⊕ (a ⊗ relief ⊗ lit 6 1 ⊕ b ⊗ relief ⊗ lit 3 1 ⊕ c ⊗ relief ⊗ lit 1 1)

  unfoldable pub surface_radius : Vector3 F → F
  surface_radius p =
      let l = norm p in
      let h = terrain_height (p.x ⊘ l) (p.y ⊘ l) (p.z ⊘ l) in
      if flt l (lit 1 2) then planet_radius else if flt h sea_level then sea_level else h

  -- The point at height `h` in the direction of `p`, whose length is `l`.
  unfoldable pub at_height : Vector3 F → F → F → Vector3 F
  at_height p l h = record { x = p.x ⊘ l ⊗ h; y = p.y ⊘ l ⊗ h; z = p.z ⊘ l ⊗ h }

  unfoldable pub clamp_to_surface : Vector3 F → Vector3 F
  clamp_to_surface p =
      let l = norm p in
      let h = terrain_height (p.x ⊘ l) (p.y ⊘ l) (p.z ⊘ l) in
      if flt l (lit 1 2) then p else at_height p l (if flt h sea_level then sea_level else h)

  -- `dx*dx + dy*dy + dz*dz` from `b` to `a`, in float32.
  unfoldable pub dist2 : Vector3 F → Vector3 F → F
  dist2 a b =
      let dx = a.x ⊖ b.x in let dy = a.y ⊖ b.y in let dz = a.z ⊖ b.z in dx ⊗ dx ⊕ dy ⊗ dy ⊕ dz ⊗ dz

  -- `dx*dx+dy*dy+dz*dz > r2` with `dx := float64(a.X - b.X)`, in float64.
  unfoldable pub is_beyond : Vector3 F → Vector3 F → ℕ → Bool
  is_beyond a b r2 =
      let w = fl.wide in
      let dx = fl.widen (a.x ⊖ b.x) in
      let dy = fl.widen (a.y ⊖ b.y) in
      let dz = fl.widen (a.z ⊖ b.z) in
      w.lt (w.lit r2 0) (w.add (w.add (w.mul dx dx) (w.mul dy dy)) (w.mul dz dz))
