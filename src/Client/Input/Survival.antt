-- ===== src/Client/Input/Survival.antt =====
-- Walking on the planet: internal/client/input/flight_survival.go, and `TickPhysicsOnly` and
-- `SyncToEarthFrame` of flight_physics.go.
use lodeen.Base.Float.{Float, ◌⊕◌, ◌⊖◌, ◌⊗◌, ◌⊘◌, lit, num, flt, fle, fne}
use lodeen.Base.{Bool, true, not, ◌&&◌, ◌==◌, if◌then◌else◌}
use lodeen.Client.Input.{
  Raylib, Vector2, Keys, FlightController, creative, survival, axis_y, axis_z, at_least_hundredth,
  tangent_part,
}
use lodeen.Protocol.Geometry.{
  Vector3, origin, terrain_height, surface_radius, sea_level, player_height,
}

-- `survivalGeom`
pub record SurvivalGeom (F : Type 0) : Type 0 where
  pub dir : Vector3 F
  pub dist : F
  pub min_r : F
  pub on_ground : Bool
  pub walk_speed : F

module _ {F : Type 0} ⦃fl : Float F⦄ where
  -- `89 * math.Pi / 180`, to more digits than a float32 holds.
  abbrev pub max_pitch : F
  max_pitch = lit 15533430342749533 16

  -- `const gravity = 30.0`
  abbrev pub gravity : F
  gravity = num 30

  unfoldable pub clamp_pitch : F → F
  clamp_pitch p =
      let low = if flt max_pitch p then max_pitch else p in
      if flt low (fl.ops.neg max_pitch) then fl.ops.neg max_pitch else low

  -- The factor of the walking speed: riding, in a boat on water or on land, swimming.
  unfoldable pub walk_factor : Bool → Bool → Bool → F → F
  walk_factor riding in_boat over_water speed =
      if riding
      then speed ⊗ lit 25 1
      else if in_boat && over_water
      then speed ⊗ num 2
      else if in_boat && not over_water
      then speed ⊗ lit 15 2
      else if over_water && not in_boat
      then speed ⊗ lit 35 2
      else speed

module _ {F : Type 0} ⦃fl : Float F⦄ ⦃rl : Raylib F⦄ where
  unfoldable pub survival_up : FlightController F rl.Quaternion → Vector3 F
  unfolding at_least_hundredth
  survival_up f =
      let rel = rl.subtract f.at f.earth_pos in
      rl.scale rel (num 1 ⊘ at_least_hundredth (rl.length_of rel))

  -- `v` without its part along `up`, and at length 1; two other directions where that is too short.
  unfoldable pub project : Vector3 F → Vector3 F → Vector3 F
  unfolding tangent_part
  project up v =
      let out = tangent_part v up in
      let l = rl.length_of out in
      let from_z = tangent_part axis_z up in
      let lz = rl.length_of from_z in
      if flt (lit 1 3) l
      then rl.scale out (num 1 ⊘ l)
      else if flt (lit 1 3) lz
      then rl.scale from_z (num 1 ⊘ lz)
      else rl.normalize (tangent_part axis_y up)

  unfoldable pub project_to_tangent : FlightController F rl.Quaternion → Vector3 F → Vector3 F
  unfolding survival_up project
  project_to_tangent f v = project (survival_up f) v

  unfoldable pub update_survival_look :
      Vector2 F → FlightController F rl.Quaternion → FlightController F rl.Quaternion
  unfolding survival_up project_to_tangent clamp_pitch
  update_survival_look mouse f =
      let up = survival_up f in
      let turn = rl.from_axis_angle up (fl.ops.neg mouse.x ⊗ f.sensitivity) in
      record f {
        tangent_forward =
            if fne mouse.x (num 0)
            then project_to_tangent f (rl.rotate f.tangent_forward turn)
            else f.tangent_forward;
        pitch = clamp_pitch (f.pitch ⊖ mouse.y ⊗ f.sensitivity);
      }

  unfoldable pub parallel_transport :
      Vector3 F → Vector3 F → FlightController F rl.Quaternion → FlightController F rl.Quaternion
  parallel_transport old_pos new_pos f =
      let old_up = rl.normalize (rl.subtract old_pos f.earth_pos) in
      let new_up = rl.normalize (rl.subtract new_pos f.earth_pos) in
      if flt (rl.distance old_up new_up) (lit 1 4) then f else record f {
        tangent_forward = rl.rotate f.tangent_forward (rl.from_vectors old_up new_up);
      }

  unfoldable pub init_rel_if_needed :
      FlightController F rl.Quaternion → FlightController F rl.Quaternion
  init_rel_if_needed f = if f.rel_init then f else record f {
    rel_pos = rl.subtract f.at f.earth_pos;
    rel_vel = rl.subtract f.vel f.earth_vel;
    rel_init = true;
  }

  unfoldable pub compute_survival_geom :
      FlightController F rl.Quaternion → Vector3 F → F → F → SurvivalGeom F
  unfolding at_least_hundredth walk_factor
  compute_survival_geom f rel ground_eps base_walk_speed =
      let dist = at_least_hundredth (rl.length_of rel) in
      let dir = rl.scale rel (num 1 ⊘ dist) in
      let over_water = flt (terrain_height dir.x dir.y dir.z) sea_level in
      let min_r = surface_radius dir ⊕ player_height in
      record {
        dir = dir;
        dist = dist;
        min_r = min_r;
        on_ground = fle dist (min_r ⊕ ground_eps);
        walk_speed = walk_factor f.riding f.in_boat over_water base_walk_speed;
      }

  -- The direction of the keys W, S, D, A, from `forward` and `right`.
  unfoldable pub wish_of : Keys F → Vector3 F → Vector3 F → Vector3 F
  wish_of keys forward right =
      let w1 = if keys.w then rl.add origin forward else origin in
      let w2 = if keys.s then rl.subtract w1 forward else w1 in
      let w3 = if keys.d then rl.add w2 right else w2 in if keys.a then rl.subtract w3 right else w3

  unfoldable pub apply_walk_input :
      Keys F → Vector3 F → Vector3 F → SurvivalGeom F → FlightController F rl.Quaternion → Vector3 F
  unfolding wish_of tangent_part
  apply_walk_input keys rel_vel up g f =
      let fw_tan = f.tangent_forward in
      let wish0 = wish_of keys fw_tan (rl.normalize (rl.cross_product fw_tan up)) in
      let l = rl.length_of wish0 in
      let wish = if flt (num 0) l then rl.scale wish0 (g.walk_speed ⊘ l) else wish0 in
      let vel_tan = tangent_part rel_vel up in
      let pull = rl.subtract wish vel_tan in
      let moved =
        if g.on_ground
        then rl.scale (rl.add vel_tan (rl.scale pull (lit 25 2))) (lit 75 2)
        else rl.add vel_tan (rl.scale pull (lit 5 2)) in
      rl.add (rl.scale up (rl.dot_product rel_vel up)) moved

  unfoldable pub collide_with_surface : Vector3 F → Vector3 F → F → Vector3 F × Vector3 F
  collide_with_surface rel rel_vel min_r =
      let new_dist = rl.length_of rel in
      let lifted = rl.scale rel (min_r ⊘ new_dist) in
      let nr = rl.normalize lifted in
      let vr = rl.dot_product rel_vel nr in
      if fle min_r new_dist
      then (rel, rel_vel)
      else (lifted, (if flt vr (num 0) then rl.subtract rel_vel (rl.scale nr vr) else rel_vel))

  -- The new place and velocity, in the planet's frame and outside, and the body's direction.
  unfoldable pub commit :
      Vector3 F
      → Vector3 F
      → Vector3 F
      → FlightController F rl.Quaternion
      → FlightController F rl.Quaternion
  unfolding parallel_transport project_to_tangent
  commit old_pos rel rel_vel f =
      let f1 : FlightController F rl.Quaternion = record f {
        rel_pos = rel;
        rel_vel = rel_vel;
        at = rl.add f.earth_pos rel;
        vel = rl.add f.earth_vel rel_vel;
      } in
      let f2 = parallel_transport old_pos f1.at f1 in
      record f2 { tangent_forward = project_to_tangent f2 f2.tangent_forward }

  -- The velocity before the move: gravity, the keys, the jump.
  unfoldable pub walk_velocity :
      F → Keys F → SurvivalGeom F → FlightController F rl.Quaternion → Vector3 F
  unfolding apply_walk_input
  walk_velocity dt keys g f =
      let fallen = rl.subtract f.rel_vel (rl.scale g.dir (gravity ⊗ dt)) in
      let walked = apply_walk_input keys fallen g.dir g f in
      if g.on_ground && keys.space then rl.add walked (rl.scale g.dir (num 16)) else walked

  -- A frame from `init_rel_if_needed` on.
  unfoldable pub walk :
      F → Keys F → Vector3 F → FlightController F rl.Quaternion → FlightController F rl.Quaternion
  unfolding compute_survival_geom walk_velocity collide_with_surface commit
  walk dt keys old_pos f =
      let g = compute_survival_geom f f.rel_pos (lit 5 1) (num 14) in
      let rel_vel = walk_velocity dt keys g f in
      let hit = collide_with_surface (rl.add f.rel_pos (rl.scale rel_vel dt)) rel_vel g.min_r in
      commit old_pos (hit.0) (hit.1) f

  unfoldable pub update_survival :
      F → Keys F → FlightController F rl.Quaternion → FlightController F rl.Quaternion
  unfolding init_rel_if_needed walk
  update_survival dt keys f = walk dt keys f.at (init_rel_if_needed f)

  -- Without input: gravity off the ground, friction, and a surface that the body does not enter.
  unfoldable pub fall : F → FlightController F rl.Quaternion → FlightController F rl.Quaternion
  unfolding at_least_hundredth tangent_part commit
  fall dt f =
      let rel = f.rel_pos in
      let dist = at_least_hundredth (rl.length_of rel) in
      let up = rl.scale rel (num 1 ⊘ dist) in
      let min_r = surface_radius up ⊕ player_height in
      let fallen =
        if fle dist (min_r ⊕ lit 5 1)
        then f.rel_vel
        else rl.subtract f.rel_vel (rl.scale up (gravity ⊗ dt)) in
      let vel_tan = rl.scale (tangent_part fallen up) (lit 9 1) in
      let rel_vel = rl.add (rl.scale up (rl.dot_product fallen up)) vel_tan in
      let moved = rl.add rel (rl.scale rel_vel dt) in
      let new_dist = rl.length_of moved in
      let lifted = rl.scale moved (min_r ⊘ new_dist) in
      let nr = rl.normalize lifted in
      let vr = rl.dot_product rel_vel nr in
      let stopped = if flt vr (num 0) then rl.subtract rel_vel (rl.scale nr vr) else rel_vel in
      if flt new_dist min_r then commit f.at lifted stopped f else commit f.at moved rel_vel f

  unfoldable pub tick_physics_only :
      F → FlightController F rl.Quaternion → FlightController F rl.Quaternion
  unfolding fall
  tick_physics_only dt f = elim f.mode [
    | creative ↦ f
    | survival ↦ if f.rel_init then fall dt f else f
  ]

  unfoldable pub sync_to_earth_frame :
      F → FlightController F rl.Quaternion → FlightController F rl.Quaternion
  sync_to_earth_frame dt f = elim f.mode [
    | survival ↦
        if f.rel_init
        then record f { at = rl.add f.earth_pos f.rel_pos; vel = rl.add f.earth_vel f.rel_vel }
        else f
    | creative ↦
        if f.attached_body == "earth"
        then record f { at = rl.add f.at (rl.scale f.earth_vel dt) }
        else f
  ]

  unfoldable pub camera_forward : FlightController F rl.Quaternion → Vector3 F
  unfolding survival_up
  camera_forward f =
      let cp = fl.narrow (fl.wide.cos (fl.widen f.pitch)) in
      let sp = fl.narrow (fl.wide.sin (fl.widen f.pitch)) in
      rl.normalize (rl.add (rl.scale f.tangent_forward cp) (rl.scale (survival_up f) sp))
