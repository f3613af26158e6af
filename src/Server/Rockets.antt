-- ===== src/Server/Rockets.antt =====
-- Rockets on the ground and their pilots: internal/server/net/rockets.go. The flight is in
-- Rockets/Flight.antt and Rockets/Orbit.antt.
pub mod Orbit
pub mod Flight
pub mod Pilots
pub mod Phases
pub mod Fuel
use lodeen.Base.{
  String, Bool, true, false, [], ◌∷◌, Option, none, some, ◌&&◌, not, ◌==◌, if◌then◌else◌,
}
use lodeen.Base.Int.{ℤ, pos}
use lodeen.Base.Map.{Map, lookup, insert}
use lodeen.Base.Float.{Float, ◌⊕◌, ◌⊖◌, ◌⊗◌, ◌⊘◌, lit, num, flt}
use lodeen.Protocol.Geometry.{Vector3, origin, dist2, norm, clamp_to_surface, sun_pos, sun_radius}
use lodeen.Protocol.Messages.{RocketInput}
use lodeen.Server.State.{Client, Server, Rocket}
use lodeen.Server.Client.{state_of, send_inventory, consume_item}

-- `rocketMaxFuel`
abbrev pub rocket_max_fuel : ℤ
rocket_max_fuel = pos 100

module _ {F : Type 0} where
  unfoldable pub is_pilot : String → Rocket F → Bool
  is_pilot id r = r.owner_id == id && r.piloted

  -- The loop that changes the first rocket that the client pilots.
  unfoldable pub change_first : String → (Rocket F → Rocket F) → Map (Rocket F) → Map (Rocket F)
  unfolding is_pilot
  change_first id f [] = []
  change_first id f ((k, r) ∷ m) =
      let rest = change_first id f m in if is_pilot id r then (k, f r) ∷ m else (k, r) ∷ rest

  unfoldable pub leave_rocket : Rocket F → Rocket F
  leave_rocket r = record r { piloted = false; owner_id = "" }

  unfoldable pub handle_exit_rocket : Server F → Client F → Server F
  unfolding change_first leave_rocket
  handle_exit_rocket s c = record s { rockets = change_first c.id leave_rocket s.rockets }

  -- With the autopilot on, the mouse does not turn the rocket.
  unfoldable pub steer : RocketInput F → Bool → Rocket F → Rocket F
  steer p endless r = record r {
    thrust = p.thrust;
    auto_pilot = p.auto_pilot;
    target_up = if p.auto_pilot == "" then p.target_up else r.target_up;
    infinite_fuel = endless;
    fuel = if endless then r.max_fuel else r.fuel;
  }

  unfoldable pub handle_rocket_input : RocketInput F → Server F → Client F → Server F
  unfolding change_first steer
  handle_rocket_input p s c = record s {
    rockets = change_first c.id (steer p c.infinite_fuel) s.rockets;
  }

module _ {F : Type 0} ⦃fl : Float F⦄ where
  unfoldable pub add_vector : Vector3 F → Vector3 F → Vector3 F
  add_vector a b = record { x = a.x ⊕ b.x; y = a.y ⊕ b.y; z = a.z ⊕ b.z }

  unfoldable pub sub_vector : Vector3 F → Vector3 F → Vector3 F
  sub_vector a b = record { x = a.x ⊖ b.x; y = a.y ⊖ b.y; z = a.z ⊖ b.z }

  unfoldable pub div_vector : Vector3 F → F → Vector3 F
  div_vector a l = record { x = a.x ⊘ l; y = a.y ⊘ l; z = a.z ⊘ l }

  unfoldable pub mul_vector : Vector3 F → F → Vector3 F
  mul_vector a k = record { x = a.x ⊗ k; y = a.y ⊗ k; z = a.z ⊗ k }

  -- The rocket that stands on the Earth at a local position of length `l`.
  unfoldable pub new_rocket : String → Vector3 F → F → Vector3 F → Vector3 F → Rocket F
  unfolding add_vector div_vector
  new_rocket id local_pos l ep ev = record {
    id = id;
    at = add_vector ep local_pos;
    vel = ev;
    up = div_vector local_pos l;
    yaw = num 0;
    fuel = rocket_max_fuel;
    max_fuel = rocket_max_fuel;
    piloted = false;
    owner_id = "";
    in_orbit = false;
    thrust = num 0;
    last_log_at = 0;
    fuel_accum = num 0;
    target_up = origin;
    apoapsis = num 0;
    periapsis = num 0;
    speed = num 0;
    altitude = num 0;
    target_velocity = num 0;
    infinite_fuel = false;
    auto_pilot = "";
    primary_body = "";
    dist_sun = num 0;
    soi_radius = num 0;
    local_pos = local_pos;
  }

  -- The item is gone when the position is refused, and then no inventory is sent.
  unfoldable pub handle_place_rocket :
      String → Vector3 F → Server F → Client F → Server F × Client F
  unfolding new_rocket
  handle_place_rocket id p s c = elim (consume_item "rocket" c) [
    | none ↦ (s, c)
    | some d ↦
        let local_pos : Vector3 F = clamp_to_surface p in
        let l = norm local_pos in
        if flt l (lit 1 2) then (s, d) else (
          record s {
            rockets =
                insert id (new_rocket id local_pos l s.world.earth_pos s.world.earth_vel) s.rockets;
          },
          send_inventory d,
        )
  ]

  unfoldable pub board_rocket : String → Option (Rocket F) → Server F → Client F → Server F
  unfolding sub_vector
  board_rocket id none s c = s
  board_rocket id (some r) s c =
      if r.piloted && not (r.owner_id == c.id)
      then s
      else if flt (num 64) (dist2 (sub_vector r.at s.world.earth_pos) (state_of c).at)
      then s
      else record s { rockets = insert id (record r { piloted = true; owner_id = c.id }) s.rockets }

  unfoldable pub handle_board_rocket : String → Server F → Client F → Server F
  unfolding board_rocket
  handle_board_rocket id s c = board_rocket id (lookup id s.rockets) s c

  -- A rocket on the Sun: it stands on the surface. `llen` is the length before the correction.
  unfoldable pub rest_on_sun : Rocket F → Rocket F
  unfolding mul_vector div_vector add_vector
  rest_on_sun r =
      let tiny = flt (norm r.local_pos) (lit 1 2) in
      let llen : F = if tiny then lit 1 2 else norm r.local_pos in
      let lp : Vector3 F =
        if tiny then record { x = sun_radius; y = num 0; z = num 0 } else r.local_pos in
      let target : F = lit 2515 1 in
      let lp' : Vector3 F = if flt llen target then mul_vector lp (target ⊘ llen) else lp in
      record r {
        local_pos = lp';
        up = div_vector lp' llen;
        at = add_vector sun_pos lp';
        vel = origin;
        thrust = num 0;
      }

  unfoldable pub rest_on_earth : Vector3 F → Vector3 F → Rocket F → Rocket F
  unfolding div_vector add_vector
  rest_on_earth ep ev r =
      let lp : Vector3 F = clamp_to_surface r.local_pos in
      let llen = norm lp in
      record r {
        local_pos = lp;
        up = if flt (lit 1 2) llen then div_vector lp llen else r.up;
        at = add_vector ep lp;
        vel = ev;
        thrust = num 0;
      }

  unfoldable pub tick_free_rocket : Vector3 F → Vector3 F → Rocket F → Rocket F
  unfolding rest_on_sun rest_on_earth
  tick_free_rocket ep ev r =
      if r.primary_body == "sun" then rest_on_sun r else rest_on_earth ep ev r
