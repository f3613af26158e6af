-- ===== src/Client/App/Pilot.antt =====
-- The pilot's seat of a rocket: internal/client/app/rocket.go, `rotateAroundAxis` of
-- orbitmap_input.go and `updateRocketMode` of update_playing.go.
use lodeen.Base.Float.{Float, lit, num, flt, ◌⊕◌, ◌⊖◌, ◌⊗◌, ◌⊘◌}
use lodeen.Base.Int.{pos, ltb_ℤ}
use lodeen.Base.{
  ℕ, ◌*◌, String, Bool, true, false, ◌||◌, List, [], ◌∷◌, Option, none, some, ◌==◌, if◌then◌else◌,
}
use lodeen.Client.App.State.{App, RocketState}
use lodeen.Client.Input.{Raylib, Vector2, Keys, FlightController}
use lodeen.Client.Input.Flight.{forward, up, update_look_only}
use lodeen.Client.Net.Actions
use lodeen.Protocol.Geometry.{Vector3, origin, norm}
use lodeen.Protocol.Messages.{Rocket, RocketInput}
use lodeen.Server.Time.{time_sub, second}

-- The keys of the seat: those held, and those that went down in this frame.
pub record SeatKeys (F : Type 0) : Type 0 where
  pub held : Keys F
  pub left_control : Bool
  pub g : Bool
  pub h : Bool
  pub j : Bool
  pub k : Bool
  pub n : Bool
  pub b : Bool
  pub x : Bool
  pub e_pressed : Bool

module _ {F : Type 0} where
  unfoldable pub find_piloted_rocket : String → List (Rocket F) → Option (Rocket F)
  find_piloted_rocket id [] = none
  find_piloted_rocket id (r ∷ rs) =
      let rest = find_piloted_rocket id rs in if r.id == id then some r else rest

  -- G, H, J, K, N, B and X choose where the autopilot turns the nose.
  unfoldable pub handle_autopilot_keys : SeatKeys F → RocketState F → RocketState F
  handle_autopilot_keys keys c =
      if keys.g
      then record c { auto_pilot = "prograde" }
      else if keys.h
      then record c { auto_pilot = "retrograde" }
      else if keys.j
      then record c { auto_pilot = "radial_out" }
      else if keys.k
      then record c { auto_pilot = "radial_in" }
      else if keys.n
      then record c { auto_pilot = "normal" }
      else if keys.b
      then record c { auto_pilot = "antinormal" }
      else if keys.x
      then record c { auto_pilot = "" }
      else c

module _ {F Q : Type 0} where
  -- The answer is whether the seat takes the frame.
  unfoldable pub seat_answer : App F Q × Bool → App F Q × Bool
  seat_answer (a, true) = (a, true)
  seat_answer (a, false) = (record a { rocket_id = "" }, false)

module _ {F : Type 0} ⦃fl : Float F⦄ where
  unfoldable pub read_thrust_input : SeatKeys F → F
  read_thrust_input keys =
      if keys.held.space then num 1 else if keys.left_control then fl.ops.neg (num 1) else num 0

  -- The nose points away from the origin at first.
  unfoldable pub init_rocket_nose : Rocket F → RocketState F → RocketState F
  init_rocket_nose r c =
      let len = norm r.at in
      let radial : Vector3 F = record { x = r.at.x ⊘ len; y = r.at.y ⊘ len; z = r.at.z ⊘ len } in
      let above : Vector3 F = record { x = num 0; y = num 1; z = num 0 } in
      if c.nose_init
      then c
      else record c { nose = (if flt (lit 1 2) len then radial else above); nose_init = true }

  -- Rodrigues' formula.
  unfoldable pub rotate_around_axis : Vector3 F → Vector3 F → F → Vector3 F
  rotate_around_axis v axis angle =
      let cos_a = fl.narrow (fl.wide.cos (fl.widen angle)) in
      let sin_a = fl.narrow (fl.wide.sin (fl.widen angle)) in
      let dot = v.x ⊗ axis.x ⊕ v.y ⊗ axis.y ⊕ v.z ⊗ axis.z in
      let cx = axis.y ⊗ v.z ⊖ axis.z ⊗ v.y in
      let cy = axis.z ⊗ v.x ⊖ axis.x ⊗ v.z in
      let cz = axis.x ⊗ v.y ⊖ axis.y ⊗ v.x in
      record {
        x = v.x ⊗ cos_a ⊕ cx ⊗ sin_a ⊕ axis.x ⊗ dot ⊗ (num 1 ⊖ cos_a);
        y = v.y ⊗ cos_a ⊕ cy ⊗ sin_a ⊕ axis.y ⊗ dot ⊗ (num 1 ⊖ cos_a);
        z = v.z ⊗ cos_a ⊕ cz ⊗ sin_a ⊕ axis.z ⊗ dot ⊗ (num 1 ⊖ cos_a);
      }

module _ {F : Type 0} ⦃fl : Float F⦄ ⦃rl : Raylib F⦄ where
  unfoldable pub sync_player_to_rocket :
      Rocket F → FlightController F rl.Quaternion → FlightController F rl.Quaternion
  sync_player_to_rocket r f = record f {
    at = record {
      x = r.at.x ⊕ r.up.x ⊗ lit 15 1;
      y = r.at.y ⊕ r.up.y ⊗ lit 15 1;
      z = r.at.z ⊕ r.up.z ⊗ lit 15 1;
    };
    vel = origin;
    helio_init = true;
  }

  -- The nose after the keys W, S, A, D, in this order, about the axes `right` and `above`.
  unfoldable pub turn_nose : Keys F → F → Vector3 F → Vector3 F → Vector3 F → Vector3 F
  unfolding rotate_around_axis
  turn_nose held step right above nose =
      let back = fl.ops.neg step in
      let n1 = if held.w then rotate_around_axis nose right back else nose in
      let n2 = if held.s then rotate_around_axis n1 right step else n1 in
      let n3 = if held.a then rotate_around_axis n2 above step else n2 in
      if held.d then rotate_around_axis n3 above back else n3

  unfoldable pub handle_nose_rotation :
      F → Keys F → Vector3 F → FlightController F rl.Quaternion → RocketState F → RocketState F
  unfolding turn_nose
  handle_nose_rotation dt held camera_up f c =
      let fw = forward f in
      let right = rl.normalize (rl.cross_product fw camera_up) in
      let above = rl.normalize (rl.cross_product right fw) in
      let nose = rl.normalize (turn_nose held (lit 18 1 ⊗ dt) right above c.nose) in
      if held.w || held.s || held.a || held.d then record c { nose = nose } else c

  -- The state of the seat when the input is sent.
  unfoldable pub steer :
      F
      → SeatKeys F
      → Vector3 F
      → Rocket F
      → FlightController F rl.Quaternion
      → RocketState F
      → RocketState F
  unfolding init_rocket_nose handle_nose_rotation
  steer dt keys camera_up r f c =
      handle_nose_rotation dt keys.held camera_up f
        (init_rocket_nose r (record c { hud_rocket = some r }))

  -- The mouse turns the view, unless the map of the orbit takes it; the camera follows.
  unfoldable pub look_from_rocket :
      F
      → Vector2 F
      → SeatKeys F
      → FlightController F rl.Quaternion
      → App F rl.Quaternion
      → App F rl.Quaternion
  look_from_rocket dt mouse keys f a =
      let g = if a.show_orbit_map then f else update_look_only dt mouse keys.held f in
      record a { flight = some g; camera = g.at; camera_up = up g }

  -- A frame in the rocket `r`; false when the pilot has left.
  unfoldable pub fly_rocket :
      Bool
      → F
      → Vector2 F
      → SeatKeys F
      → Rocket F
      → FlightController F rl.Quaternion
      → App F rl.Quaternion
      → App F rl.Quaternion × Bool
  unfolding steer read_thrust_input handle_autopilot_keys look_from_rocket sync_player_to_rocket
  fly_rocket written dt mouse keys r f0 a =
      let f = sync_player_to_rocket r f0 in
      let c = steer dt keys a.camera_up r f a.rocket in
      let input : RocketInput F = record {
        thrust = read_thrust_input keys;
        target_up = c.nose;
        auto_pilot = c.auto_pilot;
      } in
      let nc = (Actions.rocket_input written input a.nc).0 in
      let chosen = handle_autopilot_keys keys c in
      let left : App F rl.Quaternion = record a {
        flight = some f;
        nc = (Actions.exit_rocket written nc).0;
        rocket_id = "";
        show_orbit_map = false;
        rocket = record chosen { nose_init = false };
      } in
      let flown : App F rl.Quaternion = record a { nc = nc; rocket = chosen } in
      if keys.e_pressed then (left, false) else (look_from_rocket dt mouse keys f flown, true)

  -- Without the rocket in the last snapshot the seat is kept for three seconds.
  unfoldable pub update_piloted_rocket :
      Bool
      → ℕ
      → F
      → Vector2 F
      → SeatKeys F
      → FlightController F rl.Quaternion
      → App F rl.Quaternion
      → App F rl.Quaternion × Bool
  unfolding find_piloted_rocket fly_rocket
  update_piloted_rocket written now dt mouse keys f a =
      elim (find_piloted_rocket a.rocket_id a.nc.rockets) [
        | none ↦ (a, ltb_ℤ (time_sub now a.rocket_boarded_at) (pos (3 * second)))
        | some r ↦ fly_rocket written dt mouse keys r f a
      ]

  unfoldable pub update_rocket_mode :
      Bool → ℕ → F → Vector2 F → SeatKeys F → App F rl.Quaternion → App F rl.Quaternion × Bool
  unfolding update_piloted_rocket seat_answer
  update_rocket_mode written now dt mouse keys a = elim a.flight [
    | none ↦ (a, false)
    | some f ↦
        if a.rocket_id == ""
        then (a, false)
        else seat_answer (update_piloted_rocket written now dt mouse keys f a)
  ]
