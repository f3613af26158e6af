-- ===== src/Client/Input/Flight.antt =====
-- A frame of the player's body in its two modes, and the change from one to the other:
-- internal/client/input/flight.go.
use lodeen.Base.Float.{Float, ◌⊕◌, ◌⊗◌, ◌⊘◌, lit, num, flt, fne}
use lodeen.Base.{String, true, ◌==◌, if◌then◌else◌}
use lodeen.Client.Input.{
  Raylib, Vector2, Keys, FlightController, Mode, creative, survival, axis_y, minus_z,
  at_least_hundredth, tangent_part,
}
use lodeen.Protocol.Geometry.{Vector3}
use lodeen.Client.Input.Survival.{
  update_survival_look, update_survival, camera_forward, survival_up,
}
use lodeen.Client.Input.Creative.{
  update_creative_look, update_creative, creative_forward, creative_right, creative_up,
}

-- The bodies that R goes through in creative mode.
unfoldable pub next_body : String → String
next_body body = if body == "" then "earth" else if body == "earth" then "sun" else ""

module _ {F : Type 0} ⦃fl : Float F⦄ where
  -- The speed after a turn of the wheel, between 10 and 5000.
  unfoldable pub change_speed : F → F → F
  change_speed wheel speed =
      let changed = speed ⊗ (num 1 ⊕ wheel ⊗ lit 3 1) in
      let low = if flt changed (num 10) then num 10 else changed in
      let capped = if flt (num 5000) low then num 5000 else low in
      if fne wheel (num 0) then capped else speed

  -- `if sin > 1 { sin = 1 } else if sin < -1 { sin = -1 }`
  unfoldable pub clamp_unit : F → F
  clamp_unit s =
      if flt (num 1) s then num 1 else if flt s (fl.ops.neg (num 1)) then fl.ops.neg (num 1) else s

module _ {F : Type 0} ⦃fl : Float F⦄ ⦃rl : Raylib F⦄ where
  unfoldable pub look_in :
      Mode
      → F
      → Vector2 F
      → Keys F
      → FlightController F rl.Quaternion
      → FlightController F rl.Quaternion
  unfolding update_survival_look update_creative_look
  look_in survival dt mouse keys f = update_survival_look mouse f
  look_in creative dt mouse keys f = update_creative_look mouse dt keys f

  unfoldable pub update_look_only :
      F → Vector2 F → Keys F → FlightController F rl.Quaternion → FlightController F rl.Quaternion
  unfolding look_in
  update_look_only dt mouse keys f = look_in f.mode dt mouse keys f

  unfoldable pub update_in :
      Mode
      → F
      → Vector2 F
      → Keys F
      → FlightController F rl.Quaternion
      → FlightController F rl.Quaternion
  unfolding update_survival_look update_survival update_creative_look update_creative next_body
      change_speed
  update_in survival dt mouse keys f = update_survival dt keys (update_survival_look mouse f)
  update_in creative dt mouse keys f =
      let f1 : FlightController F rl.Quaternion = record f {
        attached_body = if keys.r_pressed then next_body f.attached_body else f.attached_body;
      } in
      let f2 = update_creative dt keys (update_creative_look mouse dt keys f1) in
      record f2 { speed = change_speed keys.wheel f2.speed }

  unfoldable pub update :
      F → Vector2 F → Keys F → FlightController F rl.Quaternion → FlightController F rl.Quaternion
  unfolding update_in
  update dt mouse keys f = update_in f.mode dt mouse keys f

  unfoldable pub forward : FlightController F rl.Quaternion → Vector3 F
  unfolding creative_forward camera_forward
  forward f = elim f.mode [ creative ↦ creative_forward f | survival ↦ camera_forward f ]

  unfoldable pub right : FlightController F rl.Quaternion → Vector3 F
  unfolding creative_right camera_forward survival_up
  right f = elim f.mode [
    | creative ↦ creative_right f
    | survival ↦ rl.normalize (rl.cross_product (camera_forward f) (survival_up f))
  ]

  unfoldable pub up : FlightController F rl.Quaternion → Vector3 F
  unfolding creative_up survival_up
  up f = elim f.mode [ creative ↦ creative_up f | survival ↦ survival_up f ]

  unfoldable pub look_rotation : Vector3 F → Vector3 F → rl.Quaternion
  look_rotation forward0 up0 =
      let q1 = rl.from_vectors minus_z (rl.normalize forward0) in
      let q2 = rl.from_vectors (rl.rotate axis_y q1) (rl.normalize up0) in
      rl.normalize_quaternion (rl.multiply q2 q1)

  -- From creative to survival: the place and the velocity in the planet's frame, and the direction
  -- and the pitch of the camera.
  unfoldable pub land : FlightController F rl.Quaternion → FlightController F rl.Quaternion
  unfolding at_least_hundredth tangent_part clamp_unit
  land f =
      let rel = rl.subtract f.at f.earth_pos in
      let fw = rl.rotate minus_z f.quat in
      let up = rl.scale rel (num 1 ⊘ at_least_hundredth (rl.length_of rel)) in
      let tf = tangent_part fw up in
      let l = rl.length_of tf in
      record f {
        rel_pos = rel;
        rel_vel = rl.subtract f.vel f.earth_vel;
        rel_init = true;
        tangent_forward = if flt (lit 1 3) l then rl.scale tf (num 1 ⊘ l) else f.tangent_forward;
        pitch = fl.narrow (fl.wide.asin (fl.widen (clamp_unit (rl.dot_product fw up))));
        mode = survival;
      }

  -- From survival to creative.
  unfoldable pub take_off : FlightController F rl.Quaternion → FlightController F rl.Quaternion
  unfolding at_least_hundredth camera_forward look_rotation
  take_off f =
      let f1 : FlightController F rl.Quaternion =
        if f.rel_init
        then record f { at = rl.add f.earth_pos f.rel_pos; vel = rl.add f.earth_vel f.rel_vel }
        else f in
      let up = rl.scale f.rel_pos (num 1 ⊘ at_least_hundredth (rl.length_of f.rel_pos)) in
      record f1 {
        quat = look_rotation (camera_forward f1) up;
        attached_body = if f.attached_body == "" then "earth" else f.attached_body;
        mode = creative;
      }

  unfoldable pub switch_mode :
      Mode → FlightController F rl.Quaternion → FlightController F rl.Quaternion
  unfolding land take_off
  switch_mode survival f = elim f.mode [ survival ↦ f | creative ↦ land f ]
  switch_mode creative f = elim f.mode [ creative ↦ f | survival ↦ take_off f ]
