-- ===== src/Client/Input/Creative.antt =====
-- Free flight: internal/client/input/flight_creative.go.
use lodeen.Base.Float.{Float, ◌⊗◌, ◌⊘◌, num, flt, fne}
use lodeen.Base.{if◌then◌else◌}
use lodeen.Client.Input.{Raylib, Vector2, Keys, FlightController, axis_x, axis_y, minus_z}
use lodeen.Protocol.Geometry.{Vector3, origin}

module _ {F : Type 0} ⦃fl : Float F⦄ ⦃rl : Raylib F⦄ where
  -- `q := QuaternionFromAxisAngle(axis, angle)`, after the turns so far.
  unfoldable pub turn_by : Vector3 F → F → rl.Quaternion → rl.Quaternion
  turn_by axis angle quat =
      rl.normalize_quaternion (rl.multiply quat (rl.from_axis_angle axis angle))

  unfoldable pub update_creative_look :
      Vector2 F → F → Keys F → FlightController F rl.Quaternion → FlightController F rl.Quaternion
  unfolding turn_by
  update_creative_look mouse dt keys f =
      let neg = fl.ops.neg in
      let q1 =
        if fne mouse.x (num 0)
        then turn_by axis_y (neg mouse.x ⊗ f.sensitivity) f.quat
        else f.quat in
      let q2 =
        if fne mouse.y (num 0) then turn_by axis_x (neg mouse.y ⊗ f.sensitivity) q1 else q1 in
      let q3 = if keys.q then turn_by minus_z (neg f.roll_speed ⊗ dt) q2 else q2 in
      record f { quat = if keys.e then turn_by minus_z (f.roll_speed ⊗ dt) q3 else q3 }

  unfoldable pub creative_forward : FlightController F rl.Quaternion → Vector3 F
  creative_forward f = rl.rotate minus_z f.quat

  unfoldable pub creative_right : FlightController F rl.Quaternion → Vector3 F
  creative_right f = rl.rotate axis_x f.quat

  unfoldable pub creative_up : FlightController F rl.Quaternion → Vector3 F
  creative_up f = rl.rotate axis_y f.quat

  -- The direction of the keys W, S, D, A, space and shift.
  unfoldable pub creative_move : Keys F → FlightController F rl.Quaternion → Vector3 F
  unfolding creative_forward creative_right creative_up
  creative_move keys f =
      let m1 = if keys.w then rl.add origin (creative_forward f) else origin in
      let m2 = if keys.s then rl.subtract m1 (creative_forward f) else m1 in
      let m3 = if keys.d then rl.add m2 (creative_right f) else m2 in
      let m4 = if keys.a then rl.subtract m3 (creative_right f) else m3 in
      let m5 = if keys.space then rl.add m4 (creative_up f) else m4 in
      if keys.left_shift then rl.subtract m5 (creative_up f) else m5

  unfoldable pub update_creative :
      F → Keys F → FlightController F rl.Quaternion → FlightController F rl.Quaternion
  unfolding creative_move
  update_creative dt keys f =
      let move = creative_move keys f in
      let l = rl.length_of move in
      record f {
        at =
            if flt (num 0) l
            then rl.add f.at (rl.scale (rl.scale move (num 1 ⊘ l)) (f.speed ⊗ dt))
            else f.at;
        vel = origin;
      }
