-- ===== src/Server/Houses/Doors.antt =====
-- Doors: two turns of a door within reach give back the house.
use lodeen.Base.{◌≡◌, String, some, not, arith, eq_iff, ◌==◌, if◌then◌else◌}
use lodeen.Base.Map.{lookup, insert, lookup-insert}
use lodeen.Base.Float.{Float}
use lodeen.Protocol.Geometry.{is_beyond}
use lodeen.Server.State.{Client, Server, House}
use lodeen.Server.Client.{state_of}
use lodeen.Server.Houses.{toggle_door, handle_toggle_door}

module _ {F : Type 0} ⦃fl : Float F⦄ where
  -- A client within reach of a house turns its door and no other house changes; when it turns the
  -- door again, all houses are as before. A client out of reach changes nothing.
  pub handle_toggle_door-toggles :
      (id j : String) (h : House F) (s : Server F) (c : Client F)
      → lookup id s.houses ≡ some h
      → let beyond = is_beyond h.at (state_of c).at 64 in
        let once = handle_toggle_door id s c in
        (lookup j once.houses ≡ (
          if beyond
          then lookup j s.houses
          else if id == j
          then some (record h { door_open = not h.door_open })
          else lookup j s.houses))
        × (lookup j (handle_toggle_door id once c).houses ≡ lookup j s.houses)
  unfolding handle_toggle_door toggle_door
  handle_toggle_door-toggles id j h s c e =
      let turned : House F = record h { door_open = not h.door_open } in
      let once = insert id turned s.houses in
      ground (
        arith,
        e,
        eq_iff id j,
        eq_iff id id,
        lookup-insert id j turned s.houses,
        lookup-insert id id turned s.houses,
        lookup-insert id j h once,
      )
