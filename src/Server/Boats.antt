-- ===== src/Server/Boats.antt =====
-- Boats: internal/server/net/boats.go.
pub mod Riding
use lodeen.Base.{String, [], ◌∷◌, Option, none, some, not, ◌==◌, if◌then◌else◌}
use lodeen.Base.Map.{Map, lookup, insert, map_values}
use lodeen.Base.Float.{Float, ◌⊘◌, lit, flt, fle}
use lodeen.Protocol.Geometry.{norm, at_height, terrain_height, sea_level, is_beyond}
use lodeen.Protocol.Messages.{Place, PlayerState}
use lodeen.Server.State.{Client, Server, Boat, Mammoth}
use lodeen.Server.Client.{state_of, send_inventory, consume_item}

module _ {F : Type 0} where
  unfoldable pub leave_boat : String → Boat F → Boat F
  leave_boat id b = if b.rider_id == id then record b { rider_id = "" } else b

  unfoldable pub dismount : String → Mammoth F → Mammoth F
  dismount id m = if m.rider_id == id then record m { rider_id = "" } else m

  -- The state of the first client with this identifier.
  unfoldable pub find_rider : String → Map (Client F) → Option (PlayerState F)
  find_rider id [] = none
  find_rider id ((_, c) ∷ m) = if c.id == id then some (state_of c) else find_rider id m

module _ {F : Type 0} ⦃fl : Float F⦄ where
  unfoldable pub handle_place_boat : String → Place F → Server F → Client F → Server F × Client F
  handle_place_boat id p s c =
      let l = norm p.at in
      if flt l (lit 1 2)
      then (s, c)
      else if fle sea_level (terrain_height (p.at.x ⊘ l) (p.at.y ⊘ l) (p.at.z ⊘ l))
      then (s, c)
      else elim (consume_item "boat" c) [
        | none ↦ (s, c)
        | some d ↦ (
          record s {
            boats =
                insert id
                  (record { id = id; at = at_height p.at l sea_level; yaw = p.yaw; rider_id = "" })
                  s.boats;
          },
          send_inventory d,
        )
      ]

  -- What is done with the boat when the client has left what it rode.
  unfoldable pub board : String → Option (Boat F) → Server F → Client F → Server F
  board id none s c = s
  board id (some b) s c =
      if is_beyond b.at (state_of c).at 64
      then s
      else if not (b.rider_id == "")
      then s
      else record s { boats = insert id (record b { rider_id = c.id }) s.boats }

  -- The client leaves every boat and every mammoth first.
  unfoldable pub leave_all : String → Server F → Server F
  leave_all id s = record s {
    boats = map_values (leave_boat id) s.boats;
    mammoths = map_values (dismount id) s.mammoths;
  }

  unfoldable pub handle_enter_boat : String → Server F → Client F → Server F
  unfolding board leave_all
  handle_enter_boat id s c =
      let s' = leave_all c.id s in if id == "" then s' else board id (lookup id s'.boats) s' c

  -- A boat floats under its rider at sea level; without the rider it is free.
  unfoldable pub float_boat : Option (PlayerState F) → Boat F → Boat F
  float_boat none b = record b { rider_id = "" }
  float_boat (some st) b =
      let l = norm st.at in
      if flt l (lit 1 2) then b else record b { at = at_height st.at l sea_level }

  unfoldable pub tick_boat : Map (Client F) → Boat F → Boat F
  unfolding float_boat
  tick_boat clients b = if b.rider_id == "" then b else float_boat (find_rider b.rider_id clients) b

  unfoldable pub tick_boats : Server F → Server F
  unfolding tick_boat
  tick_boats s = record s { boats = map_values (tick_boat s.clients) s.boats }
