-- ===== src/Server/Houses.antt =====
-- Houses: internal/server/net/houses.go.
pub mod Doors
use lodeen.Base.{String, false, Option, none, some, not, if◌then◌else◌}
use lodeen.Base.Map.{lookup, insert}
use lodeen.Base.Float.{Float}
use lodeen.Protocol.Geometry.{is_beyond}
use lodeen.Protocol.Messages.{Place}
use lodeen.Server.State.{Client, Server, House}
use lodeen.Server.Client.{state_of, send_inventory, consume_item}

module _ {F : Type 0} ⦃fl : Float F⦄ where
  unfoldable pub handle_place_house : String → Place F → Server F → Client F → Server F × Client F
  handle_place_house id p s c = elim (consume_item "house" c) [
    | none ↦ (s, c)
    | some d ↦ (
      record s {
        houses = insert id (record { id = id; at = p.at; yaw = p.yaw; door_open = false }) s.houses;
      },
      send_inventory d,
    )
  ]

  unfoldable pub toggle_door : String → Option (House F) → Server F → Client F → Server F
  toggle_door id none s c = s
  toggle_door id (some h) s c =
      if is_beyond h.at (state_of c).at 64
      then s
      else record s { houses = insert id (record h { door_open = not h.door_open }) s.houses }

  unfoldable pub handle_toggle_door : String → Server F → Client F → Server F
  unfolding toggle_door
  handle_toggle_door id s c = toggle_door id (lookup id s.houses) s c
