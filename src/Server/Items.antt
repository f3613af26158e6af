-- ===== src/Server/Items.antt =====
-- The small handlers: internal/server/net/handlers.go without the crafting, wells.go, and
-- `handleThrowSpear` of projectiles.go. A handler takes the decoded payload and the client's own
-- record, and gives both back; the client stands in the server's registry before and after.
pub mod Pickup
pub mod Spear
use lodeen.Base.{ℕ, ◌*◌, String, Option, none, some, ◌==◌, if◌then◌else◌}
use lodeen.Base.Int.{ℤ, pos, int_add, ltb_ℤ}
use lodeen.Base.Map.{lookup, insert, erase}
use lodeen.Base.Float.{Float, ◌⊕◌, ◌⊗◌, ◌⊘◌, lit, num, flt}
use lodeen.Protocol.Geometry.{Vector3, norm, clamp_to_surface, is_beyond, player_height}
use lodeen.Protocol.Messages.{PlayerState, Resource, Well, pong}
use lodeen.Server.State.{Client, Server}
use lodeen.Server.Client.{
  quantity, state_of, set_state, enqueue, send_inventory, add_item, consume_item, add_hunger,
}
use lodeen.Server.Time.{time_sub, unix_milli, millisecond}

module _ {F : Type 0} ⦃fl : Float F⦄ where
  -- The position on the surface, raised by the height of a player.
  unfoldable pub stand_on_surface : Vector3 F → Vector3 F
  stand_on_surface p =
      let q = clamp_to_surface p in
      let l = norm q in
      let h = (l ⊕ player_height) ⊘ l in
      if flt (lit 1 2) l then record { x = q.x ⊗ h; y = q.y ⊗ h; z = q.z ⊗ h } else q

  unfoldable pub handle_state : PlayerState F → Client F → Client F
  unfolding stand_on_surface
  handle_state st c =
      set_state (record st { id = c.id; nick = c.nick; at = stand_on_surface st.at }) c

  unfoldable pub handle_ping : ℕ → ℤ → Client F → Client F
  handle_ping now sent c = enqueue (pong (record { sent = sent; server_ts = unix_milli now })) c

  unfoldable pub handle_eat_fruit : Client F → Client F
  handle_eat_fruit c = elim (consume_item "fruit" c) [
    | none ↦ c
    | some d ↦ send_inventory (add_hunger (num 20) d)
  ]

  unfoldable pub handle_select_item : String → Client F → Client F
  handle_select_item item c = record c { held_item = item }

  -- `pickupRadius` is 5.
  unfoldable pub pickup : String → Option (Resource F) → Server F → Client F → Server F × Client F
  pickup id none s c = (s, c)
  pickup id (some r) s c =
      if r.kind == "seed"
      then (s, c)
      else if is_beyond r.at (state_of c).at 25
      then (s, c)
      else (record s { resources = erase id s.resources }, send_inventory (add_item r.kind c))

  unfoldable pub handle_pickup : String → Server F → Client F → Server F × Client F
  unfolding pickup
  handle_pickup id s c = pickup id (lookup id s.resources) s c

  unfoldable pub take_water : Option (Well F) → Client F → Client F
  take_water none c = c
  take_water (some w) c =
      if is_beyond w.at (state_of c).at 25 then c else send_inventory (add_item "water" c)

  unfoldable pub handle_take_water : String → Server F → Client F → Client F
  unfolding take_water
  handle_take_water id s c = take_water (lookup id s.wells) c

  -- The cooldown is tested when the spear has been taken; a throw that comes too soon gives it back.
  unfoldable pub throw_spear : ℕ → Client F → Client F
  throw_spear now c =
      if ltb_ℤ (time_sub now c.last_throw_at) (pos (800 * millisecond))
      then send_inventory (record c {
        inventory = insert "spear" (int_add (quantity "spear" c.inventory) (pos 1)) c.inventory;
      })
      else send_inventory (record c { last_throw_at = now })

  unfoldable pub handle_throw_spear : ℕ → Client F → Client F
  unfolding throw_spear
  handle_throw_spear now c = elim (consume_item "spear" c) [ none ↦ c | some d ↦ throw_spear now d ]
