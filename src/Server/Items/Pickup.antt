-- ===== src/Server/Items/Pickup.antt =====
-- Picking things up: a resource moves from the ground to one inventory, and never to two.
use lodeen.Base.{
  ℕ, ◌+◌, ◌<◌, ◌≡◌, ◌≢◌, String, false, none, some, arith, eq_iff, ◌==◌, if◌then◌else◌,
}
use lodeen.Base.Int.{pos, int_bound}
use lodeen.Base.Map.{lookup, erase, lookup-erase}
use lodeen.Base.Float.{Float}
use lodeen.Protocol.Geometry.{is_beyond}
use lodeen.Protocol.Messages.{Resource}
use lodeen.Server.State.{Client, Server}
use lodeen.Server.Client.{quantity, state_of, send_inventory, add_item}
use lodeen.Server.Client.Inventory.{quantity-add_item}
use lodeen.Server.Items.{handle_pickup}

module _ {F : Type 0} ⦃fl : Float F⦄ where
  -- A pickup of a resource that lies within reach and is no seed takes it off the ground, leaves
  -- every other resource, and raises the player's quantity of that kind by one.
  pub handle_pickup-moves :
      (id : String) (r : Resource F) (n : ℕ) (s : Server F) (c : Client F)
      → lookup id s.resources ≡ some r
      → r.kind ≢ "seed"
      → is_beyond r.at (state_of c).at 25 ≡ false
      → quantity r.kind c.inventory ≡ pos n
      → n + 1 < int_bound
      → (handle_pickup id s c
          ≡ (record s { resources = erase id s.resources }, send_inventory (add_item r.kind c)))
        × ((j : String)
            → lookup j (erase id s.resources) ≡ (if id == j then none else lookup j s.resources))
        × ((j : String)
            → quantity j (add_item r.kind c).inventory
              ≡ (if r.kind == j then pos (n + 1) else quantity j c.inventory))
  unfolding handle_pickup
  handle_pickup-moves id r n s c e ne near q room = (
    ground (arith, e, eq_iff r.kind "seed"),
    λ j. lookup-erase id j s.resources,
    λ j. quantity-add_item r.kind j n c q room,
  )

  -- Once a client has picked a resource up, a pickup of it by any client changes nothing.
  pub handle_pickup_twice :
      (id : String) (r : Resource F) (s : Server F) (c d : Client F)
      → lookup id s.resources ≡ some r
      → r.kind ≢ "seed"
      → is_beyond r.at (state_of c).at 25 ≡ false
      → let s' = (handle_pickup id s c).0 in handle_pickup id s' d ≡ (s', d)
  unfolding handle_pickup
  handle_pickup_twice id r s c d e ne near =
      ground (arith, e, eq_iff r.kind "seed", lookup-erase id id s.resources, eq_iff id id)
