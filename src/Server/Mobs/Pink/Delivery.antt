-- ===== src/Server/Mobs/Pink/Delivery.antt =====
-- A gatherer hands over all that it carries, and is free then.
use lodeen.Base.{◌+◌, ◌<◌, ◌≡◌, refl, String, false, [], some, arith, eq_iff}
use lodeen.Base.Int.{pos, int_bound}
use lodeen.Base.Map.{lookup, insert, lookup-insert}
use lodeen.Base.Float.{Float, num, flt}
use lodeen.Protocol.Geometry.{dist2}
use lodeen.Server.State.{Client, Server, Mob}
use lodeen.Server.Client.{quantity, state_of, send_inventory}
use lodeen.Server.Client.Inventory.{send_inventory-inventory}
use lodeen.Server.Crafting.{gain}
use lodeen.Server.Crafting.Exchange.{stock, IsStock, IsRecipe, quantity-gain}
use lodeen.Server.Mobs.Pink.{pink_deliver, pink_gather_deliver}

module _ {F : Type 0} ⦃fl : Float F⦄ where
  -- A gatherer near its owner hands over all that it carries: each of the owner's quantities rises
  -- by what the mob carried, and the mob is left with nothing, under no contract and no owner. The
  -- quantities are not negative and their sums fit an int64.
  pub pink_gather_deliver-delivers :
      (dt : F) (m : Mob F) (owner : Client F) (s : Server F)
      → lookup m.owner_id s.clients ≡ some owner
      → flt (num 16) (dist2 (state_of owner).at m.at) ≡ false
      → IsRecipe m.inventory
      → IsStock owner.inventory
      → ((k : String) → stock k owner.inventory + stock k m.inventory < int_bound)
      → let after = pink_gather_deliver dt m s in
        ((out : Client F) × (lookup m.owner_id after.1.clients ≡ some out)
          × ((k : String)
              → quantity k out.inventory ≡ pos (stock k owner.inventory + stock k m.inventory)))
        × (after.0 ≡ record m { inventory = []; contract = ""; owner_id = "" })
  unfolding pink_gather_deliver
  pink_gather_deliver-delivers dt m owner s known near wf st room =
      let paid : Client F = record owner { inventory = gain m.inventory owner.inventory } in
      let m' : Mob F = record m { inventory = []; contract = ""; owner_id = "" } in
      let s' : Server F = record s {
        clients = insert m.owner_id (send_inventory paid) s.clients;
      } in
      let given : pink_deliver (some owner) m s ≡ some (m', s') =
        unfold pink_deliver in ground (arith, near) in
      rw (known, given, pink_gather_deliver)
        (
          (
            send_inventory paid,
            ground (
              arith,
              lookup-insert m.owner_id m.owner_id (send_inventory paid) s.clients,
              eq_iff m.owner_id m.owner_id,
            ),
            λ k.
                rw (send_inventory-inventory paid)
                  (quantity-gain m.inventory owner.inventory k wf st room),
          ),
          refl,
        )
