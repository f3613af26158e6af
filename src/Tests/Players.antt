-- ===== src/Tests/Players.antt =====
-- Runs of the handlers of a player on foot.
use lodeen.Base.{
  ◌+◌, ◌*◌, ◌-◌, ◌≤◌, ◌<◌, ◌≡◌, ◌≢◌, refl, String, true, false, [], ◌∷◌, none, some, arith, eq_iff,
  ◌==◌, if◌then◌else◌,
}
use lodeen.Base.Int.{ℤ, pos, ◌+ℤ◌, ◌-ℤ◌, ◌*ℤ◌, ◌≤ℤ◌, ◌<ℤ◌, int_bound}
use lodeen.Base.Map.{Map, lookup, erase, IsMap}
use lodeen.Protocol.Geometry.{is_beyond}
use lodeen.Protocol.Messages.{Resource}
use lodeen.Server.State.{Client, Server, House}
use lodeen.Server.Time.{time_sub, millisecond}
use lodeen.Server.Client.{quantity, state_of, send_inventory, add_item}
use lodeen.Server.Crafting.{CraftRecipe, craft_recipes, handle_craft}
use lodeen.Server.Crafting.Exchange.{stock, IsStock}
use lodeen.Server.Crafting.Laws.{handle_craft-exchanges}
use lodeen.Server.Items.{handle_pickup}
use lodeen.Server.Items.Pickup.{handle_pickup-moves}
use lodeen.Server.Farm.Growth.{IsOld}
use lodeen.Tests.Sample.{int_float, point, empty_server, player}

abbrev bag : Map ℤ
bag = ("stone", pos 5) ∷ ("wood", pos 3) ∷ ("spear", pos 2) ∷ []

abbrev crafter : Client ℤ
crafter = player "p1" bag

bag-IsStock : IsStock bag
unfolding quantity lookup
bag-IsStock k = ground arith

bag-room : (k : String) → stock k bag + 1 < int_bound
unfolding quantity lookup
bag-room k = ground arith

abbrev spear_recipe : CraftRecipe
spear_recipe = record {
  need = ("stone", pos 2) ∷ ("wood", pos 1) ∷ [];
  have = ("spear", pos 1) ∷ [];
}

spear_recipe-known : lookup "spear" craft_recipes ≡ some spear_recipe
unfolding lookup
spear_recipe-known = refl

bag-enough : (k : String) → stock k spear_recipe.need ≤ stock k bag
unfolding quantity lookup
bag-enough k = ground arith

handle_craft-exchanges_example :
    (out : Map ℤ) × (handle_craft "spear" crafter
      ≡ send_inventory (record crafter { inventory = out }))
    × ((k : String)
        → quantity k out
          ≡ pos (stock k bag - stock k spear_recipe.need + stock k spear_recipe.have))
handle_craft-exchanges_example =
    handle_craft-exchanges "spear" spear_recipe crafter spear_recipe-known bag-IsStock bag-room
      bag-enough

abbrev poor_bag : Map ℤ
poor_bag = ("stone", pos 1) ∷ []

poor_bag-IsStock : IsStock poor_bag
unfolding quantity lookup
poor_bag-IsStock k = ground arith

poor_bag-short : stock "stone" poor_bag < stock "stone" spear_recipe.need
unfolding quantity lookup
poor_bag-short = omega arith

abbrev stone : Resource ℤ
stone = record { id = "r1"; kind = "stone"; at = point 1 2 3; watered = false; grow_at = 0 }

abbrev plant : Resource ℤ
plant = record { id = "r2"; kind = "seed"; at = point 4 0 0; watered = true; grow_at = 7 }

abbrev meadow : Server ℤ
meadow = record empty_server { resources = ("r1", stone) ∷ ("r2", plant) ∷ [] }

stone-lies : lookup "r1" meadow.resources ≡ some stone
unfolding lookup
stone-lies = refl

stone-near : is_beyond stone.at (state_of crafter).at 25 ≡ false
unfolding is_beyond state_of ◌+ℤ◌ ◌-ℤ◌ ◌*ℤ◌
stone-near = refl

stone-no_seed : stone.kind ≢ "seed"
stone-no_seed = λ e. ground (arith, eq_iff "stone" "seed", e)

bag-stones : quantity "stone" bag ≡ pos 5
unfolding quantity lookup
bag-stones = refl

handle_pickup-moves_example :
    (handle_pickup "r1" meadow crafter ≡ (
      record meadow { resources = erase "r1" meadow.resources },
      send_inventory (add_item "stone" crafter),
    ))
    × ((j : String)
        → lookup j (erase "r1" meadow.resources)
          ≡ (if "r1" == j then none else lookup j meadow.resources))
    × ((j : String)
        → quantity j (add_item "stone" crafter).inventory
          ≡ (if "stone" == j then pos 6 else quantity j bag))
handle_pickup-moves_example =
    handle_pickup-moves "r1" stone 5 meadow crafter stone-lies stone-no_seed stone-near bag-stones
      (omega arith)

bag-spears : quantity "spear" bag ≡ pos 2
unfolding quantity lookup
bag-spears = refl

too_soon : time_sub (500 * millisecond) 0 <ℤ pos (800 * millisecond)
unfolding time_sub
too_soon = omega arith

late_enough : pos (800 * millisecond) ≤ℤ time_sub (900 * millisecond) 0
unfolding time_sub
late_enough = omega arith

meadow-IsMap : IsMap meadow.resources
unfolding lookup
meadow-IsMap = (refl, (refl, tt))

abbrev new_ids : String → String × String
new_ids k = ("n1", "n2")

plant-IsOld : IsOld new_ids "r2"
plant-IsOld k = (λ e. ground (arith, eq_iff "n1" "r2", e), λ e. ground (arith, eq_iff "n2" "r2", e))

abbrev cabin : House ℤ
cabin = record { id = "h1"; at = point 2 2 2; yaw = pos 0; door_open = false }

abbrev village : Server ℤ
village = record empty_server { houses = ("h1", cabin) ∷ [] }

cabin-stands : lookup "h1" village.houses ≡ some cabin
unfolding lookup
cabin-stands = refl
