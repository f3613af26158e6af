-- ===== src/Server/Crafting.antt =====
-- Recipes and what they cost: `handleCraft` of internal/server/net/handlers.go, and the loops over
-- a recipe that it shares with `tryCraftFactory` of energy.go.
pub mod Exchange
pub mod Laws
use lodeen.Base.{String, Bool, true, false, [], ◌∷◌, Option, none, some, if◌then◌else◌}
use lodeen.Base.Int.{ℤ, pos, int_add, int_sub, ltb_ℤ, eqb_ℤ}
use lodeen.Base.Map.{Map, lookup, insert, erase}
use lodeen.Server.Client.{quantity, send_inventory}
use lodeen.Server.State.{Client}

-- The loop that returns at the first item of which there is not enough.
unfoldable pub covers : Map ℤ → Map ℤ → Bool
covers inv [] = true
covers inv ((k, n) ∷ need) =
    let rest = covers inv need in if ltb_ℤ (quantity k inv) n then false else rest

-- `inventory[k] -= n`, and no entry that `used_up` holds of.
unfoldable pub spend_item : (ℤ → Bool) → String → ℤ → Map ℤ → Map ℤ
spend_item used_up k n inv =
    let left = int_sub (quantity k inv) n in
    if used_up left then erase k (insert k left inv) else insert k left inv

unfoldable pub spend : (ℤ → Bool) → Map ℤ → Map ℤ → Map ℤ
spend used_up [] inv = inv
spend used_up ((k, n) ∷ need) inv = spend used_up need (spend_item used_up k n inv)

-- `inventory[k] += n` for each item that the recipe makes.
unfoldable pub gain : Map ℤ → Map ℤ → Map ℤ
gain [] inv = inv
gain ((k, n) ∷ made) inv = gain made (insert k (int_add (quantity k inv) n) inv)

pub record CraftRecipe : Type 0 where
  pub need : Map ℤ
  pub have : Map ℤ

abbrev pub craft_recipes : Map CraftRecipe
craft_recipes =
    (
      "spear",
      record { need = ("stone", pos 2) ∷ ("wood", pos 1) ∷ []; have = ("spear", pos 1) ∷ [] },
    )
    ∷ ("leash", record { need = ("liana", pos 2) ∷ []; have = ("leash", pos 1) ∷ [] })
    ∷ ("house", record { need = ("wood", pos 50) ∷ []; have = ("house", pos 1) ∷ [] })
    ∷ ("saddle", record { need = ("liana", pos 4) ∷ []; have = ("saddle", pos 1) ∷ [] })
    ∷ ("boat", record { need = ("wood", pos 20) ∷ []; have = ("boat", pos 1) ∷ [] })
    ∷ []

-- `inventory[k] == 0`
unfoldable pub is_zero : ℤ → Bool
is_zero left = eqb_ℤ left (pos 0)

-- The inventory after a craft of a known recipe, `none` where something is missing.
unfoldable pub craft : CraftRecipe → Map ℤ → Option (Map ℤ)
craft r inv = if covers inv r.need then some (gain r.have (spend is_zero r.need inv)) else none

module _ {F : Type 0} where
  unfoldable pub craft_recipe : Option CraftRecipe → Client F → Client F
  craft_recipe none c = c
  craft_recipe (some r) c = elim (craft r c.inventory) [
    | none ↦ c
    | some inv ↦ send_inventory (record c { inventory = inv })
  ]

  unfoldable pub handle_craft : String → Client F → Client F
  unfolding craft_recipe
  handle_craft recipe c = craft_recipe (lookup recipe craft_recipes) c
