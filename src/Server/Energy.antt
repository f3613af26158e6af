-- ===== src/Server/Energy.antt =====
-- Solar panels, batteries and factories: internal/server/net/energy.go.
pub mod Factories
pub mod Charging
pub mod Steps
use lodeen.Base.{suc, ◌/◌, String, Bool, true, [], ◌∷◌, Option, none, some, if◌then◌else◌}
use lodeen.Base.Int.{ℤ, pos, negsuc, sub_ℕ, int_add, int_sub, ltb_ℤ, leb_ℤ}
use lodeen.Base.Map.{Map, lookup, insert}
use lodeen.Base.Float.{Float, ◌⊗◌, num}
use lodeen.Protocol.Geometry.{Vector3}
use lodeen.Protocol.Messages.{Place}
use lodeen.Server.State.{Client, Server, Solar, Battery, Factory}
use lodeen.Server.Client.{quantity, send_inventory, consume_item}
use lodeen.Server.Crafting.{covers, spend}
use lodeen.Server.Nearest.{nearest}

-- `batteryMaxEnergy`
abbrev pub battery_max_energy : ℤ
battery_max_energy = pos 1000

pub record FactoryRecipe : Type 0 where
  pub need : Map ℤ
  pub energy : ℤ
  pub out : String
  pub out_qty : ℤ

abbrev pub factory_recipes : Map FactoryRecipe
factory_recipes =
    (
      "steel",
      record { need = ("ore", pos 5) ∷ []; energy = pos 10; out = "steel"; out_qty = pos 1 },
    )
    ∷ (
      "gear",
      record {
        need = ("stone", pos 2) ∷ ("wood", pos 2) ∷ [];
        energy = pos 20;
        out = "gear";
        out_qty = pos 1;
      },
    )
    ∷ (
      "circuit",
      record {
        need = ("ore", pos 3) ∷ ("liana", pos 1) ∷ [];
        energy = pos 50;
        out = "circuit";
        out_qty = pos 1;
      },
    )
    ∷ (
      "drone",
      record {
        need = ("gear", pos 1) ∷ ("circuit", pos 1) ∷ [];
        energy = pos 100;
        out = "drone";
        out_qty = pos 1;
      },
    )
    ∷ (
      "rocket",
      record {
        need = ("circuit", pos 3) ∷ ("steel", pos 5) ∷ ("gear", pos 2) ∷ [];
        energy = pos 500;
        out = "rocket";
        out_qty = pos 1;
      },
    )
    ∷ []

-- `inventory[item] <= 0`
unfoldable pub is_spent : ℤ → Bool
is_spent left = leb_ℤ left (pos 0)

-- Go's `n / 100`, which rounds towards zero.
unfoldable pub div_hundred : ℤ → ℤ
div_hundred (pos n) = pos (n / 100)
div_hundred (negsuc n) = sub_ℕ 0 (suc n / 100)

-- `inventory[item] -= q` for what is needed, and `inventory[r.out] += r.outQty`.
unfoldable pub produce : FactoryRecipe → Map ℤ → Map ℤ
produce r inv =
    let left = spend is_spent r.need inv in
    insert r.out (int_add (quantity r.out left) r.out_qty) left

module _ {F : Type 0} ⦃fl : Float F⦄ where
  -- `id` is the new identifier.
  unfoldable pub handle_place_solar : String → Place F → Server F → Client F → Server F × Client F
  handle_place_solar id p s c = elim (consume_item "solar" c) [
    | none ↦ (s, c)
    | some d ↦ (
      record s { solar = insert id (record { id = id; at = p.at; yaw = p.yaw }) s.solar },
      send_inventory d,
    )
  ]

  unfoldable pub handle_place_battery : String → Place F → Server F → Client F → Server F × Client F
  handle_place_battery id p s c = elim (consume_item "battery" c) [
    | none ↦ (s, c)
    | some d ↦ (
      record s {
        batteries =
            insert id
              (record {
                id = id;
                at = p.at;
                yaw = p.yaw;
                energy = pos 0;
                max_energy = battery_max_energy;
              })
              s.batteries;
      },
      send_inventory d,
    )
  ]

  unfoldable pub handle_place_factory : String → Place F → Server F → Client F → Server F × Client F
  handle_place_factory id p s c = elim (consume_item "factory" c) [
    | none ↦ (s, c)
    | some d ↦ (
      record s {
        factories =
            insert id (record { id = id; at = p.at; yaw = p.yaw; crafting = ""; progress = pos 0 })
              s.factories;
      },
      send_inventory d,
    )
  ]

  -- The nearest battery within 10.
  unfoldable pub nearest_battery : Vector3 F → Map (Battery F) → Option (String × Battery F)
  nearest_battery here m = (nearest (λ _. true) (λ b. b.at) here (num 100) m).0

  -- `tryCraftFactory` behind its first check: `none` is the answer `false`.
  unfoldable pub drain :
      FactoryRecipe → Option (String × Battery F) → Map (Battery F) → Option (Map (Battery F))
  drain r none m = none
  drain r (some (k, b)) m =
      if ltb_ℤ b.energy r.energy
      then none
      else some (insert k (record b { energy = int_sub b.energy r.energy }) m)

  unfoldable pub try_craft_factory :
      Factory F → FactoryRecipe → Server F → Client F → Option (Server F × Client F)
  try_craft_factory f r s c =
      if covers c.inventory r.need
      then elim (drain r (nearest_battery f.at s.batteries) s.batteries) [
        | none ↦ none
        | some m ↦ some (record s { batteries = m }, record c { inventory = produce r c.inventory })
      ]
      else none

  unfoldable pub craft_in_factory :
      Option (Factory F) → Option FactoryRecipe → Server F → Client F → Server F × Client F
  craft_in_factory none _ s c = (s, c)
  craft_in_factory (some f) none s c = (s, c)
  craft_in_factory (some f) (some r) s c = elim (try_craft_factory f r s c) [
    | none ↦ (s, c)
    | some (s', c') ↦ (s', send_inventory c')
  ]

  unfoldable pub handle_craft_factory : String → String → Server F → Client F → Server F × Client F
  unfolding craft_in_factory
  handle_craft_factory factory_id recipe_id s c =
      craft_in_factory (lookup factory_id s.factories) (lookup recipe_id factory_recipes) s c

  unfoldable pub energy_per_panel : F → ℤ
  energy_per_panel dt = fl.to_int (num 5 ⊗ dt ⊗ num 100)

  -- One panel charges the battery that is nearest to it, up to that battery's limit.
  unfoldable pub charge_battery : ℤ → Battery F → Battery F
  charge_battery e b =
      let sum = int_add b.energy (div_hundred e) in
      record b { energy = if ltb_ℤ b.max_energy sum then b.max_energy else sum }

  unfoldable pub charge_nearest :
      ℤ → Option (String × Battery F) → Map (Battery F) → Map (Battery F)
  charge_nearest e none m = m
  charge_nearest e (some (k, b)) m = insert k (charge_battery e b) m

  unfoldable pub charge_all : ℤ → Map (Solar F) → Map (Battery F) → Map (Battery F)
  charge_all e [] m = m
  charge_all e ((_, p) ∷ panels) m =
      charge_all e panels (charge_nearest e (nearest_battery p.at m) m)

  unfoldable pub tick_energy : F → Server F → Server F
  tick_energy dt s = record s { batteries = charge_all (energy_per_panel dt) s.solar s.batteries }
