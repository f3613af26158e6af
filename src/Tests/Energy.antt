-- ===== src/Tests/Energy.antt =====
-- Runs with panels, batteries and factories. The floats are hundredths: the number n stands for
-- n / 100.
use lodeen.Base.{
  ◌+◌, ◌*◌, ◌-◌, ◌/◌, ◌^◌, ◌≤◌, ◌<◌, ◌≡◌, refl, String, [], ◌∷◌, none, some, arith, ◌==◌,
  if◌then◌else◌,
}
use lodeen.Base.Int.{ℤ, pos, pos_part, ◌+ℤ◌, ◌-ℤ◌, ◌*ℤ◌, int_bound}
use lodeen.Base.Map.{Map, lookup, insert, AllValues, IsMap}
use lodeen.Base.Float.{Ops, Float, IsStrictOrder}
use lodeen.Protocol.Geometry.{dist2}
use lodeen.Server.State.{Client, Server, Battery, Factory}
use lodeen.Server.Client.{quantity, send_inventory}
use lodeen.Server.Crafting.Exchange.{stock, IsStock}
use lodeen.Server.Nearest.{nearest_from, nearest}
use lodeen.Server.Energy.{
  FactoryRecipe, factory_recipes, nearest_battery, handle_craft_factory, handle_place_battery,
  energy_per_panel, tick_energy,
}
use lodeen.Server.Energy.Factories.{handle_craft_factory-exchanges}
use lodeen.Server.Energy.Charging.{IsGain, IsBattery, tick_energy-idle}
use lodeen.Server.Energy.Steps.{
  EnergySteps, placed, crafted, charged, stay, step, EnergySteps-IsPowered,
}
use lodeen.Tests.Sample.{div_ℤ, int_ops, int_float, point, empty_server, player}

-- A product of hundredths has its two decimals cut off again.
abbrev pub hundredth_ops : Ops ℤ
hundredth_ops = record int_ops {
  lit = λ n d. pos (n * 100 / 10 ^ d);
  mul = λ a b. div_ℤ (a *ℤ b) (pos 100);
  div = λ a b. div_ℤ (a *ℤ pos 100) b;
}

abbrev pub hundredths : Float ℤ
hundredths = record {
  ops = hundredth_ops;
  Wide = ℤ;
  wide = hundredth_ops;
  widen = λ a. a;
  narrow = λ a. a;
  to_int = λ a. div_ℤ a (pos 100);
}

pub hundredths-IsStrictOrder : IsStrictOrder ℤ ⦃fl = hundredths⦄
hundredths-IsStrictOrder = record {
  flt_irrefl = λ a. ground arith;
  flt_trans = λ a b c h k. ground arith;
}

abbrev battery : Battery ℤ
battery = record {
  id = "b1";
  at = point 1 1 1;
  yaw = pos 0;
  energy = pos 40;
  max_energy = pos 1000;
}

abbrev works : Server ℤ
works = record empty_server {
  solar = ("s1", record { id = "s1"; at = point 2 2 2; yaw = pos 0 }) ∷ [];
  batteries = ("b1", battery) ∷ [];
  factories =
      ("f1", record { id = "f1"; at = point 0 0 0; yaw = pos 0; crafting = ""; progress = pos 0 })
      ∷ [];
}

works-IsBattery : AllValues IsBattery works.batteries
works-IsBattery = (record { limit = refl; sign = refl; fits = omega arith }, tt)

works-IsMap : IsMap works.batteries
unfolding lookup
works-IsMap = (refl, tt)

-- At 20 ticks a second a panel gives 25.
tick-IsGain : IsGain (energy_per_panel ⦃fl = hundredths⦄ (pos 5))
unfolding energy_per_panel ◌*ℤ◌
tick-IsGain = record { sign = refl; small = omega arith }

tick_small : pos_part (energy_per_panel ⦃fl = hundredths⦄ (pos 5)) < 100
unfolding energy_per_panel ◌*ℤ◌
tick_small = omega arith

tick_energy-idle_example : tick_energy ⦃fl = hundredths⦄ (pos 5) works ≡ works
tick_energy-idle_example =
    tick_energy-idle ⦃fl = hundredths⦄ hundredths-IsStrictOrder (pos 5) works tick-IsGain tick_small
      works-IsMap works-IsBattery

abbrev builder : Client ℤ
builder = player "p1" (("ore", pos 6) ∷ ("battery", pos 1) ∷ [])

-- A battery is placed, a craft is tried, and a tick passes.
abbrev with_battery : Server ℤ
with_battery =
    (handle_place_battery ⦃fl = hundredths⦄ "b2" (record { at = point 9 9 9; yaw = pos 0 }) works
      builder).0

abbrev after_craft : Server ℤ
after_craft = (handle_craft_factory ⦃fl = hundredths⦄ "f1" "steel" with_battery builder).0

abbrev after_charge : Server ℤ
after_charge = tick_energy ⦃fl = hundredths⦄ (pos 5) after_craft

three_steps : EnergySteps ⦃fl = hundredths⦄ works after_charge
three_steps =
    step works with_battery after_charge
      (placed "b2" (record { at = point 9 9 9; yaw = pos 0 }) works builder)
      (step with_battery after_craft after_charge (crafted "f1" "steel" with_battery builder) (
        step after_craft after_charge after_charge (charged (pos 5) after_craft tick-IsGain)
          (stay after_charge)))

EnergySteps-IsPowered_example : AllValues IsBattery after_charge.batteries
EnergySteps-IsPowered_example =
    EnergySteps-IsPowered ⦃fl = hundredths⦄ hundredths-IsStrictOrder works after_charge three_steps
      works-IsBattery

abbrev factory : Factory ℤ
factory = record { id = "f1"; at = point 0 0 0; yaw = pos 0; crafting = ""; progress = pos 0 }

no_factory : lookup "f2" works.factories ≡ none
unfolding lookup
no_factory = refl

abbrev steel : FactoryRecipe
steel = record { need = ("ore", pos 5) ∷ []; energy = pos 10; out = "steel"; out_qty = pos 1 }

factory-there : lookup "f1" works.factories ≡ some factory
unfolding lookup
factory-there = refl

steel-known : lookup "steel" factory_recipes ≡ some steel
unfolding lookup
steel-known = refl

builder-IsStock : IsStock builder.inventory
unfolding quantity lookup
builder-IsStock k = ground arith

builder-room : (k : String) → stock k builder.inventory + 1 < int_bound
unfolding quantity lookup
builder-room k = ground arith

builder-enough : (k : String) → stock k steel.need ≤ stock k builder.inventory
unfolding quantity lookup
builder-enough k = ground arith

battery-near : nearest_battery factory.at works.batteries ≡ some ("b1", battery)
unfolding nearest_battery nearest nearest_from dist2 ◌+ℤ◌ ◌-ℤ◌ ◌*ℤ◌
battery-near = refl

handle_craft_factory-exchanges_example :
    (out : Map ℤ) × (handle_craft_factory "f1" "steel" works builder ≡ (
      record works { batteries = insert "b1" (record battery { energy = pos 30 }) works.batteries },
      send_inventory (record builder { inventory = out }),
    ))
    × ((j : String)
        → quantity j out
          ≡ pos (stock j builder.inventory - stock j steel.need + (if "steel" == j then 1 else 0)))
handle_craft_factory-exchanges_example =
    handle_craft_factory-exchanges "f1" "steel" "b1" factory steel battery works builder
      factory-there steel-known builder-IsStock builder-room builder-enough battery-near
      works-IsBattery.0 (omega arith)
