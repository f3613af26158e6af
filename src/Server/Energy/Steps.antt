-- ===== src/Server/Energy/Steps.antt =====
-- Whatever is built, crafted and charged, a battery holds from 0 to its limit.
use lodeen.Base.{
  ◌-◌, ◌≡◌, refl, String, Option, none, some, inl, inr, arith, ltb, Option-cases, Bool-cases,
}
use mathlib.Core.Path.{subst}
use lodeen.Base.Int.{pos, pos_part}
use lodeen.Base.Map.{Map, lookup, insert, AllValues, insert-AllValues, Entry, Entry-AllValues}
use lodeen.Base.Float.{Float, IsStrictOrder}
use lodeen.Protocol.Messages.{Place}
use lodeen.Server.State.{Client, Server, Battery, Factory}
use lodeen.Server.Crafting.{covers}
use lodeen.Server.Energy.{
  FactoryRecipe, factory_recipes, nearest_battery, drain, try_craft_factory, craft_in_factory,
  handle_craft_factory, handle_place_battery, energy_per_panel, tick_energy,
}
use lodeen.Server.Energy.Charging.{
  IsGain, IsBattery, nearest_battery-Entry, tick_energy-IsBattery, handle_place_battery-IsBattery,
}
use lodeen.Server.Energy.Factories.{IsFactoryRecipe, recipe-IsFactoryRecipe, drain-some, drain-weak}

module _ {F : Type 0} ⦃fl : Float F⦄ where
  -- All batteries of the server are sound.
  abbrev pub IsPowered : Server F → Type 0
  IsPowered s = AllValues IsBattery s.batteries

  drained :
      (r : FactoryRecipe) (b : Battery F)
      → IsBattery b
      → IsBattery (record b { energy = pos (pos_part b.energy - pos_part r.energy) })
  drained r b full = record { limit = full.limit; sign = refl; fits = omega (arith, full.fits) }

  drain-IsBattery :
      (r : FactoryRecipe) (o : Option (String × Battery F)) (m out : Map (Battery F))
      → IsFactoryRecipe r
      → ((k : String) (b : Battery F) → o ≡ some (k, b) → Entry k b m)
      → AllValues IsBattery m
      → drain r o m ≡ some out
      → AllValues IsBattery out
  drain-IsBattery r none m out ok from h e = absurd (unfold drain in ground (arith, e))
  drain-IsBattery r (some (k, b)) m out ok from h e =
      let full = Entry-AllValues IsBattery k b m h (from k b refl) in
      elim (Bool-cases (ltb (pos_part b.energy) (pos_part r.energy))) [
        | inl weak ↦ absurd (ground (arith, e, drain-weak r k b m ok full, weak))
        | inr enough ↦
            let b' : Battery F = record b {
              energy = pos (pos_part b.energy - pos_part r.energy);
            } in
            let same : insert k b' m ≡ out =
              ground (arith, e, drain-some r k b m ok full, enough) in
            subst (AllValues IsBattery) same
              (insert-AllValues IsBattery k b' m h (drained r b full))
      ]

  try_craft_factory-IsPowered :
      IsStrictOrder F
      → (f : Factory F) (r : FactoryRecipe) (s t : Server F) (c d : Client F) → IsFactoryRecipe r
      → IsPowered s
      → try_craft_factory f r s c ≡ some (t, d)
      → IsPowered t
  unfolding try_craft_factory
  try_craft_factory-IsPowered laws f r s t c d ok h e =
      elim (Bool-cases (covers c.inventory r.need)) [
        | inr short ↦ absurd (ground (arith, e, short))
        | inl enough ↦
            elim (Option-cases (drain r (nearest_battery f.at s.batteries) s.batteries)) [
              | inl weak ↦ absurd (ground (arith, e, enough, weak))
              | inr (m, some_left) ↦
                  let same : m ≡ t.batteries = ground (arith, e, enough, some_left) in
                  subst (AllValues IsBattery) same (
                    drain-IsBattery r (nearest_battery f.at s.batteries) s.batteries m ok
                      (nearest_battery-Entry laws f.at s.batteries) h some_left)
            ]
      ]

  craft_in_factory-IsPowered :
      IsStrictOrder F
      → (o : Option (Factory F)) (q : Option FactoryRecipe) (s : Server F) (c : Client F)
      → ((r : FactoryRecipe) → q ≡ some r → IsFactoryRecipe r)
      → IsPowered s
      → IsPowered (craft_in_factory o q s c).0
  unfolding craft_in_factory
  craft_in_factory-IsPowered laws none q s c ok h = h
  craft_in_factory-IsPowered laws (some f) none s c ok h = h
  craft_in_factory-IsPowered laws (some f) (some r) s c ok h =
      elim (Option-cases (try_craft_factory f r s c)) [
        | inl e ↦ rw (e, craft_in_factory) h
        | inr ((t, d), e) ↦
            rw (e, craft_in_factory) (try_craft_factory-IsPowered laws f r s t c d (ok r refl) h e)
      ]

  -- What the players and the clock do with energy. A tick gives an int64 that is not negative.
  pub data EnergyStep : Server F → Server F → Type 0 where
    placed :
        (id : String) (p : Place F) (s : Server F) (c : Client F)
        → EnergyStep s (handle_place_battery id p s c).0
    crafted :
        (factory_id recipe_id : String) (s : Server F) (c : Client F)
        → EnergyStep s (handle_craft_factory factory_id recipe_id s c).0
    charged :
        (dt : F) (s : Server F) → IsGain (energy_per_panel dt) → EnergyStep s (tick_energy dt s)

  -- Any number of steps.
  pub data EnergySteps : Server F → Server F → Type 0 where
    stay : (s : Server F) → EnergySteps s s
    step : (s t u : Server F) → EnergyStep s t → EnergySteps t u → EnergySteps s u

  step-IsPowered : IsStrictOrder F → (s t : Server F) → EnergyStep s t → IsPowered s → IsPowered t
  unfolding handle_craft_factory
  step-IsPowered laws _ _ (placed id p s c) h = handle_place_battery-IsBattery id p s c h
  step-IsPowered laws _ _ (crafted factory_id recipe_id s c) h =
      craft_in_factory-IsPowered laws (lookup factory_id s.factories)
        (lookup recipe_id factory_recipes) s c (recipe-IsFactoryRecipe recipe_id) h
  step-IsPowered laws _ _ (charged dt s g) h = tick_energy-IsBattery laws dt s g h

  -- Whatever batteries are placed, whatever is crafted at factories, and however long the panels
  -- charge: every battery holds from 0 to its limit of 1000.
  pub EnergySteps-IsPowered :
      IsStrictOrder F → (s t : Server F) → EnergySteps s t → IsPowered s → IsPowered t
  EnergySteps-IsPowered laws _ _ (stay s) h = h
  EnergySteps-IsPowered laws _ _ (step s t u a rest) h =
      EnergySteps-IsPowered laws t u rest (step-IsPowered laws s t a h)
