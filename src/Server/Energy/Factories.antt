-- ===== src/Server/Energy/Factories.antt =====
-- `handleCraftFactory` is atomic: it takes the energy of one battery and the materials together, or
-- changes nothing.
use lodeen.Base.{
  ◌+◌, ◌-◌, ◌≤◌, ◌<◌, ◌≡◌, refl, ap, ◌∙◌, String, true, Option, none, some, arith, eq_iff, ◌==◌,
  if◌then◌else◌, Bool-cases, inl, inr, ◌⊎◌,
}
use mathlib.Core.Path.{ap₂}
use lodeen.Base.Int.{ℤ, pos, pos_part, neg_part, int_bound, int_sub-pos}
use lodeen.Base.Map.{Map, lookup, insert, AllValues, lookup-AllValues}
use lodeen.Base.Float.{Float}
use lodeen.Server.State.{Client, Server, Battery, Factory}
use lodeen.Server.Client.{quantity, send_inventory}
use lodeen.Server.Crafting.{covers, spend}
use lodeen.Server.Crafting.Exchange.{
  stock, IsStock, IsRecipe, OnlyWhenGone, quantity-spend, quantity-gain_item,
}
use lodeen.Server.Crafting.Laws.{covers_iff, covers_enough}
use lodeen.Server.Energy.Charging.{IsBattery, pos_of_sign}
use lodeen.Server.Energy.{
  FactoryRecipe, factory_recipes, is_spent, nearest_battery, drain, produce, try_craft_factory,
  craft_in_factory, handle_craft_factory,
}

is_spent-OnlyWhenGone : OnlyWhenGone is_spent
unfolding is_spent
is_spent-OnlyWhenGone n = ground arith

-- A recipe of the table: it makes one thing and needs an energy that is not negative.
pub record IsFactoryRecipe (r : FactoryRecipe) : Type 0 where
  pub need : IsRecipe r.need
  pub energy : neg_part r.energy ≡ 0
  pub one : r.out_qty ≡ pos 1

factory_recipes-IsFactoryRecipe : AllValues IsFactoryRecipe factory_recipes
unfolding lookup
factory_recipes-IsFactoryRecipe = (
  record { need = (refl, refl, tt); energy = refl; one = refl },
  (
    record { need = (refl, refl, (refl, refl, tt)); energy = refl; one = refl },
    (
      record { need = (refl, refl, (refl, refl, tt)); energy = refl; one = refl },
      (
        record { need = (refl, refl, (refl, refl, tt)); energy = refl; one = refl },
        (
          record { need = (refl, refl, (refl, refl, (refl, refl, tt))); energy = refl; one = refl },
          tt,
        ),
      ),
    ),
  ),
)

pub recipe-IsFactoryRecipe :
    (id : String) (r : FactoryRecipe) → lookup id factory_recipes ≡ some r → IsFactoryRecipe r
recipe-IsFactoryRecipe id r =
    lookup-AllValues IsFactoryRecipe id r factory_recipes factory_recipes-IsFactoryRecipe

-- What is left of an item after a craft: what the recipe needs is gone, and its product is added.
pub quantity-produce :
    (r : FactoryRecipe) (inv : Map ℤ) (k : String)
    → IsFactoryRecipe r
    → IsStock inv
    → ((j : String) → stock j inv + 1 < int_bound)
    → covers inv r.need ≡ true
    → quantity k (produce r inv)
      ≡ pos (stock k inv - stock k r.need + (if r.out == k then 1 else 0))
unfolding produce
quantity-produce r inv k ok st room c =
    let spent : Map ℤ = spend is_spent r.need inv in
    let after =
      λ (j : String). (quantity-spend is_spent r.need inv j is_spent-OnlyWhenGone ok.need st c).1 in
    let spent_st : IsStock spent = λ j. ground (arith, after j, st j) in
    rw ok.one (
      ground (
        arith,
        after k,
        after r.out,
        eq_iff r.out k,
        quantity-gain_item r.out k 1 spent spent_st (ground (arith, after r.out, room r.out)),
      ))

module _ {F : Type 0} ⦃fl : Float F⦄ where
  pub drain-some :
      (r : FactoryRecipe) (k : String) (b : Battery F) (m : Map (Battery F))
      → IsFactoryRecipe r
      → IsBattery b
      → pos_part r.energy ≤ pos_part b.energy
      → drain r (some (k, b)) m
        ≡ some (insert k (record b { energy = pos (pos_part b.energy - pos_part r.energy) }) m)
  unfolding drain
  drain-some r k b m ok full enough = ground (
    arith,
    pos_of_sign r.energy ok.energy,
    pos_of_sign b.energy full.sign,
    full.fits,
    int_sub-pos (pos_part b.energy) (pos_part r.energy),
  )

  pub drain-weak :
      (r : FactoryRecipe) (k : String) (b : Battery F) (m : Map (Battery F))
      → IsFactoryRecipe r
      → IsBattery b
      → pos_part b.energy < pos_part r.energy
      → drain r (some (k, b)) m ≡ none
  unfolding drain
  drain-weak r k b m ok full weak =
      ground (arith, pos_of_sign r.energy ok.energy, pos_of_sign b.energy full.sign)

  -- A craft at a known factory of a known recipe, with enough of each item and a battery near
  -- enough and full enough: the energy of the recipe leaves the nearest battery, each quantity
  -- falls by what is needed, the product rises by one, and the client is sent the new inventory.
  pub handle_craft_factory-exchanges :
      (factory_id recipe_id k : String) (f : Factory F) (r : FactoryRecipe) (b : Battery F)
      (s : Server F) (c : Client F)
      → lookup factory_id s.factories ≡ some f
      → lookup recipe_id factory_recipes ≡ some r
      → IsStock c.inventory
      → ((j : String) → stock j c.inventory + 1 < int_bound)
      → ((j : String) → stock j r.need ≤ stock j c.inventory)
      → nearest_battery f.at s.batteries ≡ some (k, b)
      → IsBattery b
      → pos_part r.energy ≤ pos_part b.energy
      → let left : ℤ = pos (pos_part b.energy - pos_part r.energy) in
        (out : Map ℤ) × (handle_craft_factory factory_id recipe_id s c ≡ (
          record s { batteries = insert k (record b { energy = left }) s.batteries },
          send_inventory (record c { inventory = out }),
        ))
        × ((j : String)
            → quantity j out
              ≡ pos (stock j c.inventory - stock j r.need + (if r.out == j then 1 else 0)))
  unfolding handle_craft_factory craft_in_factory try_craft_factory
  handle_craft_factory-exchanges factory_id recipe_id k f r b s c ef er st room enough near full
        power =
      let ok = recipe-IsFactoryRecipe recipe_id r er in
      let e = covers_enough r.need c.inventory ok.need st enough in
      (
        produce r c.inventory,
        ground (arith, near, drain-some r k b s.batteries ok full power),
        λ j. quantity-produce r c.inventory j ok st room e,
      )

  -- What may be missing.
  abbrev pub Missing : FactoryRecipe → Factory F → Server F → Client F → Type 0
  Missing r f s c =
      ((j : String) × (stock j c.inventory < stock j r.need))
      ⊎ (nearest_battery f.at s.batteries ≡ none)
      ⊎ ((k : String) × (b : Battery F) × (nearest_battery f.at s.batteries ≡ some (k, b))
          × (IsBattery b)
          × (pos_part b.energy < pos_part r.energy))

  try_craft_factory-none :
      (f : Factory F) (r : FactoryRecipe) (s : Server F) (c : Client F)
      → IsFactoryRecipe r
      → IsStock c.inventory
      → Missing r f s c
      → try_craft_factory f r s c ≡ none
  unfolding try_craft_factory
  try_craft_factory-none f r s c ok st (inl (j, short)) =
      elim (Bool-cases (covers c.inventory r.need)) [
        | inl e ↦ absurd (omega (arith, (covers_iff r.need c.inventory ok.need st).0 e j))
        | inr e ↦ rw (e, try_craft_factory)
      ]
  try_craft_factory-none f r s c ok st (inr (inl far)) = unfold drain in ground (arith, far)
  try_craft_factory-none f r s c ok st (inr (inr (k, b, near, full, weak))) =
      ground (arith, near, drain-weak r k b s.batteries ok full weak)

  craft_in_factory-unknown :
      (o : Option (Factory F)) (s : Server F) (c : Client F) → craft_in_factory o none s c ≡ (s, c)
  unfolding craft_in_factory
  craft_in_factory-unknown none s c = refl
  craft_in_factory-unknown (some f) s c = refl

  craft_in_factory-none :
      (f : Factory F) (r : FactoryRecipe) (s : Server F) (c : Client F)
      → try_craft_factory f r s c ≡ none
      → craft_in_factory (some f) (some r) s c ≡ (s, c)
  unfolding craft_in_factory
  craft_in_factory-none f r s c e = rw (e, craft_in_factory)

  -- With no such factory or recipe, too little of an item, no battery near, or too little energy in
  -- the nearest one, a craft changes neither the server nor the client, and sends nothing.
  pub handle_craft_factory-refused :
      (factory_id recipe_id : String) (s : Server F) (c : Client F)
      → IsStock c.inventory
      → (lookup factory_id s.factories ≡ none)
        ⊎ (lookup recipe_id factory_recipes ≡ none)
        ⊎ ((f : Factory F) × (r : FactoryRecipe) × (lookup factory_id s.factories ≡ some f)
            × (lookup recipe_id factory_recipes ≡ some r)
            × Missing r f s c)
      → handle_craft_factory factory_id recipe_id s c ≡ (s, c)
  unfolding handle_craft_factory craft_in_factory
  handle_craft_factory-refused factory_id recipe_id s c st (inl e) = rw (e, craft_in_factory)
  handle_craft_factory-refused factory_id recipe_id s c st (inr (inl e)) =
      ap (λ o. craft_in_factory (lookup factory_id s.factories) o s c) e
      ∙ craft_in_factory-unknown (lookup factory_id s.factories) s c
  handle_craft_factory-refused factory_id recipe_id s c st (inr (inr (f, r, ef, er, miss))) =
      ap₂ (λ o q. craft_in_factory o q s c) ef er
      ∙ craft_in_factory-none f r s c
          (try_craft_factory-none f r s c (recipe-IsFactoryRecipe recipe_id r er) st miss)
