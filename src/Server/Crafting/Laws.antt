-- ===== src/Server/Crafting/Laws.antt =====
-- `handleCraft` exchanges what a recipe needs for what it makes, or changes nothing.
use lodeen.Base.{
  ◌+◌, ◌-◌, ◌≤◌, ◌<◌, ◌≡◌, refl, ap, ◌∙◌, String, true, false, [], ◌∷◌, none, some, arith, eq_iff,
  Bool-cases, inl, inr, ◌↔◌, ◌⊎◌,
}
use lodeen.Base.Int.{ℤ, pos, negsuc, int_bound}
use lodeen.Base.Map.{Map, lookup, AllValues, lookup-AllValues}
use lodeen.Server.State.{Client}
use lodeen.Server.Client.{quantity, send_inventory}
use lodeen.Server.Crafting.{
  CraftRecipe, craft_recipes, covers, spend, gain, craft, is_zero, craft_recipe, handle_craft,
}
use lodeen.Server.Crafting.Exchange.{
  stock, IsStock, IsRecipe, OnlyWhenGone, quantity-cons, quantity-spend, quantity-gain,
  quantity-missing,
}

pub covers_enough :
    (need inv : Map ℤ)
    → IsRecipe need
    → IsStock inv
    → ((j : String) → stock j need ≤ stock j inv)
    → covers inv need ≡ true
unfolding covers
covers_enough [] inv r st h = refl
covers_enough ((k, negsuc n) ∷ need) inv r st h = absurd (omega arith)
covers_enough ((k, pos n) ∷ need) inv r st h =
    let later : (j : String) → stock j need ≤ stock j inv = λ j.
      ground
        (arith, h j, quantity-cons k j (pos n) need, quantity-missing k need r.0, eq_iff k j) in
    ground (
      arith,
      h k,
      st k,
      quantity-cons k k (pos n) need,
      eq_iff k k,
      covers_enough need inv r.2 st later,
    )

-- There is enough of each item exactly when the loop over the recipe finds nothing missing.
pub covers_iff :
    (need inv : Map ℤ)
    → IsRecipe need
    → IsStock inv
    → (covers inv need ≡ true) ↔ ((j : String) → stock j need ≤ stock j inv)
covers_iff need inv r st = (
  λ c j. (quantity-spend (λ _. false) need inv j (λ n. refl) r st c).0,
  covers_enough need inv r st,
)

-- A recipe of the table, each of which makes at most one of anything.
abbrev pub IsCraftRecipe : CraftRecipe → Type 0
IsCraftRecipe r = IsRecipe r.need × IsRecipe r.have × ((k : String) → stock k r.have ≤ 1)

one_of : (k j : String) → stock j ((k, pos 1) ∷ []) ≤ 1
unfolding quantity lookup
one_of k j = ground arith

craft_recipes-IsCraftRecipe : AllValues IsCraftRecipe craft_recipes
unfolding lookup
craft_recipes-IsCraftRecipe = (
  ((refl, refl, (refl, refl, tt)), (refl, refl, tt), one_of "spear"),
  (
    ((refl, refl, tt), (refl, refl, tt), one_of "leash"),
    (
      ((refl, refl, tt), (refl, refl, tt), one_of "house"),
      (
        ((refl, refl, tt), (refl, refl, tt), one_of "saddle"),
        (((refl, refl, tt), (refl, refl, tt), one_of "boat"), tt),
      ),
    ),
  ),
)

is_zero-OnlyWhenGone : OnlyWhenGone is_zero
unfolding is_zero
is_zero-OnlyWhenGone n = ground arith

craft-exchanges :
    (r : CraftRecipe) (inv : Map ℤ)
    → IsCraftRecipe r
    → IsStock inv
    → ((k : String) → stock k inv + 1 < int_bound)
    → ((k : String) → stock k r.need ≤ stock k inv)
    → (out : Map ℤ) × (craft r inv ≡ some out)
      × ((k : String) → quantity k out ≡ pos (stock k inv - stock k r.need + stock k r.have))
unfolding craft
craft-exchanges r inv (need, have, small) st room enough =
    let c = covers_enough r.need inv need st enough in
    let spent : Map ℤ = spend is_zero r.need inv in
    let after =
      λ (k : String). (quantity-spend is_zero r.need inv k is_zero-OnlyWhenGone need st c).1 in
    let spent_st : IsStock spent = λ k. ground (arith, after k, st k) in
    let fits : (k : String) → stock k spent + stock k r.have < int_bound =
      λ k. ground (arith, after k, room k, small k) in
    (
      gain r.have spent,
      rw c,
      λ k. ground (arith, quantity-gain r.have spent k have spent_st fits, after k),
    )

-- With too little of one item there is no craft.
craft-none :
    (r : CraftRecipe) (inv : Map ℤ) (k : String)
    → IsRecipe r.need
    → IsStock inv
    → stock k inv < stock k r.need
    → craft r inv ≡ none
unfolding craft
craft-none r inv k need st short = elim (Bool-cases (covers inv r.need)) [
  | inl c ↦ absurd (omega (arith, (covers_iff r.need inv need st).0 c k))
  | inr missing ↦ rw missing
]

module _ {F : Type 0} where
  craft_recipe-some :
      (r : CraftRecipe) (c : Client F) (out : Map ℤ)
      → craft r c.inventory ≡ some out
      → craft_recipe (some r) c ≡ send_inventory (record c { inventory = out })
  unfolding craft_recipe
  craft_recipe-some r c out e = rw (e, craft_recipe)

  craft_recipe-none :
      (r : CraftRecipe) (c : Client F) → craft r c.inventory ≡ none → craft_recipe (some r) c ≡ c
  unfolding craft_recipe
  craft_recipe-none r c e = rw (e, craft_recipe)

  -- A craft of a known recipe, by a client that holds enough of each item: every quantity falls by
  -- what the recipe needs and rises by what it makes, and the client is sent the new inventory.
  pub handle_craft-exchanges :
      (recipe : String) (r : CraftRecipe) (c : Client F)
      → lookup recipe craft_recipes ≡ some r
      → IsStock c.inventory
      → ((k : String) → stock k c.inventory + 1 < int_bound)
      → ((k : String) → stock k r.need ≤ stock k c.inventory)
      → (out : Map ℤ) × (handle_craft recipe c ≡ send_inventory (record c { inventory = out }))
        × ((k : String)
            → quantity k out ≡ pos (stock k c.inventory - stock k r.need + stock k r.have))
  unfolding handle_craft
  handle_craft-exchanges recipe r c known st room enough =
      let ok =
        lookup-AllValues IsCraftRecipe recipe r craft_recipes craft_recipes-IsCraftRecipe known in
      let (out, e, q) = craft-exchanges r c.inventory ok st room enough in
      (out, ap (λ o. craft_recipe o c) known ∙ craft_recipe-some r c out e, q)

  -- A craft of an unknown recipe, or with less of some item than the recipe needs, changes nothing
  -- and sends nothing.
  pub handle_craft-refused :
      (recipe : String) (c : Client F)
      → IsStock c.inventory
      → (lookup recipe craft_recipes ≡ none)
        ⊎ ((r : CraftRecipe) × (k : String) × (lookup recipe craft_recipes ≡ some r)
            × (stock k c.inventory < stock k r.need))
      → handle_craft recipe c ≡ c
  unfolding handle_craft
  handle_craft-refused recipe c st (inl unknown) = rw unknown
  handle_craft-refused recipe c st (inr (r, k, known, short)) =
      let ok =
        lookup-AllValues IsCraftRecipe recipe r craft_recipes craft_recipes-IsCraftRecipe known in
      ap (λ o. craft_recipe o c) known
      ∙ craft_recipe-none r c (craft-none r c.inventory k ok.0 st short)
