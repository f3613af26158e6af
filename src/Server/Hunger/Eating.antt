-- ===== src/Server/Hunger/Eating.antt =====
-- The loop of the eating ends.
use lodeen.Base.{
  ℕ, zero, suc, ◌+◌, ◌<◌, ◌≡◌, refl, false, none, some, ◌⊎◌, inl, inr, arith, Bool-cases,
}
use lodeen.Base.Int.{ℤ, pos, negsuc, pos_part, ◌≤ℤ◌, int_bound}
use lodeen.Base.Float.{Float, num, flt}
use lodeen.Server.State.{Client}
use lodeen.Server.Client.{quantity, take_one, send_inventory, add_hunger}
use lodeen.Server.Client.Inventory.{
  quantity-take_one, consume_item-none, consume_item-some, send_inventory-inventory,
}
use lodeen.Server.Hunger.{portions, eat_one, auto_eat}

module _ {F : Type 0} where
  -- The numbers of fruits and of pieces of meat are int64s.
  abbrev pub IsLarder : Client F → Type 0
  IsLarder c =
      (pos_part (quantity "fruit" c.inventory) < int_bound)
      × (pos_part (quantity "meat" c.inventory) < int_bound)

-- There is none of an item, or a first one.
quantity-cases : (z : ℤ) → (z ≤ℤ pos 0) ⊎ ((n : ℕ) × (z ≡ pos (suc n)))
quantity-cases (pos zero) = inl (omega arith)
quantity-cases (pos (suc n)) = inr (n, refl)
quantity-cases (negsuc n) = inl (omega arith)

module _ {F : Type 0} ⦃fl : Float F⦄ where
  -- Why the loop ended: the client is fed, or there is nothing to eat.
  abbrev pub IsFed : Client F → Type 0
  IsFed c =
      (flt c.hunger (num 50) ≡ false)
      ⊎ ((quantity "fruit" c.inventory ≤ℤ pos 0) × (quantity "meat" c.inventory ≤ℤ pos 0))

  -- What a portion leaves: one portion less.
  abbrev pub Eaten : Client F → Client F → Type 0
  Eaten c d = (portions d + 1 ≡ portions c) × IsLarder d

  eat_fruit :
      (n : ℕ) (c : Client F)
      → quantity "fruit" c.inventory ≡ pos (suc n)
      → IsLarder c
      → Eaten c (
          send_inventory
            (add_hunger (num 20) (record c { inventory = take_one "fruit" c.inventory })))
  unfolding portions add_hunger
  eat_fruit n c e h =
      let d : Client F = record c { inventory = take_one "fruit" c.inventory } in
      rw (send_inventory-inventory (add_hunger (num 20) d)) (
        ground (
          arith,
          e,
          h,
          quantity-take_one "fruit" "fruit" n c.inventory e,
          quantity-take_one "fruit" "meat" n c.inventory e,
        ))

  eat_meat :
      (n : ℕ) (c : Client F)
      → quantity "meat" c.inventory ≡ pos (suc n)
      → IsLarder c
      → Eaten c (
          send_inventory
            (add_hunger (num 30) (record c { inventory = take_one "meat" c.inventory })))
  unfolding portions add_hunger
  eat_meat n c e h =
      let d : Client F = record c { inventory = take_one "meat" c.inventory } in
      rw (send_inventory-inventory (add_hunger (num 30) d)) (
        ground (
          arith,
          e,
          h,
          quantity-take_one "meat" "fruit" n c.inventory e,
          quantity-take_one "meat" "meat" n c.inventory e,
        ))

  -- A round finds nothing to eat, or eats one portion.
  eat_one-cases :
      (c : Client F)
      → IsLarder c
      → ((eat_one c ≡ none)
          × (quantity "fruit" c.inventory ≤ℤ pos 0)
          × (quantity "meat" c.inventory ≤ℤ pos 0))
        ⊎ ((d : Client F) × (eat_one c ≡ some d) × Eaten c d)
  unfolding eat_one
  eat_one-cases c h = elim (quantity-cases (quantity "fruit" c.inventory)) [
    | inr (n, e) ↦ inr (
      send_inventory (add_hunger (num 20) (record c { inventory = take_one "fruit" c.inventory })),
      ground (arith, consume_item-some "fruit" n c e),
      eat_fruit n c e h,
    )
    | inl no_fruit ↦ elim (quantity-cases (quantity "meat" c.inventory)) [
      | inr (n, e) ↦ inr (
        send_inventory (add_hunger (num 30) (record c { inventory = take_one "meat" c.inventory })),
        ground (arith, consume_item-none "fruit" c no_fruit, consume_item-some "meat" n c e),
        eat_meat n c e h,
      )
      | inl no_meat ↦ inl (
        ground (arith, consume_item-none "fruit" c no_fruit, consume_item-none "meat" c no_meat),
        no_fruit,
        no_meat,
      )
    ]
  ]

  -- The loop ends after as many rounds as there are portions at most: then the hunger is 50 or more
  -- (or no number), or the client holds neither a fruit nor meat.
  pub auto_eat-IsFed :
      (n : ℕ) (c : Client F)
      → IsLarder c
      → portions c < n
      → (d : Client F) × (auto_eat n c ≡ some d) × IsFed d
  unfolding auto_eat
  auto_eat-IsFed zero c h k = absurd (omega arith)
  auto_eat-IsFed (suc n) c h k = elim (Bool-cases (flt c.hunger (num 50))) [
    | inr fed ↦ (c, ground (arith, fed), inl fed)
    | inl hungry ↦ elim (eat_one-cases c h) [
      | inl (e, no_fruit, no_meat) ↦ (c, ground (arith, hungry, e), inr (no_fruit, no_meat))
      | inr (d, e, eaten) ↦
          let rest = auto_eat-IsFed n d eaten.1 (omega (arith, eaten.0, k)) in
          (rest.0, ground (arith, hungry, e, rest.1), rest.2)
    ]
  ]
