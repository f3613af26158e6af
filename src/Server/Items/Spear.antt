-- ===== src/Server/Items/Spear.antt =====
-- The spear's cooldown gives a spear back that was thrown too soon.
use lodeen.Base.{ℕ, suc, ◌*◌, ◌<◌, ◌≡◌, String, arith, eq_iff, ◌==◌, if◌then◌else◌}
use lodeen.Base.Int.{ℤ, pos, ◌≤ℤ◌, ◌<ℤ◌, int_bound, int_add, int_add-pos}
use lodeen.Base.Map.{Map, insert}
use lodeen.Base.Float.{Float}
use lodeen.Server.State.{Client}
use lodeen.Server.Time.{time_sub, millisecond}
use lodeen.Server.Client.{quantity, take_one, send_inventory}
use lodeen.Server.Client.Inventory.{quantity-insert, quantity-take_one, consume_item-some}
use lodeen.Server.Items.{handle_throw_spear}

-- A spear taken and put back leaves every quantity as it was.
quantity-give_back :
    (n : ℕ) (m : Map ℤ) (j : String)
    → quantity "spear" m ≡ pos (suc n)
    → suc n < int_bound
    → let left = take_one "spear" m in
      quantity j (insert "spear" (int_add (quantity "spear" left) (pos 1)) left) ≡ quantity j m
quantity-give_back n m j q h =
    let left : Map ℤ = take_one "spear" m in
    ground (
      arith,
      eq_iff "spear" j,
      eq_iff "spear" "spear",
      quantity-take_one "spear" j n m q h,
      quantity-take_one "spear" "spear" n m q h,
      int_add-pos n 1 (omega arith),
      quantity-insert "spear" j (int_add (quantity "spear" left) (pos 1)) left,
    )

module _ {F : Type 0} ⦃fl : Float F⦄ where
  -- A throw within 800 ms of the last one costs nothing and starts no new cooldown: the client is
  -- sent an inventory with the same quantities.
  pub handle_throw_spear-cooldown :
      (now n : ℕ) (c : Client F)
      → quantity "spear" c.inventory ≡ pos (suc n)
      → suc n < int_bound
      → time_sub now c.last_throw_at <ℤ pos (800 * millisecond)
      → (out : Map ℤ) × (handle_throw_spear now c ≡ send_inventory (record c { inventory = out }))
        × ((j : String) → quantity j out ≡ quantity j c.inventory)
  unfolding handle_throw_spear
  handle_throw_spear-cooldown now n c q h soon =
      let left : Map ℤ = take_one "spear" c.inventory in
      (
        insert "spear" (int_add (quantity "spear" left) (pos 1)) left,
        ground (arith, consume_item-some "spear" n c q),
        λ j. quantity-give_back n c.inventory j q h,
      )

  -- A throw after the cooldown costs one spear and starts the next cooldown.
  pub handle_throw_spear-throws :
      (now n : ℕ) (c : Client F)
      → quantity "spear" c.inventory ≡ pos (suc n)
      → suc n < int_bound
      → pos (800 * millisecond) ≤ℤ time_sub now c.last_throw_at
      → (out : Map ℤ) × (handle_throw_spear now c
          ≡ send_inventory (record c { inventory = out; last_throw_at = now }))
        × ((j : String) → quantity j out ≡ (if "spear" == j then pos n else quantity j c.inventory))
  unfolding handle_throw_spear
  handle_throw_spear-throws now n c q h late = (
    take_one "spear" c.inventory,
    ground (arith, consume_item-some "spear" n c q),
    λ j. quantity-take_one "spear" j n c.inventory q h,
  )
