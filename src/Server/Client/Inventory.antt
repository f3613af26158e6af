-- ===== src/Server/Client/Inventory.antt =====
-- What the inventory operations do to the quantity of each item.
use lodeen.Base.{ℕ, zero, suc, ◌+◌, ◌<◌, ◌≡◌, refl, String, none, some, arith, ◌==◌, if◌then◌else◌}
use lodeen.Base.Int.{ℤ, pos, negsuc, ◌≤ℤ◌, int_bound, int_add-pos, int_sub-pos}
use lodeen.Base.Map.{Map, insert, erase, lookup-insert, lookup-erase}
use lodeen.Server.Client.{enqueue, send_inventory, quantity, take_one, add_item, consume_item}
use lodeen.Server.State.{Client}

pub quantity-insert :
    (k j : String) (v : ℤ) (m : Map ℤ)
    → quantity j (insert k v m) ≡ (if k == j then v else quantity j m)
unfolding quantity
quantity-insert k j v m = ground (arith, lookup-insert k j v m)

pub quantity-erase :
    (k j : String) (m : Map ℤ) → quantity j (erase k m) ≡ (if k == j then pos 0 else quantity j m)
unfolding quantity
quantity-erase k j m = ground (arith, lookup-erase k j m)

-- `take_one` lowers one quantity by 1 and keeps the others.
pub quantity-take_one :
    (item j : String) (n : ℕ) (m : Map ℤ)
    → quantity item m ≡ pos (suc n)
    → suc n < int_bound
    → quantity j (take_one item m) ≡ (if item == j then pos n else quantity j m)
unfolding take_one
quantity-take_one item j n m e h = ground (
  arith,
  int_sub-pos (suc n) 1 h (omega arith),
  quantity-insert item j (pos n) m,
  quantity-erase item j (insert item (pos n) m),
)

module _ {F : Type 0} where
  -- `addItem` raises one quantity by 1 and keeps the others.
  pub quantity-add_item :
      (item j : String) (n : ℕ) (c : Client F)
      → quantity item c.inventory ≡ pos n
      → n + 1 < int_bound
      → quantity j (add_item item c).inventory
        ≡ (if item == j then pos (n + 1) else quantity j c.inventory)
  unfolding add_item
  quantity-add_item item j n c e h =
      ground (arith, int_add-pos n 1 h, quantity-insert item j (pos (n + 1)) c.inventory)

  -- What a client answers to `consumeItem`, by what it holds.
  pub consume_item-none :
      (item : String) (c : Client F)
      → quantity item c.inventory ≤ℤ pos 0
      → consume_item item c ≡ none
  unfolding consume_item
  consume_item-none item c h = ground arith

  pub consume_item-some :
      (item : String) (n : ℕ) (c : Client F)
      → quantity item c.inventory ≡ pos (suc n)
      → consume_item item c ≡ some (record c { inventory = take_one item c.inventory })
  unfolding consume_item
  consume_item-some item n c e = ground arith

  -- A client that could consume held at least one.
  pub consume_item-inv :
      (item : String) (c d : Client F)
      → consume_item item c ≡ some d
      → (n : ℕ) × (quantity item c.inventory ≡ pos (suc n))
        × (d ≡ record c { inventory = take_one item c.inventory })
  unfolding consume_item
  consume_item-inv item c d h = split (quantity item c.inventory) refl
    where
      split :
          (q : ℤ)
          → quantity item c.inventory ≡ q
          → (n : ℕ) × (quantity item c.inventory ≡ pos (suc n))
            × (d ≡ record c { inventory = take_one item c.inventory })
      split (pos zero) e = absurd (ground arith)
      split (pos (suc n)) e = (n, e, ground arith)
      split (negsuc n) e = absurd (ground arith)

  -- To send an inventory does not change it.
  pub send_inventory-inventory : (c : Client F) → (send_inventory c).inventory ≡ c.inventory
  unfolding send_inventory enqueue
  send_inventory-inventory c = ground arith
