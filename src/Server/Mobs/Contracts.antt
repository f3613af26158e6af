-- ===== src/Server/Mobs/Contracts.antt =====
-- A contract is paid once, and a mob that has one takes no other.
use lodeen.Base.{
  ℕ, zero, suc, ◌-◌, ◌≤◌, ◌<◌, ◌≡◌, ◌≢◌, String, false, [], some, ◌⊎◌, inl, inr, arith, eq_iff,
  ◌==◌, if◌then◌else◌, not, ◌&&◌,
}
use mathlib.Core.Path.{sym, subst}
use lodeen.Base.Int.{ℤ, pos, int_sub-pos, int_bound}
use lodeen.Base.Map.{Map, lookup, insert}
use lodeen.Server.State.{Client, Server, Mob}
use lodeen.Server.Client.{quantity, take_one, send_inventory}
use lodeen.Server.Client.Inventory.{quantity-insert, quantity-take_one, consume_item-some}
use lodeen.Server.Mobs.{
  pay_contract_price, apply_contract, try_accept_contract, handle_accept_contract,
}

-- What a contract costs: the item and the number.
abbrev pub price : String → String × ℕ
price contract_id = if contract_id == "gather4" then ("fruit", 1) else ("spear", 10)

abbrev pub IsContract : String → Type 0
IsContract contract_id = (contract_id ≡ "gather4") ⊎ (contract_id ≡ "guard")

contract_known :
    (contract_id : String)
    → IsContract contract_id
    → (not (contract_id == "gather4") && not (contract_id == "guard")) ≡ false
contract_known contract_id (inl e) = ground (arith, eq_iff contract_id "gather4", e)
contract_known contract_id (inr e) = ground (arith, eq_iff contract_id "guard", e)

module _ {F : Type 0} where
  -- Exactly the price is paid.
  abbrev pub Paid : String → ℕ → Client F → Map ℤ → Type 0
  Paid contract_id n c out =
      (j : String)
      → quantity j out ≡ (
          if (price contract_id).0 == j
          then pos (n - (price contract_id).1)
          else quantity j c.inventory)

  -- A client that can pay, pays.
  abbrev pub Pays : String → ℕ → Client F → Type 0
  Pays contract_id n c =
      (out : Map ℤ) × (pay_contract_price contract_id c ≡ some (record c { inventory = out }))
      × Paid contract_id n c out

  pay_fruit :
      (n : ℕ) (c : Client F)
      → quantity "fruit" c.inventory ≡ pos (suc n)
      → suc n < int_bound
      → Pays "gather4" (suc n) c
  unfolding pay_contract_price
  pay_fruit n c q small = (
    take_one "fruit" c.inventory,
    consume_item-some "fruit" n c q,
    λ j. ground (arith, quantity-take_one "fruit" j n c.inventory q small),
  )

  pay_spears :
      (n : ℕ) (c : Client F)
      → quantity "spear" c.inventory ≡ pos n
      → 10 ≤ n
      → n < int_bound
      → Pays "guard" n c
  unfolding pay_contract_price
  pay_spears n c q le small = (
    insert "spear" (pos (n - 10)) c.inventory,
    ground (arith, q, int_sub-pos n 10 small le),
    λ j. quantity-insert "spear" j (pos (n - 10)) c.inventory,
  )

  pay_contract_price-Pays :
      (contract_id : String) (n : ℕ) (c : Client F)
      → IsContract contract_id
      → quantity (price contract_id).0 c.inventory ≡ pos n
      → (price contract_id).1 ≤ n
      → n < int_bound
      → Pays contract_id n c
  pay_contract_price-Pays contract_id zero c (inl e) q le small =
      absurd (omega (arith, subst (λ x. (price x).1 ≤ 0) e le))
  pay_contract_price-Pays contract_id (suc n) c (inl e) q le small =
      let q' = subst (λ x. quantity (price x).0 c.inventory ≡ pos (suc n)) e q in
      subst (λ x. Pays x (suc n) c) (sym e) (pay_fruit n c q' small)
  pay_contract_price-Pays contract_id n c (inr e) q le small =
      let q' = subst (λ x. quantity (price x).0 c.inventory ≡ pos n) e q in
      let le' = subst (λ x. (price x).1 ≤ n) e le in
      subst (λ x. Pays x n c) (sym e) (pay_spears n c q' le' small)

  -- A pink mob without a contract, and a client that can pay: the client pays exactly the price and
  -- is sent its inventory; the mob has the contract and the client as its owner, a gatherer starts
  -- with an empty inventory and a guard keeps its own, and all else of the mob is as before.
  pub handle_accept_contract-hires :
      (mob_id contract_id : String) (m : Mob F) (n : ℕ) (s : Server F) (c : Client F)
      → IsContract contract_id
      → lookup mob_id s.mobs ≡ some m
      → m.kind ≡ "pink"
      → m.contract ≡ ""
      → quantity (price contract_id).0 c.inventory ≡ pos n
      → (price contract_id).1 ≤ n
      → n < int_bound
      → (out : Map ℤ) × (handle_accept_contract mob_id contract_id s c ≡ (
        record s {
          mobs =
              insert mob_id
                (record m {
                  contract = contract_id;
                  owner_id = c.id;
                  inventory = if contract_id == "gather4" then [] else m.inventory;
                })
                s.mobs;
        },
        send_inventory (record c { inventory = out }),
      ))
        × Paid contract_id n c out
  unfolding handle_accept_contract try_accept_contract apply_contract
  handle_accept_contract-hires mob_id contract_id m n s c h known pink free q le small =
      let (out, paid, exactly) = pay_contract_price-Pays contract_id n c h q le small in
      (
        out,
        ground (
          arith,
          known,
          eq_iff m.kind "pink",
          eq_iff m.contract "",
          pink,
          free,
          contract_known contract_id h,
          paid,
        ),
        exactly,
      )

  -- A mob that has a contract takes no other, from whomever: nothing changes and nothing is paid.
  pub handle_accept_contract-busy :
      (mob_id contract_id : String) (m : Mob F) (s : Server F) (c : Client F)
      → lookup mob_id s.mobs ≡ some m
      → m.contract ≢ ""
      → handle_accept_contract mob_id contract_id s c ≡ (s, c)
  unfolding handle_accept_contract try_accept_contract
  handle_accept_contract-busy mob_id contract_id m s c known busy =
      ground (arith, known, eq_iff m.contract "")
