-- ===== src/Server/Hunger.antt =====
-- Hunger and eating in a tick: `tickHunger` of internal/server/net/server_tick.go.
pub mod Eating
use lodeen.Base.{ℕ, zero, suc, ◌+◌, Option, none, some, if◌then◌else◌}
use lodeen.Base.Int.{pos_part}
use lodeen.Base.Map.{map_values}
use lodeen.Base.Float.{Float, num, flt}
use lodeen.Server.State.{Client, Server}
use lodeen.Server.Client.{quantity, send_inventory, consume_item, add_hunger}

module _ {F : Type 0} where
  -- The portions of food that a client holds.
  unfoldable pub portions : Client F → ℕ
  portions c = pos_part (quantity "fruit" c.inventory) + pos_part (quantity "meat" c.inventory)

module _ {F : Type 0} ⦃fl : Float F⦄ where
  -- One round of the loop: a fruit, or else meat; `none` where there is neither.
  unfoldable pub eat_one : Client F → Option (Client F)
  eat_one c = elim (consume_item "fruit" c) [
    | some d ↦ some (send_inventory (add_hunger (num 20) d))
    | none ↦ elim (consume_item "meat" c) [
      | some d ↦ some (send_inventory (add_hunger (num 30) d))
      | none ↦ none
    ]
  ]

  -- The loop, for at most `n` tests of its guard; `none` where they do not do.
  unfoldable pub auto_eat : ℕ → Client F → Option (Client F)
  unfolding eat_one
  auto_eat zero c = none
  auto_eat (suc n) c =
      if flt c.hunger (num 50)
      then elim (eat_one c) [ none ↦ some c | some d ↦ auto_eat n d ]
      else some c

  -- A client after a tick in which hunger grows by `dec`.
  unfoldable pub starve : F → Client F → Client F
  unfolding auto_eat portions
  starve dec c =
      let d = add_hunger (fl.ops.neg dec) c in
      elim (auto_eat (suc (portions d)) d) [ none ↦ d | some e ↦ e ]

  -- `hungerRate` is 0.333, in float64; `dt` is a float64 too.
  unfoldable pub tick_hunger : fl.Wide → Server F → Server F
  unfolding starve
  tick_hunger dt s = record s {
    clients = map_values (starve (fl.narrow (fl.wide.mul (fl.wide.lit 333 3) dt))) s.clients;
  }
