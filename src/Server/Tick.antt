-- ===== src/Server/Tick.antt =====
-- The order of a tick: one turn of the loop `tickLoop` in internal/server/net/server_tick.go, up to
-- the snapshot (Server/Snapshot). The pauses between ticks are not modelled.
use lodeen.Base.{ℕ, suc, String, Bool}
use lodeen.Base.Float.{Float}
use lodeen.Server.State.{Server}
use lodeen.Server.Boats.{tick_boats}
use lodeen.Server.Energy.{tick_energy}
use lodeen.Server.Farm.{tick_resources}
use lodeen.Server.Hunger.{tick_hunger}
use lodeen.Server.Mammoths.Breeding.{tick_breeding}
use lodeen.Server.Mammoths.Moving.{tick_mammoths}
use lodeen.Server.Mobs.{Fresh}
use lodeen.Server.Mobs.Pink.{tick_mobs}
use lodeen.Server.Projectiles.{tick_projectiles}
use lodeen.Server.Rockets.Flight.{tick_rockets}
use lodeen.Server.World.{tick_world}

-- What a tick takes from outside: the clock in the phases that read it, the new identifiers and the
-- random numbers.
pub record TickInputs (F : Type 0) : Type 0 where
  pub mobs_now : ℕ
  pub mobs_pids : String → String
  pub projectiles_now : ℕ
  pub drops : ℕ → ℕ → Fresh F
  pub breeding_now : ℕ
  pub baby_id : String
  pub girl : Bool
  pub resources_now : ℕ
  pub fruit_ids : String → String × String
  pub rockets_now : ℕ

module _ {F : Type 0} ⦃fl : Float F⦄ where
  -- `dt` is `dtF`, the float32 of one second divided by the tick rate.
  unfoldable pub tick_server : F → TickInputs F → Server F → Server F
  tick_server dt inputs s =
      let s0 : Server F = record s { tick = suc s.tick } in
      let s1 = tick_boats (tick_mammoths dt (tick_hunger (fl.widen dt) s0)) in
      let s2 = tick_mobs inputs.mobs_now inputs.mobs_pids dt s1 in
      let s3 = tick_projectiles inputs.drops inputs.projectiles_now dt s2 in
      let s4 = tick_breeding inputs.breeding_now inputs.baby_id inputs.girl s3 in
      let s5 = tick_energy dt (tick_resources inputs.resources_now inputs.fruit_ids s4) in
      let s6 : Server F = record s5 { world = tick_world dt s5.world } in
      tick_rockets inputs.rockets_now dt s6
