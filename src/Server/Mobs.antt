-- ===== src/Server/Mobs.antt =====
-- Contracts with mobs, hits on mobs, and what a dead mob leaves: internal/server/net/
-- mobs_handlers.go, and `spawnDrops` of mobs_projectiles.go.
pub mod Contracts
pub mod Drops
pub mod Behaviour
pub mod Pink
use lodeen.Base.{
  ℕ, zero, suc, ◌+◌, String, true, [], ◌∷◌, Option, none, some, ◌&&◌, not, ◌==◌, if◌then◌else◌,
}
use lodeen.Base.Int.{ℤ, pos, pos_part, int_sub, ltb_ℤ, leb_ℤ}
use lodeen.Base.Map.{Map, lookup, insert, erase}
use lodeen.Base.Float.{Float, ◌⊕◌, ◌⊗◌, lit, num}
use lodeen.Protocol.Geometry.{Vector3, clamp_to_surface, is_beyond}
use lodeen.Protocol.Messages.{Resource}
use lodeen.Server.State.{Client, Server, Mob}
use lodeen.Server.Client.{quantity, state_of, send_inventory, consume_item}
use lodeen.Server.Farm.{lying}

-- A new identifier and the two random numbers of `scatteredAround`, from 0 to 1.
pub record Fresh (F : Type 0) : Type 0 where
  pub id : String
  pub angle : F
  pub radius : F

-- A killed mob.
pub record KillDrop (F : Type 0) : Type 0 where
  pub at : Vector3 F
  pub kind : String
  pub mob_inv : Map ℤ

module _ {F : Type 0} where
  -- `payContractPrice`: a fruit or ten spears.
  unfoldable pub pay_contract_price : String → Client F → Option (Client F)
  pay_contract_price contract_id c =
      if contract_id == "gather4"
      then consume_item "fruit" c
      else if contract_id == "guard"
      then if ltb_ℤ (quantity "spear" c.inventory) (pos 10)
        then none
        else some (record c {
          inventory = insert "spear" (int_sub (quantity "spear" c.inventory) (pos 10)) c.inventory;
        })
      else some c

  -- A gatherer starts with nothing.
  unfoldable pub apply_contract : String → String → Mob F → Mob F
  apply_contract owner_id contract_id m = record m {
    contract = contract_id;
    owner_id = owner_id;
    inventory = if contract_id == "gather4" then [] else m.inventory;
  }

  -- `none` is the answer `false`.
  unfoldable pub try_accept_contract :
      String → String → Option (Mob F) → Server F → Client F → Option (Server F × Client F)
  unfolding pay_contract_price apply_contract
  try_accept_contract mob_id contract_id none s c = none
  try_accept_contract mob_id contract_id (some m) s c =
      if not (m.kind == "pink")
      then none
      else if not (m.contract == "")
      then none
      else if not (contract_id == "gather4") && not (contract_id == "guard")
      then none
      else elim (pay_contract_price contract_id c) [
        | none ↦ none
        | some d ↦
            some (record s { mobs = insert mob_id (apply_contract c.id contract_id m) s.mobs }, d)
      ]

  unfoldable pub handle_accept_contract :
      String → String → Server F → Client F → Server F × Client F
  unfolding try_accept_contract
  handle_accept_contract mob_id contract_id s c =
      elim (try_accept_contract mob_id contract_id (lookup mob_id s.mobs) s c) [
        | none ↦ (s, c)
        | some (s', d) ↦ (s', send_inventory d)
      ]

module _ {F : Type 0} ⦃fl : Float F⦄ where
  -- A point on the surface within `r` of `base`; the angle is a random number times 2 pi.
  unfoldable pub scattered_around : Vector3 F → F → F → F → Vector3 F
  scattered_around base r u v =
      let theta = u ⊗ num 2 ⊗ lit 3141592653589793 15 in
      let rr = v ⊗ r in
      let dx = fl.narrow (fl.wide.cos (fl.widen theta)) ⊗ rr in
      let dz = fl.narrow (fl.wide.sin (fl.widen theta)) ⊗ rr in
      clamp_to_surface (record base { x = base.x ⊕ dx; z = base.z ⊕ dz })

  -- The loop that lets `n` items of a kind fall; `fresh i` is the next new one.
  unfoldable pub spawn_items :
      (ℕ → Fresh F) → String → Vector3 F → F → ℕ → ℕ → Map (Resource F) → Map (Resource F)
  unfolding scattered_around lying
  spawn_items fresh kind p r zero i m = m
  spawn_items fresh kind p r (suc n) i m =
      let f = fresh i in
      spawn_items fresh kind p r n (i + 1)
        (insert f.id (lying f.id kind (scattered_around p r f.angle f.radius)) m)

  -- Ten spears within 2.
  unfoldable pub spawn_hostile_drop :
      (ℕ → Fresh F) → Vector3 F → Map (Resource F) → Map (Resource F)
  unfolding spawn_items
  spawn_hostile_drop fresh p m = spawn_items fresh "spear" p (num 2) 10 0 m

  -- All that the mob carried, within 2.5.
  unfoldable pub spawn_collector_drop :
      (ℕ → Fresh F) → Vector3 F → Map ℤ → ℕ → Map (Resource F) → Map (Resource F)
  unfolding spawn_items
  spawn_collector_drop fresh p [] i m = m
  spawn_collector_drop fresh p ((kind, n) ∷ mob_inv) i m =
      spawn_collector_drop fresh p mob_inv (i + pos_part n)
        (spawn_items fresh kind p (lit 25 1) (pos_part n) i m)

  -- One turn of the loop of `spawnDrops`; other kinds leave nothing.
  unfoldable pub spawn_drop : (ℕ → Fresh F) → KillDrop F → Map (Resource F) → Map (Resource F)
  unfolding spawn_hostile_drop spawn_collector_drop
  spawn_drop fresh k m =
      if k.kind == "hostile"
      then spawn_hostile_drop fresh k.at m
      else if k.kind == "collector"
      then spawn_collector_drop fresh k.at k.mob_inv 0 m
      else m

  -- A hit costs a spear; a collector that is hit is angry from then on.
  unfoldable pub apply_hit_mob :
      (ℕ → Fresh F) → String → Option (Mob F) → Server F → Client F → Server F × Client F
  unfolding spawn_drop
  apply_hit_mob fresh mob_id none s c = (s, c)
  apply_hit_mob fresh mob_id (some m) s c =
      if is_beyond m.at (state_of c).at 10000 then (s, c) else elim (consume_item "spear" c) [
        | none ↦ (s, c)
        | some d ↦
            let hp = int_sub m.hp (pos 1) in
            let hurt : Mob F = record m {
              hp = hp;
              angered = if m.kind == "collector" then true else m.angered;
            } in
            let drop : KillDrop F = record { at = m.at; kind = m.kind; mob_inv = m.inventory } in
            if leb_ℤ hp (pos 0)
            then (
              record s {
                mobs = erase mob_id s.mobs;
                resources = spawn_drop fresh drop s.resources;
              },
              send_inventory d,
            )
            else (record s { mobs = insert mob_id hurt s.mobs }, send_inventory d)
      ]

  unfoldable pub handle_hit_mob : (ℕ → Fresh F) → String → Server F → Client F → Server F × Client F
  unfolding apply_hit_mob
  handle_hit_mob fresh mob_id s c = apply_hit_mob fresh mob_id (lookup mob_id s.mobs) s c
