-- ===== src/Server/Mobs/Pink.antt =====
-- What pink mobs do in a tick, and the turn of every mob: internal/server/net/mobs_pink.go, and
-- `tickMobs` of mobs.go.
pub mod Delivery
use lodeen.Base.{
  ℕ, ◌*◌, String, Bool, [], ◌∷◌, Option, none, some, ◌&&◌, ◌||◌, not, ◌==◌, if◌then◌else◌,
}
use lodeen.Base.Int.{ℤ, pos, int_add, ltb_ℤ, leb_ℤ}
use lodeen.Base.Map.{Map, lookup, insert, erase}
use lodeen.Base.Float.{Float, ◌⊕◌, ◌⊖◌, ◌⊗◌, ◌⊘◌, lit, num, flt, sqrt32}
use lodeen.Protocol.Geometry.{Vector3, clamp_to_surface, dist2}
use lodeen.Protocol.Messages.{Resource}
use lodeen.Server.State.{Client, Server, Mob}
use lodeen.Server.Client.{state_of, send_inventory}
use lodeen.Server.Crafting.{gain}
use lodeen.Server.Nearest.{nearest}
use lodeen.Server.Time.{time_sub, millisecond}
use lodeen.Server.Mobs.Behaviour.{
  move_towards, walk, new_projectile, carry, find_nearest_resource, tick_hostile_mob,
  tick_collector,
}

-- `pinkThrowCooldown`
abbrev pub pink_throw_cooldown : ℕ
pink_throw_cooldown = 1500 * millisecond

-- The sum of the quantities.
unfoldable pub pink_inventory_count : Map ℤ → ℤ → ℤ
pink_inventory_count [] total = total
pink_inventory_count ((_, q) ∷ inv) total = pink_inventory_count inv (int_add total q)

module _ {F : Type 0} where
  unfoldable pub is_threat : Mob F → Mob F → Bool
  is_threat m other =
      not (other.id == m.id)
      && (other.kind == "hostile" || (other.kind == "collector" && other.angered))

  unfoldable pub is_feared : Mob F → Mob F → Bool
  is_feared m other =
      not (other.id == m.id)
      && not (not (other.kind == "hostile") && not (other.kind == "collector"))

module _ {F : Type 0} ⦃fl : Float F⦄ where
  -- `pinkShootRangeD2` is 225.
  unfoldable pub pink_auto_shoot : ℕ → String → Mob F → Server F → Mob F × Server F
  unfolding is_threat
  pink_auto_shoot now pid m s =
      let (found, best_d2) = nearest (is_threat m) (λ (o : Mob F). o.at) m.at (num 225) s.mobs in
      elim found [
        | none ↦ (m, s)
        | some (_, threat) ↦
            let p : Vector3 F = m.at in
            let t : Vector3 F = threat.at in
            let d = sqrt32 best_d2 in
            let dir : Vector3 F = record {
              x = (t.x ⊖ p.x) ⊘ d;
              y = (t.y ⊖ p.y) ⊘ d;
              z = (t.z ⊖ p.z) ⊘ d;
            } in
            if ltb_ℤ (time_sub now m.last_attack_at) (pos pink_throw_cooldown)
            then (m, s)
            else if flt d (lit 1 2)
            then (m, s)
            else (
              record m { last_attack_at = now },
              record s {
                projectiles = insert pid (new_projectile now pid dir threat.id m) s.projectiles;
              },
            )
      ]

  -- `pinkFleeD2` is 225, `pinkPanicD2` is 64, `pinkSpeed` is 6 and half as much again in panic.
  unfoldable pub tick_pink_flee : F → Mob F → Server F → Mob F
  unfolding is_feared
  tick_pink_flee dt m s =
      let (found, best_d2) = nearest (is_feared m) (λ (o : Mob F). o.at) m.at (num 225) s.mobs in
      elim found [
        | none ↦ m
        | some (_, threat) ↦
            let p : Vector3 F = m.at in
            let t : Vector3 F = threat.at in
            let d = sqrt32 (dist2 p t) in
            let speed : F = if flt best_d2 (num 64) then num 6 ⊗ lit 15 1 else num 6 in
            if flt d (lit 1 2) then m else record m {
              at = clamp_to_surface (record {
                x = p.x ⊕ (p.x ⊖ t.x) ⊘ d ⊗ speed ⊗ dt;
                y = p.y ⊕ (p.y ⊖ t.y) ⊘ d ⊗ speed ⊗ dt;
                z = p.z ⊕ (p.z ⊖ t.z) ⊘ d ⊗ speed ⊗ dt;
              });
            }
      ]

  -- Here the kind is that of the resource that lies there.
  unfoldable pub pink_pick_up_resource :
      String → Option (Resource F) → Mob F → Server F → Mob F × Server F
  pink_pick_up_resource id none m s = (m, s)
  pink_pick_up_resource id (some r) m s =
      (carry r.kind m, record s { resources = erase id s.resources })

  -- `pinkPickD2` is 6.25.
  unfoldable pub pink_gather_pick : F → Mob F → Server F → Mob F × Server F
  unfolding pink_pick_up_resource
  pink_gather_pick dt m s =
      let (found, best_d2) = find_nearest_resource m.at s.resources in
      elim found [
        | none ↦ (m, s)
        | some (_, r) ↦
            if flt best_d2 (lit 625 2)
            then pink_pick_up_resource r.id (lookup r.id s.resources) m s
            else (move_towards r.at (num 6 ⊗ dt) m, s)
      ]

  -- `pinkDeliverD2` is 16; `none` is the answer `false`.
  unfoldable pub pink_deliver : Option (Client F) → Mob F → Server F → Option (Mob F × Server F)
  pink_deliver none m s = none
  pink_deliver (some owner) m s =
      if flt (num 16) (dist2 (state_of owner).at m.at)
      then none
      else some (
        record m { inventory = []; contract = ""; owner_id = "" },
        record s {
          clients =
              insert m.owner_id
                (send_inventory (record owner { inventory = gain m.inventory owner.inventory }))
                s.clients;
        },
      )

  unfoldable pub pink_gather_deliver : F → Mob F → Server F → Mob F × Server F
  unfolding pink_deliver
  pink_gather_deliver dt m s =
      let owner = lookup m.owner_id s.clients in
      elim (pink_deliver owner m s) [
        | some done ↦ done
        | none ↦ elim owner [
          | none ↦ (m, s)
          | some c ↦ (move_towards (state_of c).at (num 6 ⊗ dt) m, s)
        ]
      ]

  -- `pinkGatherTarget` is 4.
  unfoldable pub tick_pink_gather : F → Mob F → Server F → Mob F × Server F
  unfolding pink_gather_deliver pink_gather_pick pink_inventory_count
  tick_pink_gather dt m s =
      if leb_ℤ (pos 4) (pink_inventory_count m.inventory (pos 0))
      then pink_gather_deliver dt m s
      else pink_gather_pick dt m s

  -- `pinkGuardRangeD2` is 144, `pinkGuardCloseD2` is 25.
  unfoldable pub tick_pink_guard : F → Option (Client F) → Mob F → Server F → Mob F
  tick_pink_guard dt none m s = record m { contract = ""; owner_id = "" }
  tick_pink_guard dt (some owner) m s =
      let red =
        (nearest (λ (o : Mob F). o.kind == "hostile") (λ o. o.at) m.at (num 144) s.mobs).0 in
      let there : Vector3 F = (state_of owner).at in
      let d2 = dist2 there m.at in
      let d = sqrt32 d2 in
      elim red [
        | some _ ↦ m
        | none ↦
            if flt d2 (num 25) then m else if flt d (lit 1 2) then m else walk there d (num 6) dt m
      ]

  unfoldable pub tick_pink : ℕ → String → F → Mob F → Server F → Mob F × Server F
  unfolding pink_auto_shoot tick_pink_gather tick_pink_guard tick_pink_flee
  tick_pink now pid dt m s =
      let (m', s') = pink_auto_shoot now pid m s in
      if m'.contract == "gather4"
      then tick_pink_gather dt m' s'
      else if m'.contract == "guard"
      then (tick_pink_guard dt (lookup m'.owner_id s'.clients) m' s', s')
      else (tick_pink_flee dt m' s', s')

  unfoldable pub tick_mob : ℕ → String → F → Mob F → Server F → Mob F × Server F
  unfolding tick_pink
  tick_mob now pid dt m s =
      if m.kind == "pink"
      then tick_pink now pid dt m s
      else if m.kind == "collector" && not m.angered
      then tick_collector dt m s
      else if m.kind == "hostile" || m.angered
      then tick_hostile_mob now pid dt m s
      else (m, s)

  -- The turn of the mob with this key, which is written back.
  unfoldable pub tick_entry : ℕ → String → F → String → Option (Mob F) → Server F → Server F
  unfolding tick_mob
  tick_entry now pid dt k none s = s
  tick_entry now pid dt k (some m) s =
      let (m', s') = tick_mob now pid dt m s in record s' { mobs = insert k m' s'.mobs }

  -- The loop over the mobs; `pids` gives the new identifier in each turn.
  unfoldable pub tick_all : ℕ → (String → String) → F → Map (Mob F) → Server F → Server F
  unfolding tick_entry
  tick_all now pids dt [] s = s
  tick_all now pids dt ((k, _) ∷ todo) s =
      tick_all now pids dt todo (tick_entry now (pids k) dt k (lookup k s.mobs) s)

  unfoldable pub tick_mobs : ℕ → (String → String) → F → Server F → Server F
  unfolding tick_all
  tick_mobs now pids dt s = tick_all now pids dt s.mobs s
