-- ===== src/Server/Projectiles.antt =====
-- Spears in flight and what they hit: internal/server/net/mobs_projectiles.go. The drops of a dead
-- mob are in Mobs.antt.
pub mod Hits
use lodeen.Base.{ℕ, suc, ◌*◌, String, Bool, false, List, [], ◌∷◌, Option, none, some, if◌then◌else◌}
use lodeen.Base.Int.{ℤ, pos, int_sub, ltb_ℤ, leb_ℤ}
use lodeen.Base.Map.{Map, lookup, insert, erase, map_values}
use lodeen.Base.Float.{Float, ◌⊕◌, ◌⊗◌, lit, flt, fle}
use lodeen.Protocol.Geometry.{Vector3, dist2}
use lodeen.Protocol.Messages.{Resource}
use lodeen.Server.State.{Client, Server, Mob, Projectile}
use lodeen.Server.Client.{state_of, damage}
use lodeen.Server.Mobs.{Fresh, KillDrop, spawn_drop}
use lodeen.Server.Time.{time_sub, second}

-- `projTTL`
abbrev pub proj_ttl : ℕ
proj_ttl = 3 * second

-- `mobAttackDamage`
abbrev pub mob_attack_damage : ℤ
mob_attack_damage = pos 2

-- What a loop over the spears gives: the spears that fly on, the clients, and the mobs that were
-- hit, in the order of the hits.
pub record Flight (F : Type 0) : Type 0 where
  pub flying : Map (Projectile F)
  pub clients : Map (Client F)
  pub hits : List String

module _ {F : Type 0} where
  unfoldable pub snapshot_mob_positions : Map (Mob F) → Map (Vector3 F)
  snapshot_mob_positions = map_values (λ m. m.at)

  -- One hit of `applyMobHits`; a mob that an earlier hit killed is passed over.
  unfoldable pub apply_mob_hit :
      String → Option (Mob F) → Map (Mob F) → Map (Mob F) × List (KillDrop F)
  apply_mob_hit id none mobs = (mobs, [])
  apply_mob_hit id (some m) mobs =
      let hp = int_sub m.hp mob_attack_damage in
      if leb_ℤ hp (pos 0)
      then (erase id mobs, record { at = m.at; kind = m.kind; mob_inv = m.inventory } ∷ [])
      else (insert id (record m { hp = hp }) mobs, [])

  -- The mobs that are left and the killed ones, first killed first.
  unfoldable pub apply_mob_hits : List String → Map (Mob F) → Map (Mob F) × List (KillDrop F)
  unfolding apply_mob_hit
  apply_mob_hits [] mobs = (mobs, [])
  apply_mob_hits (id ∷ hits) mobs =
      let (mobs', kills) = apply_mob_hit id (lookup id mobs) mobs in
      let (left, later) = apply_mob_hits hits mobs' in
      (left, elim kills [ [] ↦ later | k ∷ _ ↦ k ∷ later ])

module _ {F : Type 0} ⦃fl : Float F⦄ where
  unfoldable pub move_projectile : F → Projectile F → Projectile F
  move_projectile dt p =
      let at : Vector3 F = p.at in
      let dir : Vector3 F = p.dir in
      record p {
        at = record {
          x = at.x ⊕ dir.x ⊗ p.speed ⊗ dt;
          y = at.y ⊕ dir.y ⊗ p.speed ⊗ dt;
          z = at.z ⊕ dir.z ⊗ p.speed ⊗ dt;
        };
      }

  -- `projHitD2` is 2.25. The clients after the damage; `none` is the answer `false`.
  unfoldable pub try_projectile_hit_client :
      ℕ → Projectile F → Option (Client F) → Map (Client F) → Option (Map (Client F))
  try_projectile_hit_client now p none clients = none
  try_projectile_hit_client now p (some c) clients =
      if fle (lit 225 2) (dist2 (state_of c).at p.at)
      then none
      else some (insert p.target_id (damage now mob_attack_damage c) clients)

  unfoldable pub try_projectile_hit_mob : Projectile F → Option (Vector3 F) → Bool
  try_projectile_hit_mob p none = false
  try_projectile_hit_mob p (some at) = flt (dist2 at p.at) (lit 225 2)

  unfoldable pub advance_projectiles :
      ℕ → F → Map (Vector3 F) → Map (Projectile F) → Map (Client F) → Flight F
  unfolding move_projectile try_projectile_hit_client try_projectile_hit_mob
  advance_projectiles now dt mob_pos [] clients = record {
    flying = [];
    clients = clients;
    hits = [];
  }
  advance_projectiles now dt mob_pos ((id, p) ∷ ps) clients =
      let q = move_projectile dt p in
      let rest = advance_projectiles now dt mob_pos ps clients in
      if ltb_ℤ (pos proj_ttl) (time_sub now p.spawn_at)
      then rest
      else elim (try_projectile_hit_client now q (lookup q.target_id clients) clients) [
        | some clients' ↦ advance_projectiles now dt mob_pos ps clients'
        | none ↦
            if try_projectile_hit_mob q (lookup q.target_id mob_pos)
            then record rest { hits = q.target_id ∷ rest.hits }
            else record rest { flying = (id, q) ∷ rest.flying }
      ]

  -- `fresh k` gives the new things of the drop number `k`.
  unfoldable pub spawn_drops :
      (ℕ → ℕ → Fresh F) → ℕ → List (KillDrop F) → Map (Resource F) → Map (Resource F)
  spawn_drops fresh k [] m = m
  spawn_drops fresh k (d ∷ kills) m = spawn_drops fresh (suc k) kills (spawn_drop (fresh k) d m)

  unfoldable pub tick_projectiles : (ℕ → ℕ → Fresh F) → ℕ → F → Server F → Server F
  unfolding snapshot_mob_positions advance_projectiles apply_mob_hits spawn_drops
  tick_projectiles fresh now dt s =
      let flight =
        advance_projectiles now dt (snapshot_mob_positions s.mobs) s.projectiles s.clients in
      let (mobs, kills) = apply_mob_hits flight.hits s.mobs in
      record s {
        projectiles = flight.flying;
        clients = flight.clients;
        mobs = mobs;
        resources = spawn_drops fresh 0 kills s.resources;
      }
