-- ===== src/Server/Projectiles/Hits.antt =====
-- After the spears of a tick every mob that is left is alive, and no player's hit points leave their
-- range.
use lodeen.Base.{
  ℕ, ◌≡◌, refl, String, List, [], ◌∷◌, Option, none, some, arith, inl, inr, Bool-cases,
  Option-cases,
}
use mathlib.Core.Path.{subst}
use lodeen.Base.Int.{pos, ◌≤ℤ◌, ◌<ℤ◌, ◌-ℤ◌, wrap_int, int_sub, leb_ℤ}
use lodeen.Base.Map.{
  Map, lookup, insert, AllValues, insert-AllValues, erase-AllValues, lookup-AllValues,
}
use lodeen.Base.Float.{Float}
use lodeen.Protocol.Geometry.{Vector3}
use lodeen.Server.State.{Client, Server, Mob, Projectile}
use lodeen.Server.Client.{enqueue, damage}
use lodeen.Server.Mobs.{Fresh}
use lodeen.Server.Projectiles.{
  mob_attack_damage, apply_mob_hit, apply_mob_hits, move_projectile, try_projectile_hit_client,
  advance_projectiles, tick_projectiles, snapshot_mob_positions,
}

module _ {F : Type 0} where
  abbrev pub IsAlive : Mob F → Type 0
  IsAlive m = pos 0 <ℤ m.hp

  -- Hit points from 0 to 100.
  abbrev pub HasHitPoints : Client F → Type 0
  HasHitPoints c = (pos 0 ≤ℤ c.hp) × (c.hp ≤ℤ pos 100)

  apply_mob_hit-IsAlive :
      (id : String) (o : Option (Mob F)) (mobs : Map (Mob F))
      → AllValues IsAlive mobs
      → AllValues IsAlive (apply_mob_hit id o mobs).0
  unfolding apply_mob_hit
  apply_mob_hit-IsAlive id none mobs h = h
  apply_mob_hit-IsAlive id (some m) mobs h =
      let hp = int_sub m.hp mob_attack_damage in
      elim (Bool-cases (leb_ℤ hp (pos 0))) [
        | inl dead ↦ rw (dead) (erase-AllValues IsAlive id mobs h)
        | inr alive ↦
            let m' : Mob F = record m { hp = hp } in
            let lives : IsAlive m' = ground (arith, alive) in
            rw (alive) (insert-AllValues IsAlive id m' mobs h lives)
      ]

  apply_mob_hits-IsAlive :
      (hits : List String) (mobs : Map (Mob F))
      → AllValues IsAlive mobs
      → AllValues IsAlive (apply_mob_hits hits mobs).0
  unfolding apply_mob_hits
  apply_mob_hits-IsAlive [] mobs h = h
  apply_mob_hits-IsAlive (id ∷ hits) mobs h =
      apply_mob_hits-IsAlive hits (apply_mob_hit id (lookup id mobs) mobs).0
        (apply_mob_hit-IsAlive id (lookup id mobs) mobs h)

  damage-HasHitPoints :
      (now : ℕ) (c : Client F) → HasHitPoints c → HasHitPoints (damage now mob_attack_damage c)
  unfolding damage enqueue int_sub wrap_int ◌-ℤ◌
  damage-HasHitPoints now c h = ground (arith, h)

module _ {F : Type 0} ⦃fl : Float F⦄ where
  hit_client-HasHitPoints :
      (now : ℕ) (p : Projectile F) (o : Option (Client F)) (clients out : Map (Client F))
      → lookup p.target_id clients ≡ o
      → AllValues HasHitPoints clients
      → try_projectile_hit_client now p o clients ≡ some out
      → AllValues HasHitPoints out
  unfolding try_projectile_hit_client
  hit_client-HasHitPoints now p none clients out k h e = absurd (ground (arith, e))
  hit_client-HasHitPoints now p (some c) clients out k h e =
      let c' = damage now mob_attack_damage c in
      let hurt =
        damage-HasHitPoints now c (lookup-AllValues HasHitPoints p.target_id c clients h k) in
      let same : insert p.target_id c' clients ≡ out = ground (arith, e) in
      subst (AllValues HasHitPoints) same
        (insert-AllValues HasHitPoints p.target_id c' clients h hurt)

  advance_projectiles-HasHitPoints :
      (now : ℕ) (dt : F) (mob_pos : Map (Vector3 F)) (ps : Map (Projectile F))
      (clients : Map (Client F))
      → AllValues HasHitPoints clients
      → AllValues HasHitPoints (advance_projectiles now dt mob_pos ps clients).clients
  unfolding advance_projectiles
  advance_projectiles-HasHitPoints now dt mob_pos [] clients h = h
  advance_projectiles-HasHitPoints now dt mob_pos ((id, p) ∷ ps) clients h =
      let q = move_projectile dt p in
      let rest = advance_projectiles-HasHitPoints now dt mob_pos ps clients h in
      elim (Option-cases (try_projectile_hit_client now q (lookup q.target_id clients) clients)) [
        | inl missed ↦ ground (arith, missed, rest)
        | inr (out, hit) ↦
            let hurt =
              hit_client-HasHitPoints now q (lookup q.target_id clients) clients out refl h hit in
            ground (arith, hit, rest, advance_projectiles-HasHitPoints now dt mob_pos ps out hurt)
      ]

  -- A tick of the spears keeps the hit points of every player from 0 to 100, and every mob that is
  -- left after it is alive, when all were before it.
  pub tick_projectiles-IsAlive :
      (fresh : ℕ → ℕ → Fresh F) (now : ℕ) (dt : F) (s : Server F)
      → AllValues HasHitPoints s.clients
      → AllValues IsAlive s.mobs
      → AllValues HasHitPoints (tick_projectiles fresh now dt s).clients
        × AllValues IsAlive (tick_projectiles fresh now dt s).mobs
  unfolding tick_projectiles
  tick_projectiles-IsAlive fresh now dt s h k =
      let positions = snapshot_mob_positions s.mobs in
      let flight = advance_projectiles now dt positions s.projectiles s.clients in
      (
        advance_projectiles-HasHitPoints now dt positions s.projectiles s.clients h,
        apply_mob_hits-IsAlive flight.hits s.mobs k,
      )
