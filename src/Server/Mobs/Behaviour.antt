-- ===== src/Server/Mobs/Behaviour.antt =====
-- What hostile and collecting mobs do in a tick: internal/server/net/mobs.go and mobs_collector.go.
-- A mob is passed beside the server and written back at the end of its turn; in between the loops
-- over the mobs pass it over, so that its old entry is not read.
use lodeen.Base.{ℕ, ◌*◌, String, true, Option, none, some, if◌then◌else◌}
use lodeen.Base.Int.{pos, int_add, leb_ℤ}
use lodeen.Base.Map.{Map, lookup, insert, erase}
use lodeen.Base.Float.{Float, ◌⊕◌, ◌⊖◌, ◌⊗◌, ◌⊘◌, lit, num, flt, sqrt32}
use lodeen.Protocol.Geometry.{Vector3, clamp_to_surface, dist2}
use lodeen.Protocol.Messages.{Resource}
use lodeen.Server.State.{Client, Server, Mob, Projectile}
use lodeen.Server.Client.{quantity, state_of}
use lodeen.Server.Nearest.{nearest}
use lodeen.Server.Time.{time_sub, millisecond}

-- `mobAttackCooldown`
abbrev pub mob_attack_cooldown : ℕ
mob_attack_cooldown = 1500 * millisecond

module _ {F : Type 0} ⦃fl : Float F⦄ where
  -- A step of `dist` along the direction.
  unfoldable pub move_by_dir : F → F → F → F → Mob F → Mob F
  move_by_dir ux uy uz dist m =
      let p : Vector3 F = m.at in
      record m {
        at =
            clamp_to_surface
              (record { x = p.x ⊕ ux ⊗ dist; y = p.y ⊕ uy ⊗ dist; z = p.z ⊕ uz ⊗ dist });
      }

  unfoldable pub move_towards : Vector3 F → F → Mob F → Mob F
  unfolding move_by_dir
  move_towards target dist m =
      let p : Vector3 F = m.at in
      let d = sqrt32 (dist2 target p) in
      if flt d (lit 1 2)
      then m
      else move_by_dir ((target.x ⊖ p.x) ⊘ d) ((target.y ⊖ p.y) ⊘ d) ((target.z ⊖ p.z) ⊘ d) dist m

  -- A step of `speed * dt` towards a point at the distance `d`; the products are taken in the order
  -- of the source, `(dx / d) * speed * dt`.
  unfoldable pub walk : Vector3 F → F → F → F → Mob F → Mob F
  walk target d speed dt m =
      let p : Vector3 F = m.at in
      record m {
        at = clamp_to_surface (record {
          x = p.x ⊕ (target.x ⊖ p.x) ⊘ d ⊗ speed ⊗ dt;
          y = p.y ⊕ (target.y ⊖ p.y) ⊘ d ⊗ speed ⊗ dt;
          z = p.z ⊕ (target.z ⊖ p.z) ⊘ d ⊗ speed ⊗ dt;
        });
      }

  -- A spear from the mob along a direction; `pid` is the new identifier.
  unfoldable pub new_projectile : ℕ → String → Vector3 F → String → Mob F → Projectile F
  new_projectile now pid dir target_id m = record {
    id = pid;
    at = m.at;
    dir = dir;
    speed = num 12;
    owner_mob_id = m.id;
    target_id = target_id;
    spawn_at = now;
  }

  -- Too near: back off; too far: come closer; between: throw, but not before the cooldown ends.
  unfoldable pub face_player : ℕ → String → F → Client F → F → Mob F → Server F → Mob F × Server F
  unfolding move_by_dir new_projectile
  face_player now pid dt c min_d2 m s =
      let p : Vector3 F = m.at in
      let there : Vector3 F = (state_of c).at in
      let d = sqrt32 (dist2 there p) in
      let ux = (there.x ⊖ p.x) ⊘ d in
      let uy = (there.y ⊖ p.y) ⊘ d in
      let uz = (there.z ⊖ p.z) ⊘ d in
      if flt d (lit 1 2)
      then (m, s)
      else if flt min_d2 (num 36)
      then (move_by_dir (fl.ops.neg ux) (fl.ops.neg uy) (fl.ops.neg uz) (num 5 ⊗ dt) m, s)
      else if flt (num 144) min_d2
      then (move_by_dir ux uy uz (num 5 ⊗ dt) m, s)
      else if leb_ℤ (pos mob_attack_cooldown) (time_sub now m.last_attack_at)
      then (
        record m { last_attack_at = now },
        record s {
          projectiles =
              insert pid (new_projectile now pid (record { x = ux; y = uy; z = uz }) c.id m)
                s.projectiles;
        },
      )
      else (m, s)

  -- `mobAggroD2` is 625.
  unfoldable pub tick_hostile_mob : ℕ → String → F → Mob F → Server F → Mob F × Server F
  unfolding face_player
  tick_hostile_mob now pid dt m s =
      let (found, min_d2) =
        nearest (λ _. true) (λ (c : Client F). (state_of c).at) m.at (num 625) s.clients in
      elim found [ none ↦ (m, s) | some (_, c) ↦ face_player now pid dt c min_d2 m s ]

  unfoldable pub carry : String → Mob F → Mob F
  carry kind m = record m {
    inventory = insert kind (int_add (quantity kind m.inventory) (pos 1)) m.inventory;
  }

  -- The resource is taken if it still lies there.
  unfoldable pub collect : Resource F → Option (Resource F) → Mob F → Server F → Mob F × Server F
  unfolding carry
  collect r none m s = (m, s)
  collect r (some _) m s = (carry r.kind m, record s { resources = erase r.id s.resources })

  -- The resource nearest to a point, within 40: `collectorSearchD2` and `pinkSearchD2` are 1600.
  unfoldable pub find_nearest_resource :
      Vector3 F → Map (Resource F) → Option (String × Resource F) × F
  find_nearest_resource here m = nearest (λ _. true) (λ (r : Resource F). r.at) here (num 1600) m

  -- `collectorPickD2` is 6.25, `collectorSpeed` is 4.
  unfoldable pub tick_collector : F → Mob F → Server F → Mob F × Server F
  unfolding collect walk find_nearest_resource
  tick_collector dt m s =
      let (found, best_d2) = find_nearest_resource m.at s.resources in
      elim found [
        | none ↦ (m, s)
        | some (_, r) ↦
            let d = sqrt32 (dist2 r.at m.at) in
            if flt best_d2 (lit 625 2)
            then collect r (lookup r.id s.resources) m s
            else if flt d (lit 1 2)
            then (m, s)
            else (walk r.at d (num 4) dt m, s)
      ]
