-- ===== src/Server/Spawn.antt =====
-- How a server begins: `New` of internal/server/net/server.go with `spawnResources` of farm.go,
-- `spawnMammoths` of mammoths.go, `spawnWells` of wells.go and `spawnMobs` of mobs.go. The random
-- bytes and the new identifiers are arguments.
use lodeen.Base.Float.{Float, Ops}
use lodeen.Base.Int.{ℤ, pos}
use lodeen.Base.Map.{Map, insert, IsMap, AllValues, insert-AllValues, insert-IsMap}
use lodeen.Base.{ℕ, zero, suc, ◌+◌, ◌-◌, ◌%◌, ◌^◌, String, false, [], arith, eqb, if◌then◌else◌}
use lodeen.Protocol.Geometry.{Vector3, clamp_to_surface, planet_radius}
use lodeen.Protocol.Messages.{Resource, Well}
use lodeen.Server.Projectiles.Hits.{IsAlive}
use lodeen.Server.State.{Mammoth, Mob, Server}
use lodeen.Server.World.{new_world_state}

-- A new identifier, and the two words of 64 bits that sixteen random bytes make.
pub record Chance : Type 0 where
  pub id : String
  pub first : ℕ
  pub second : ℕ

-- `resourceTypes[i%len(resourceTypes)]`
unfoldable pub resource_type : ℕ → String
resource_type i =
    let k = i % 10 in
    if eqb k 0
    then "stone"
    else if eqb k 1
    then "wood"
    else if eqb k 2
    then "ore"
    else if eqb k 8
    then "water"
    else if eqb k 9
    then "liana"
    else "fruit"

-- The kind of the mob with the number `i`, and its hit points.
unfoldable pub mob_kind : ℕ → String
mob_kind i = if eqb (i % 3) 1 then "collector" else if eqb (i % 3) 2 then "pink" else "hostile"

unfoldable pub mob_hp : ℕ → ℤ
mob_hp i = if eqb (i % 3) 0 then pos 1 else pos 10

module _ {V : Type 0} where
  -- `for i := 0; i < n; i++`, with `left` turns to go: what is made goes under its identifier.
  unfoldable pub spawn_each : (ℕ → Chance) → (ℕ → Chance → V) → ℕ → ℕ → Map V → Map V
  spawn_each chances make zero i m = m
  spawn_each chances make (suc left) i m =
      let c = chances i in spawn_each chances make left (i + 1) (insert c.id (make i c) m)

  pub spawn_each-AllValues :
      (P : V → Type 0) (chances : ℕ → Chance) (make : ℕ → Chance → V) (left i : ℕ) (m : Map V)
      → ((j : ℕ) (c : Chance) → P (make j c))
      → AllValues P m
      → AllValues P (spawn_each chances make left i m)
  unfolding spawn_each
  spawn_each-AllValues P chances make zero i m good h = h
  spawn_each-AllValues P chances make (suc left) i m good h =
      spawn_each-AllValues P chances make left (i + 1) _ good
        (insert-AllValues P (chances i).id _ m h (good i (chances i)))

  pub spawn_each-IsMap :
      (chances : ℕ → Chance) (make : ℕ → Chance → V) (left i : ℕ) (m : Map V)
      → IsMap m
      → IsMap (spawn_each chances make left i m)
  unfolding spawn_each
  spawn_each-IsMap chances make zero i m h = h
  spawn_each-IsMap chances make (suc left) i m h =
      spawn_each-IsMap chances make left (i + 1) _
        (insert-IsMap (chances i).id (make i (chances i)) m h)

-- `float64(word) / float64(^uint64(0))`, as float64.
unfoldable pub share_of : {W : Type 0} → Ops W → ℕ → W
share_of w word = w.div (w.lit word 0) (w.lit (2 ^ 64 - 1) 0)

-- The two angles: `2 * math.Pi * u` and `math.Acos(2*v - 1)`.
unfoldable pub theta_of : {W : Type 0} → Ops W → Chance → W
unfolding share_of
theta_of w c = w.mul (w.lit 6283185307179586477 18) (share_of w c.first)

unfoldable pub phi_of : {W : Type 0} → Ops W → Chance → W
unfolding share_of
phi_of w c = w.acos (w.sub (w.mul (w.lit 2 0) (share_of w c.second)) (w.lit 1 0))

module _ {F : Type 0} ⦃fl : Float F⦄ where
  -- A random direction, at the surface.
  unfoldable pub random_place : Chance → Vector3 F
  unfolding theta_of phi_of
  random_place c =
      let w = fl.wide in
      let theta = theta_of w c in
      let phi = phi_of w c in
      clamp_to_surface (record {
        x = fl.narrow (w.mul (w.sin phi) (w.cos theta));
        y = fl.narrow (w.cos phi);
        z = fl.narrow (w.mul (w.sin phi) (w.sin theta));
      })

  -- A random place 2 above the planet's radius.
  unfoldable pub mammoth_place : Chance → Vector3 F
  unfolding theta_of phi_of
  mammoth_place c =
      let w = fl.wide in
      let theta = theta_of w c in
      let phi = phi_of w c in
      let r = w.add (fl.widen planet_radius) (w.lit 2 0) in
      record {
        x = fl.narrow (w.mul (w.mul (w.sin phi) (w.cos theta)) r);
        y = fl.narrow (w.mul (w.cos phi) r);
        z = fl.narrow (w.mul (w.mul (w.sin phi) (w.sin theta)) r);
      }

  unfoldable pub new_resource : ℕ → Chance → Resource F
  unfolding random_place
  new_resource i c = record {
    id = c.id;
    kind = resource_type i;
    at = random_place c;
    watered = false;
    grow_at = 0;
  }

  unfoldable pub new_mammoth : ℕ → Chance → Mammoth F
  unfolding mammoth_place
  new_mammoth i c = record {
    id = c.id;
    at = mammoth_place c;
    hp = pos 1;
    tamed = false;
    sex = (if eqb (i % 2) 1 then "f" else "m");
    fed_count = pos 0;
    baby = false;
    leashed_to = "";
    saddle = false;
    rider_id = "";
    mate_id = "";
    together_since = 0;
    born_at = 0;
  }

  unfoldable pub new_well : ℕ → Chance → Well F
  unfolding random_place
  new_well i c = record { id = c.id; at = random_place c }

  unfoldable pub new_mob : ℕ → Chance → Mob F
  unfolding random_place mob_kind mob_hp
  new_mob i c = record {
    id = c.id;
    at = random_place c;
    hp = mob_hp i;
    max_hp = mob_hp i;
    kind = mob_kind i;
    last_attack_at = 0;
    angered = false;
    inventory = [];
    contract = "";
    owner_id = "";
    delivered_at = 0;
  }

  -- `New`, with the chances of resources, mammoths, wells and mobs.
  unfoldable pub new_server :
      ℤ → (ℕ → Chance) → (ℕ → Chance) → (ℕ → Chance) → (ℕ → Chance) → Server F
  unfolding spawn_each new_resource new_mammoth new_well new_mob new_world_state
  new_server tick_rate resources mammoths wells mobs = record {
    tick_rate = tick_rate;
    clients = [];
    resources = spawn_each resources new_resource 40 0 [];
    mammoths = spawn_each mammoths new_mammoth 5 0 [];
    wells = spawn_each wells new_well 6 0 [];
    houses = [];
    solar = [];
    batteries = [];
    factories = [];
    rockets = [];
    boats = [];
    mobs = spawn_each mobs new_mob 5 0 [];
    projectiles = [];
    tick = 0;
    world = new_world_state;
  }

module _ (F : Type 0) ⦃fl : Float F⦄ where
  new_mob-IsAlive : (i : ℕ) (c : Chance) → IsAlive (new_mob {F = F} i c)
  unfolding new_mob mob_hp
  new_mob-IsAlive i c = ground arith

  -- A new server has mobs that are all alive, and no identifier stands twice among its resources,
  -- mammoths, wells or mobs, whatever the random bytes and even if identifiers repeat.
  pub new_server-IsAlive :
      (tick_rate : ℤ) (resources mammoths wells mobs : ℕ → Chance)
      → AllValues IsAlive (new_server {F = F} tick_rate resources mammoths wells mobs).mobs
        × IsMap (new_server {F = F} tick_rate resources mammoths wells mobs).resources
        × IsMap (new_server {F = F} tick_rate resources mammoths wells mobs).mammoths
        × IsMap (new_server {F = F} tick_rate resources mammoths wells mobs).wells
        × IsMap (new_server {F = F} tick_rate resources mammoths wells mobs).mobs
  unfolding new_server
  new_server-IsAlive tick_rate resources mammoths wells mobs = (
    spawn_each-AllValues IsAlive mobs new_mob 5 0 [] new_mob-IsAlive tt,
    spawn_each-IsMap resources new_resource 40 0 [] tt,
    spawn_each-IsMap mammoths new_mammoth 5 0 [] tt,
    spawn_each-IsMap wells new_well 6 0 [] tt,
    spawn_each-IsMap mobs new_mob 5 0 [] tt,
  )
