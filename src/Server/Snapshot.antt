-- ===== src/Server/Snapshot.antt =====
-- What the server tells every client of the world: `collectSnapshot` and the functions collectXxx of
-- internal/server/net/snapshot_collect.go, and `broadcastSnapshot` of snapshot.go.
use lodeen.Base.{List, [], ◌∷◌}
use lodeen.Base.Map.{Map}
use lodeen.Protocol.Messages
use lodeen.Protocol.Messages.{PlayerState, Snapshot, snapshot}
use lodeen.Server.Chat.{broadcast}
use lodeen.Server.Client.{state_of}
use lodeen.Server.State.{
  Client, Server, Mammoth, House, Solar, Battery, Factory, Boat, Rocket, Mob, Projectile,
}

-- A loop that appends one element for each object of a store.
unfoldable pub collect_all : {V W : Type 0} → (V → W) → Map V → List W
collect_all view [] = []
collect_all view ((_, value) ∷ entries) = view value ∷ collect_all view entries

module _ {F : Type 0} where
  unfoldable pub show_player : Client F → PlayerState F
  unfolding state_of
  show_player c = record (state_of c) { hunger = c.hunger }

  unfoldable pub show_projectile : Projectile F → Messages.MobProjectile F
  show_projectile p = record { id = p.id; at = p.at; dir = p.dir }

  unfoldable pub show_mob : Mob F → Messages.Mob F
  show_mob m = record {
    id = m.id;
    at = m.at;
    hp = m.hp;
    kind = m.kind;
    contract = m.contract;
    owner_id = m.owner_id;
  }

  unfoldable pub show_boat : Boat F → Messages.Boat F
  show_boat b = record { id = b.id; at = b.at; yaw = b.yaw; rider_id = b.rider_id }

  unfoldable pub show_house : House F → Messages.House F
  show_house h = record { id = h.id; at = h.at; yaw = h.yaw; door_open = h.door_open }

  unfoldable pub show_solar : Solar F → Messages.Solar F
  show_solar sl = record { id = sl.id; at = sl.at; yaw = sl.yaw }

  unfoldable pub show_battery : Battery F → Messages.Battery F
  show_battery b = record {
    id = b.id;
    at = b.at;
    yaw = b.yaw;
    energy = b.energy;
    max_energy = b.max_energy;
  }

  unfoldable pub show_factory : Factory F → Messages.Factory F
  show_factory f = record {
    id = f.id;
    at = f.at;
    yaw = f.yaw;
    crafting = f.crafting;
    progress = f.progress;
  }

  unfoldable pub show_rocket : Rocket F → Messages.Rocket F
  show_rocket r = record {
    id = r.id;
    at = r.at;
    up = r.up;
    fuel = r.fuel;
    max_fuel = r.max_fuel;
    piloted = r.piloted;
    owner_id = r.owner_id;
    in_orbit = r.in_orbit;
    apoapsis = r.apoapsis;
    periapsis = r.periapsis;
    speed = r.speed;
    altitude = r.altitude;
    target_velocity = r.target_velocity;
    vel = r.vel;
    primary_body = r.primary_body;
    dist_sun = r.dist_sun;
    soi_radius = r.soi_radius;
  }

  unfoldable pub show_mammoth : Mammoth F → Messages.Mammoth F
  show_mammoth m = record {
    id = m.id;
    at = m.at;
    hp = m.hp;
    tamed = m.tamed;
    sex = m.sex;
    fed_count = m.fed_count;
    baby = m.baby;
    leashed_to = m.leashed_to;
    saddle = m.saddle;
    rider_id = m.rider_id;
  }

  unfoldable pub collect_snapshot : Server F → Snapshot F
  unfolding collect_all
  collect_snapshot s = record {
    tick = s.tick;
    players = collect_all show_player s.clients;
    resources = collect_all (λ r. r) s.resources;
    mammoths = collect_all show_mammoth s.mammoths;
    wells = collect_all (λ w. w) s.wells;
    houses = collect_all show_house s.houses;
    boats = collect_all show_boat s.boats;
    mobs = collect_all show_mob s.mobs;
    projectiles = collect_all show_projectile s.projectiles;
    solar = collect_all show_solar s.solar;
    batteries = collect_all show_battery s.batteries;
    factories = collect_all show_factory s.factories;
    rockets = collect_all show_rocket s.rockets;
    earth_pos = s.world.earth_pos;
    earth_vel = s.world.earth_vel;
    planet2_pos = s.world.planet2_pos;
    planet2_vel = s.world.planet2_vel;
  }

  -- The clients' copies in the registry receive the snapshot.
  unfoldable pub broadcast_snapshot : Server F → Server F
  unfolding broadcast collect_snapshot
  broadcast_snapshot s = record s { clients = broadcast (snapshot (collect_snapshot s)) s.clients }
