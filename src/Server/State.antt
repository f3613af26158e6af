-- ===== src/Server/State.antt =====
-- The state of the server: the structs of internal/server/net (server.go, player.go, world.go,
-- mammoths.go, energy.go, houses.go, boats.go, rockets.go, mobs.go, projectiles.go). A store of
-- pointers is a map of values: an object is written back under its key.
use lodeen.Base.{ℕ, String, Bool, false, List, []}
use lodeen.Base.Int.{ℤ, pos}
use lodeen.Base.Map.{Map}
use lodeen.Base.Float.{Float, num}
use lodeen.Protocol.Geometry.{Vector3, origin}
use lodeen.Protocol.Messages.{PlayerState, Resource, Well, Message}

-- `send` is the buffered channel, oldest message first; `closed` is whether `done` is closed.
pub record Client (F : Type 0) : Type 0 where
  pub id : String
  pub nick : String
  pub send : List (Message F)
  pub closed : Bool
  pub state : PlayerState F
  pub inventory : Map ℤ
  pub hunger : F
  pub hp : ℤ
  pub last_throw_at : ℕ
  pub last_hit_at : ℕ
  pub held_item : String
  pub color_hex : List ℕ
  pub infinite_fuel : Bool

pub record Mammoth (F : Type 0) : Type 0 where
  pub id : String
  pub at : Vector3 F
  pub hp : ℤ
  pub tamed : Bool
  pub sex : String
  pub fed_count : ℤ
  pub baby : Bool
  pub leashed_to : String
  pub saddle : Bool
  pub rider_id : String
  pub mate_id : String
  pub together_since : ℕ
  pub born_at : ℕ

pub record House (F : Type 0) : Type 0 where
  pub id : String
  pub at : Vector3 F
  pub yaw : F
  pub door_open : Bool

pub record Solar (F : Type 0) : Type 0 where
  pub id : String
  pub at : Vector3 F
  pub yaw : F

pub record Battery (F : Type 0) : Type 0 where
  pub id : String
  pub at : Vector3 F
  pub yaw : F
  pub energy : ℤ
  pub max_energy : ℤ

pub record Factory (F : Type 0) : Type 0 where
  pub id : String
  pub at : Vector3 F
  pub yaw : F
  pub crafting : String
  pub progress : ℤ

pub record Boat (F : Type 0) : Type 0 where
  pub id : String
  pub at : Vector3 F
  pub yaw : F
  pub rider_id : String

pub record Rocket (F : Type 0) : Type 0 where
  pub id : String
  pub at : Vector3 F
  pub vel : Vector3 F
  pub up : Vector3 F
  pub yaw : F
  pub fuel : ℤ
  pub max_fuel : ℤ
  pub piloted : Bool
  pub owner_id : String
  pub in_orbit : Bool
  pub thrust : F
  pub last_log_at : ℕ
  pub fuel_accum : F
  pub target_up : Vector3 F
  pub apoapsis : F
  pub periapsis : F
  pub speed : F
  pub altitude : F
  pub target_velocity : F
  pub infinite_fuel : Bool
  pub auto_pilot : String
  pub primary_body : String
  pub dist_sun : F
  pub soi_radius : F
  pub local_pos : Vector3 F

pub record Mob (F : Type 0) : Type 0 where
  pub id : String
  pub at : Vector3 F
  pub hp : ℤ
  pub max_hp : ℤ
  pub kind : String
  pub last_attack_at : ℕ
  pub angered : Bool
  pub inventory : Map ℤ
  pub contract : String
  pub owner_id : String
  pub delivered_at : ℕ

pub record Projectile (F : Type 0) : Type 0 where
  pub id : String
  pub at : Vector3 F
  pub dir : Vector3 F
  pub speed : F
  pub owner_mob_id : String
  pub target_id : String
  pub spawn_at : ℕ

pub record WorldState (F : Type 0) : Type 0 where
  pub earth_pos : Vector3 F
  pub earth_vel : Vector3 F
  pub planet2_pos : Vector3 F
  pub planet2_vel : Vector3 F

-- Without the address, the log, the metrics, the listener and the locks.
pub record Server (F : Type 0) : Type 0 where
  pub tick_rate : ℤ
  pub clients : Map (Client F)
  pub resources : Map (Resource F)
  pub mammoths : Map (Mammoth F)
  pub wells : Map (Well F)
  pub houses : Map (House F)
  pub solar : Map (Solar F)
  pub batteries : Map (Battery F)
  pub factories : Map (Factory F)
  pub rockets : Map (Rocket F)
  pub boats : Map (Boat F)
  pub mobs : Map (Mob F)
  pub projectiles : Map (Projectile F)
  pub tick : ℕ
  pub world : WorldState F

module _ {F : Type 0} ⦃fl : Float F⦄ where
  -- The zero value of `protocol.PlayerState` with an identifier and a name.
  unfoldable pub fresh_state : String → String → Vector3 F → PlayerState F
  fresh_state id nick p = record {
    id = id;
    nick = nick;
    at = p;
    yaw = num 0;
    pitch = num 0;
    hunger = num 0;
    hp = pos 0;
    rtt_ms = pos 0;
    color_hex = [];
  }

  -- The client that `handleConn` makes, before the handshake.
  unfoldable pub new_client : String → Client F
  unfolding fresh_state
  new_client id = record {
    id = id;
    nick = "";
    send = [];
    closed = false;
    state = fresh_state "" "" origin;
    inventory = [];
    hunger = num 100;
    hp = pos 100;
    last_throw_at = 0;
    last_hit_at = 0;
    held_item = "";
    color_hex = [];
    infinite_fuel = false;
  }
