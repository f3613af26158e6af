-- ===== src/Protocol/Messages.antt =====
-- The payloads of the messages: internal/shared/protocol/messages*.go. Field by field the structs
-- of the source, over a type `F` of float32 values. The JSON text is not modelled: a message is the
-- value that it encodes. A colour is the list of its bytes.
use lodeen.Base.{ℕ, String, Bool, List}
use lodeen.Base.Int.{ℤ}
use lodeen.Base.Map.{Map}
use lodeen.Protocol.Geometry.{Vector3}

pub record Hello : Type 0 where
  pub nick : String
  pub version : String
  pub color_hex : List ℕ

pub record Welcome : Type 0 where
  pub player_id : String
  pub world_name : String
  pub tick_rate : ℤ
  pub server_version : String

-- The coordinates X, Y, Z are the field `at`.
pub record PlayerState (F : Type 0) : Type 0 where
  pub id : String
  pub nick : String
  pub at : Vector3 F
  pub yaw : F
  pub pitch : F
  pub hunger : F
  pub hp : ℤ
  pub rtt_ms : ℤ
  pub color_hex : List ℕ

pub record ChatMessage : Type 0 where
  pub sender : String
  pub text : String
  pub ts : ℕ

pub record Pong : Type 0 where
  pub sent : ℤ
  pub server_ts : ℕ

-- A resource that lies on the surface; X, Y, Z are the field `at`, and `GrowAt` is in milliseconds.
pub record Resource (F : Type 0) : Type 0 where
  pub id : String
  pub kind : String
  pub at : Vector3 F
  pub watered : Bool
  pub grow_at : ℕ

pub record Well (F : Type 0) : Type 0 where
  pub id : String
  pub at : Vector3 F

-- `PlaceHouse`, `PlaceSolar`, `PlaceBattery`, `PlaceFactory` and `PlaceBoat` have these fields, and
-- `PlaceRocket` and `PlantSeed` have `at` alone.
pub record Place (F : Type 0) : Type 0 where
  pub at : Vector3 F
  pub yaw : F

pub record RocketInput (F : Type 0) : Type 0 where
  pub thrust : F
  pub target_up : Vector3 F
  pub auto_pilot : String

-- A mammoth, a mob and so on as a snapshot shows them; X, Y, Z are the field `at` again.
pub record Mammoth (F : Type 0) : Type 0 where
  pub id : String
  pub at : Vector3 F
  pub hp : ℤ
  pub tamed : Bool
  pub sex : String
  pub fed_count : ℤ
  pub baby : Bool
  pub leashed_to : String
  pub saddle : Bool
  pub rider_id : String

pub record Mob (F : Type 0) : Type 0 where
  pub id : String
  pub at : Vector3 F
  pub hp : ℤ
  pub kind : String
  pub contract : String
  pub owner_id : String

pub record House (F : Type 0) : Type 0 where
  pub id : String
  pub at : Vector3 F
  pub yaw : F
  pub door_open : Bool

pub record Boat (F : Type 0) : Type 0 where
  pub id : String
  pub at : Vector3 F
  pub yaw : F
  pub rider_id : String

pub record Solar (F : Type 0) : Type 0 where
  pub id : String
  pub at : Vector3 F
  pub yaw : F

pub record Battery (F : Type 0) : Type 0 where
  pub id : String
  pub at : Vector3 F
  pub yaw : F
  pub energy : ℤ
  pub max_energy : ℤ

pub record Factory (F : Type 0) : Type 0 where
  pub id : String
  pub at : Vector3 F
  pub yaw : F
  pub crafting : String
  pub progress : ℤ

-- DX, DY, DZ are the field `dir`.
pub record MobProjectile (F : Type 0) : Type 0 where
  pub id : String
  pub at : Vector3 F
  pub dir : Vector3 F

-- DX, DY, DZ are the field `up`, and VX, VY, VZ the field `vel`.
pub record Rocket (F : Type 0) : Type 0 where
  pub id : String
  pub at : Vector3 F
  pub up : Vector3 F
  pub fuel : ℤ
  pub max_fuel : ℤ
  pub piloted : Bool
  pub owner_id : String
  pub in_orbit : Bool
  pub apoapsis : F
  pub periapsis : F
  pub speed : F
  pub altitude : F
  pub target_velocity : F
  pub vel : Vector3 F
  pub primary_body : String
  pub dist_sun : F
  pub soi_radius : F

-- The whole world, for every client.
pub record Snapshot (F : Type 0) : Type 0 where
  pub tick : ℕ
  pub players : List (PlayerState F)
  pub resources : List (Resource F)
  pub mammoths : List (Mammoth F)
  pub wells : List (Well F)
  pub houses : List (House F)
  pub boats : List (Boat F)
  pub mobs : List (Mob F)
  pub projectiles : List (MobProjectile F)
  pub solar : List (Solar F)
  pub batteries : List (Battery F)
  pub factories : List (Factory F)
  pub rockets : List (Rocket F)
  pub earth_pos : Vector3 F
  pub earth_vel : Vector3 F
  pub planet2_pos : Vector3 F
  pub planet2_vel : Vector3 F

-- What the server sends to one client.
pub data Message (F : Type 0) : Type 0 where
  welcome : Welcome → Message F
  chat : ChatMessage → Message F
  pong : Pong → Message F
  inventory_update : Map ℤ → Message F
  teleport : Vector3 F → Message F
  snapshot : Snapshot F → Message F
