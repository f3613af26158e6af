-- ===== src/Server.antt =====
-- The game server (internal/server/net).
pub mod Time
pub mod Snapshot
pub mod State
pub mod Client
pub mod Crafting
pub mod Nearest
pub mod Items
pub mod Energy
pub mod Chat
pub mod Connection
pub mod Farm
pub mod Houses
pub mod Hunger
pub mod Mobs
pub mod Projectiles
pub mod Boats
pub mod Mammoths
pub mod Rockets
pub mod World
pub mod Spawn
pub mod Tick
pub mod Dispatch
