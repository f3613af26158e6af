-- ===== src/Tests.antt =====
-- Concrete values, and each theorem at a concrete input.
mod Sample
mod Frames
mod Players
mod Energy
mod Vehicles
mod Mobs
mod Network
mod Games
mod GameSample
mod Flying
