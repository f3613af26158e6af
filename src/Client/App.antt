-- ===== src/Client/App.antt =====
-- The game above the network and the controls: internal/client/app.
pub mod Slots
pub mod State
pub mod Clicks
pub mod Mounts
pub mod Overlays
pub mod Pilot
pub mod Playing
pub mod Lifecycle
pub mod Frames
pub mod Sight
pub mod Factory
pub mod Earth
pub mod Trajectory
pub mod Spears
