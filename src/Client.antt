-- ===== src/Client.antt =====
-- The game client (internal/client).
pub mod App
pub mod Chat
pub mod Input
pub mod Net
