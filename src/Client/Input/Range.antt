-- ===== src/Client/Input/Range.antt =====
-- The speed of free flight and the pitch of the camera stay in their ranges.
use lodeen.Base.Float.{Float}
