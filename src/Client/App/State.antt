-- ===== src/Client/App/State.antt =====
-- The state of the running game: the parts of `App` and of `PlayerState`, `UIState` and
-- `WorldState` in internal/client/app that the logic of a frame reads and writes. What only the
-- drawing reads is left out.
use lodeen.Base.Float.{Float, ◌⊕◌, ◌⊖◌}
use lodeen.Base.{ℕ, String, Bool, List, Option}
use lodeen.Base.Int.{ℤ}
use lodeen.Client.App.Sight.{Gaze}
use lodeen.Client.App.Spears.{Spear}
use lodeen.Client.Input.{Raylib, FlightController}
use lodeen.Client.Input.Flight.{forward}
use lodeen.Client.Chat.{Chat}
use lodeen.Client.Net
use lodeen.Protocol.Messages
use lodeen.Protocol.Geometry.{Vector3}

-- `state.Mode`
pub data GameMode : Type 0 where
  menu playing paused dead : GameMode

-- `RocketState`
pub record RocketState (F : Type 0) : Type 0 where
  pub hud_rocket : Option (Messages.Rocket F)
  pub auto_pilot : String
  pub nose : Vector3 F
  pub nose_init : Bool

-- `PauseState`
pub record PauseState (F : Type 0) : Type 0 where
  pub paused_rel_pos : Vector3 F
  pub paused_rel_vel : Vector3 F
  pub unfocus_freeze : Bool
  pub unfocus_rel_pos : Vector3 F
  pub unfocus_rel_vel : Vector3 F

-- `camera` is the camera's position, `camera_up` its direction up; a nil `flight` is `none`.
pub record App (F Q : Type 0) : Type 0 where
  pub mode : GameMode
  pub nc : Net.Client F
  pub flight : Option (FlightController F Q)
  pub camera : Vector3 F
  pub camera_up : Vector3 F
  pub smooth_pos : Vector3 F
  pub smooth_init : Bool
  pub earth_pos : Vector3 F
  pub earth_vel : Vector3 F
  pub hp : ℤ
  pub hp_received : Bool
  pub riding_id : String
  pub boat_id : String
  pub rocket_id : String
  pub rocket_boarded_at : ℕ
  pub last_sent_held : String
  pub projectiles : List (Spear F)
  pub flight_locked : Bool
  pub locked_rel_pos : Vector3 F
  pub locked_rel_vel : Vector3 F
  pub show_inventory : Bool
  pub show_craft : Bool
  pub selected_slot : ℕ
  pub inv_slots : List String
  pub show_contract : Bool
  pub contract_mob_id : String
  pub contract_pos : Vector3 F
  pub contract_opened_at : ℕ
  pub show_factory : Bool
  pub factory_id : String
  pub factory_opened_at : ℕ
  pub chat : Chat
  pub rocket : RocketState F
  pub show_orbit_map : Bool
  pub pause : PauseState F
  pub menu_nick : String
  pub menu_addr : String
  pub menu_err : String

module _ {F : Type 0} ⦃fl : Float F⦄ ⦃rl : Raylib F⦄ where
  -- What the searches read: the camera's position and `Forward`.
  abbrev pub gaze : App F rl.Quaternion → FlightController F rl.Quaternion → Gaze F
  gaze a f = record { camera = a.camera; forward = forward f }

  -- `protocolVector3Sub`
  unfoldable pub vector3_sub : Vector3 F → Vector3 F → Vector3 F
  vector3_sub p q = record { x = p.x ⊖ q.x; y = p.y ⊖ q.y; z = p.z ⊖ q.z }

  -- `NewVector3(p.X+q.X, p.Y+q.Y, p.Z+q.Z)`
  unfoldable pub vector3_sum : Vector3 F → Vector3 F → Vector3 F
  vector3_sum p q = record { x = p.x ⊕ q.x; y = p.y ⊕ q.y; z = p.z ⊕ q.z }
