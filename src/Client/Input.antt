-- ===== src/Client/Input.antt =====
-- The player's body and camera: internal/client/input. The vectors and quaternions of the graphics
-- library and the state of keys and mouse are arguments.
pub mod Survival
pub mod Creative
pub mod Flight
pub mod Laws
pub mod Moves
pub mod Range
use lodeen.Base.{String, Bool, false, if◌then◌else◌}
use lodeen.Base.Int.{ℤ, pos}
use lodeen.Base.Float.{Float, lit, num, flt}
use lodeen.Protocol.Geometry.{Vector3, origin}

-- What the code calls of raylib: its quaternions among them.
pub record Raylib (F : Type 0) : Type 1 where
  pub Quaternion : Type 0
  pub add : Vector3 F → Vector3 F → Vector3 F
  pub subtract : Vector3 F → Vector3 F → Vector3 F
  pub scale : Vector3 F → F → Vector3 F
  pub dot_product : Vector3 F → Vector3 F → F
  pub cross_product : Vector3 F → Vector3 F → Vector3 F
  pub length_of : Vector3 F → F
  pub distance : Vector3 F → Vector3 F → F
  pub normalize : Vector3 F → Vector3 F
  pub new_quaternion : F → F → F → F → Quaternion
  pub from_axis_angle : Vector3 F → F → Quaternion
  pub from_vectors : Vector3 F → Vector3 F → Quaternion
  pub multiply : Quaternion → Quaternion → Quaternion
  pub normalize_quaternion : Quaternion → Quaternion
  pub rotate : Vector3 F → Quaternion → Vector3 F

pub record Vector2 (F : Type 0) : Type 0 where
  pub x : F
  pub y : F

-- The keys that are held; `r_pressed` is whether R went down in this frame, and `wheel` the mouse
-- wheel's move.
pub record Keys (F : Type 0) : Type 0 where
  pub w : Bool
  pub s : Bool
  pub d : Bool
  pub a : Bool
  pub space : Bool
  pub left_shift : Bool
  pub q : Bool
  pub e : Bool
  pub r_pressed : Bool
  pub wheel : F

pub data Mode : Type 0 where
  creative survival : Mode

-- `at` is the field `Pos`.
pub record FlightController (F Q : Type 0) : Type 0 where
  pub at : Vector3 F
  pub vel : Vector3 F
  pub quat : Q
  pub tangent_forward : Vector3 F
  pub pitch : F
  pub speed : F
  pub sensitivity : F
  pub roll_speed : F
  pub riding : Bool
  pub in_boat : Bool
  pub mode : Mode
  pub earth_pos : Vector3 F
  pub sun_pos : Vector3 F
  pub earth_vel : Vector3 F
  pub helio_init : Bool
  pub smooth_min_r : F
  pub rel_pos : Vector3 F
  pub rel_vel : Vector3 F
  pub rel_init : Bool
  pub attached_body : String
  pub last_on_ground : Bool
  pub last_jump_at : ℤ

module _ {F : Type 0} ⦃fl : Float F⦄ where
  abbrev pub axis_x : Vector3 F
  axis_x = record { x = num 1; y = num 0; z = num 0 }

  abbrev pub axis_y : Vector3 F
  axis_y = record { x = num 0; y = num 1; z = num 0 }

  abbrev pub axis_z : Vector3 F
  axis_z = record { x = num 0; y = num 0; z = num 1 }

  abbrev pub minus_z : Vector3 F
  minus_z = record { x = num 0; y = num 0; z = fl.ops.neg (num 1) }

  -- `if d < 0.01 { d = 0.01 }`
  unfoldable pub at_least_hundredth : F → F
  at_least_hundredth d = if flt d (lit 1 2) then lit 1 2 else d

module _ {F : Type 0} ⦃fl : Float F⦄ ⦃rl : Raylib F⦄ where
  -- The part of `v` that is at right angles to `up`.
  unfoldable pub tangent_part : Vector3 F → Vector3 F → Vector3 F
  tangent_part v up = rl.subtract v (rl.scale up (rl.dot_product v up))

  -- `New`, at a place.
  unfoldable pub new_flight : Vector3 F → FlightController F rl.Quaternion
  unfolding tangent_part
  new_flight p =
      let up = rl.normalize p in
      let fw = tangent_part axis_z up in
      let forward = if flt (rl.length_of fw) (lit 1 3) then tangent_part axis_y up else fw in
      record {
        at = p;
        vel = origin;
        quat = rl.new_quaternion (num 0) (num 0) (num 0) (num 1);
        tangent_forward = rl.normalize forward;
        pitch = num 0;
        speed = num 40;
        sensitivity = lit 25 4;
        roll_speed = num 1;
        riding = false;
        in_boat = false;
        mode = survival;
        earth_pos = origin;
        sun_pos = origin;
        earth_vel = origin;
        helio_init = false;
        smooth_min_r = num 0;
        rel_pos = origin;
        rel_vel = origin;
        rel_init = false;
        attached_body = "";
        last_on_ground = false;
        last_jump_at = pos 0;
      }
