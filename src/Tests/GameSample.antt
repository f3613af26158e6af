-- ===== src/Tests/GameSample.antt =====
-- A client in the game, for the tests: the vectors of the graphics library are those of whole
-- numbers, and a rotation changes nothing.
use lodeen.Base.Int.{ℤ, pos, ◌+ℤ◌, ◌-ℤ◌, ◌*ℤ◌}
use lodeen.Base.{Bool, true, false, [], ◌∷◌, none, some}
use lodeen.Client.App.Overlays.{Pressed}
use lodeen.Client.App.Playing.{FrameInputs}
use lodeen.Client.App.State.{App, playing}
use lodeen.Client.Chat.{new_chat}
use lodeen.Client.Input.{Raylib, Vector2, Keys, FlightController, new_flight}
use lodeen.Client.Net
use lodeen.Protocol.Geometry.{Vector3, origin}
use lodeen.Tests.Sample.{int_float, point}

abbrev pub map2 : (ℤ → ℤ → ℤ) → Vector3 ℤ → Vector3 ℤ → Vector3 ℤ
map2 f p q = record { x = f p.x q.x; y = f p.y q.y; z = f p.z q.z }

instance abbrev pub int_raylib : Raylib ℤ
int_raylib = record {
  Quaternion = Bool;
  add = map2 ◌+ℤ◌;
  subtract = map2 ◌-ℤ◌;
  scale = λ p k. record { x = p.x *ℤ k; y = p.y *ℤ k; z = p.z *ℤ k };
  dot_product = λ p q. p.x *ℤ q.x +ℤ p.y *ℤ q.y +ℤ p.z *ℤ q.z;
  cross_product = λ p q. p;
  length_of = λ p. p.x;
  distance = λ p q. p.x -ℤ q.x;
  normalize = λ p. p;
  new_quaternion = λ _ _ _ _. true;
  from_axis_angle = λ _ _. true;
  from_vectors = λ _ _. true;
  multiply = λ q _. q;
  normalize_quaternion = λ q. q;
  rotate = λ p _. p;
}

abbrev pub still : Vector2 ℤ
still = record { x = pos 0; y = pos 0 }

-- The key W.
abbrev pub ahead : Keys ℤ
ahead = record {
  w = true;
  s = false;
  d = false;
  a = false;
  space = false;
  left_shift = false;
  q = false;
  e = false;
  r_pressed = false;
  wheel = pos 0;
}

abbrev pub walker : FlightController ℤ Bool
walker = new_flight (point 60 0 0)

abbrev pub game : App ℤ Bool
game = record {
  mode = playing;
  nc = Net.fresh_client;
  flight = some walker;
  camera = origin;
  camera_up = origin;
  smooth_pos = origin;
  smooth_init = false;
  earth_pos = origin;
  earth_vel = origin;
  hp = pos 100;
  hp_received = true;
  riding_id = "";
  boat_id = "";
  rocket_id = "";
  rocket_boarded_at = 0;
  last_sent_held = "";
  projectiles = [];
  flight_locked = false;
  locked_rel_pos = origin;
  locked_rel_vel = origin;
  show_inventory = false;
  show_craft = false;
  selected_slot = 0;
  inv_slots = "spear" ∷ [];
  show_contract = false;
  contract_mob_id = "";
  contract_pos = origin;
  contract_opened_at = 0;
  show_factory = false;
  factory_id = "";
  factory_opened_at = 0;
  chat = new_chat;
  rocket = record { hud_rocket = none; auto_pilot = ""; nose = origin; nose_init = false };
  show_orbit_map = false;
  pause = record {
    paused_rel_pos = origin;
    paused_rel_vel = origin;
    unfocus_freeze = false;
    unfocus_rel_pos = origin;
    unfocus_rel_vel = origin;
  };
  menu_nick = "ann";
  menu_addr = "localhost";
  menu_err = "";
}

abbrev pub nothing_pressed : Pressed
nothing_pressed = record {
  escape = false;
  m = false;
  c = false;
  i = false;
  t = false;
  slash = false;
  f = false;
  f1 = false;
  left_click = false;
  typed = record {
    characters = [];
    backspace = false;
    enter = false;
    keypad_enter = false;
    escape = false;
  };
  focused = true;
}

abbrev pub frame : FrameInputs ℤ
frame = record {
  written = true;
  now = 9;
  dt = pos 1;
  mouse = still;
  seat = record {
    held = ahead;
    left_control = false;
    g = false;
    h = false;
    j = false;
    k = false;
    n = false;
    b = false;
    x = false;
    e_pressed = true;
  };
  pressed = nothing_pressed;
  text = λ _. "";
}
