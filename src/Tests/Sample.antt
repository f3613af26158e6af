-- ===== src/Tests/Sample.antt =====
-- Whole numbers as the floats of a test: sums, differences and products are exact, a quotient is
-- rounded towards zero, and the waves of the terrain are flat. With it, a small server.
use lodeen.Base.{ℕ, zero, suc, ◌+◌, ◌*◌, ◌/◌, ◌^◌, String, false, [], arith, leb, if◌then◌else◌}
use lodeen.Base.Int.{ℤ, pos, negsuc, pos_part, sub_ℕ, ◌+ℤ◌, ◌-ℤ◌, ◌*ℤ◌, ltb_ℤ, leb_ℤ, eqb_ℤ}
use lodeen.Base.Map.{Map}
use lodeen.Base.Float.{Ops, Float, HasOrderedConstants, IsStrictOrder}
use lodeen.Protocol.Geometry.{Vector3, origin}
use lodeen.Server.State.{Client, Server}

-- The integer square root, two binary digits at a time.
abbrev pub isqrt : ℕ → ℕ → ℕ
isqrt zero n = 0
isqrt (suc fuel) n =
    let r = 2 * isqrt fuel (n / 4) in if leb ((r + 1) * (r + 1)) n then r + 1 else r

abbrev pub div_ℤ : ℤ → ℤ → ℤ
div_ℤ (pos a) (pos b) = pos (a / b)
div_ℤ (pos a) (negsuc b) = sub_ℕ 0 (a / suc b)
div_ℤ (negsuc a) (pos b) = sub_ℕ 0 (suc a / b)
div_ℤ (negsuc a) (negsuc b) = pos (suc a / suc b)

abbrev pub int_ops : Ops ℤ
int_ops = record {
  lit = λ n d. pos (n / 10 ^ d);
  add = ◌+ℤ◌;
  sub = ◌-ℤ◌;
  mul = ◌*ℤ◌;
  div = div_ℤ;
  neg = λ a. pos 0 -ℤ a;
  sqrt = λ a. pos (isqrt 40 (pos_part a));
  sin = λ _. pos 0;
  cos = λ _. pos 0;
  acos = λ _. pos 0;
  asin = λ _. pos 0;
  atan2 = λ _ _. pos 0;
  exp = λ _. pos 1;
  lt = ltb_ℤ;
  le = leb_ℤ;
  eq = eqb_ℤ;
}

instance abbrev pub int_float : Float ℤ
int_float = record {
  ops = int_ops;
  Wide = ℤ;
  wide = int_ops;
  widen = λ a. a;
  narrow = λ a. a;
  to_int = λ a. a;
}

pub int_float-HasOrderedConstants : HasOrderedConstants ℤ
int_float-HasOrderedConstants = record { num_order = λ m n h. ground arith }

pub int_float-IsStrictOrder : IsStrictOrder ℤ
int_float-IsStrictOrder = record {
  flt_irrefl = λ a. ground arith;
  flt_trans = λ a b c h k. ground arith;
}

abbrev pub point : ℕ → ℕ → ℕ → Vector3 ℤ
point a b c = record { x = pos a; y = pos b; z = pos c }

abbrev pub empty_server : Server ℤ
empty_server = record {
  tick_rate = pos 20;
  clients = [];
  resources = [];
  mammoths = [];
  wells = [];
  houses = [];
  solar = [];
  batteries = [];
  factories = [];
  rockets = [];
  boats = [];
  mobs = [];
  projectiles = [];
  tick = 0;
  world = record {
    earth_pos = origin;
    earth_vel = origin;
    planet2_pos = origin;
    planet2_vel = origin;
  };
}

-- A client that stands at the centre, with the inventory that is given.
abbrev pub player : String → Map ℤ → Client ℤ
player id inv = record {
  id = id;
  nick = "";
  send = [];
  closed = false;
  state = record {
    id = id;
    nick = "";
    at = origin;
    yaw = pos 0;
    pitch = pos 0;
    hunger = pos 0;
    hp = pos 0;
    rtt_ms = pos 0;
    color_hex = [];
  };
  inventory = inv;
  hunger = pos 100;
  hp = pos 100;
  last_throw_at = 0;
  last_hit_at = 0;
  held_item = "";
  color_hex = [];
  infinite_fuel = false;
}
