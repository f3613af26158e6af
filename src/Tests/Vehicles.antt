-- ===== src/Tests/Vehicles.antt =====
-- Runs with boats, mammoths, rockets, and of a client that leaves.
use lodeen.Base.{
  ◌+◌, ◌*◌, ◌≡◌, ◌≢◌, refl, sym, String, true, false, [], ◌∷◌, none, some, inl, inr, arith, eq_iff,
}
use mathlib.Core.Path.{subst}
use lodeen.Base.Int.{ℤ, pos, ◌+ℤ◌, ◌-ℤ◌, ◌*ℤ◌, ◌≤ℤ◌, ◌<ℤ◌}
use lodeen.Base.Map.{lookup, map_values, AllValues}
use lodeen.Base.Float.{num, flt}
use lodeen.Protocol.Geometry.{dist2, origin}
use lodeen.Server.State.{Client, Server, Boat, Mammoth, Rocket}
use lodeen.Server.Time.{time_sub, millisecond, second}
use lodeen.Server.Client.{quantity}
use lodeen.Server.Boats.{handle_enter_boat, tick_boats}
use lodeen.Server.Boats.Riding.{
  SitsIn, HasRealRider, handle_enter_boat-SitsIn, tick_boats-HasRealRider,
}
use lodeen.Server.Mammoths.{handle_ride_mammoth, handle_hit_mammoth}
use lodeen.Server.Mammoths.Riders.{RidesOne, handle_ride_mammoth-RidesOne}
use lodeen.Server.Farm.{lying}
use lodeen.Server.Mammoths.Hunting.{beside, handle_hit_mammoth-kills}
use lodeen.Server.Mammoths.Breeding.{grow_up, is_candidate, mammoths_are_close, tick_breeding}
use lodeen.Server.Mammoths.Breeding.Births.{
  IsPair, after_birth, tick_breeding-births, tick_breeding-barren,
}
use lodeen.Server.Rockets.{handle_board_rocket, handle_exit_rocket}
use lodeen.Server.Rockets.Pilots.{IsGrounded, PilotsOne, handle_exit_rocket-IsGrounded}
use lodeen.Server.Dispatch.{Inputs, exit_rocket, handle_message}
use lodeen.Server.Dispatch.Pilots.{handle_message-other}
use lodeen.Server.Rockets.Flight.{tick_rockets}
use lodeen.Server.Rockets.Fuel.{RocketSteps, ticked, boarded, stay, step, RocketSteps-IsFuelled}
use lodeen.Server.Rockets.Phases.{IsFuelled}
use lodeen.Server.Connection.{unregister_client}
use lodeen.Server.Connection.Leaving.{IsNotOwnedBy, unregister_client-releases}
use lodeen.Tests.Sample.{int_float, point, empty_server, player}

abbrev rider : Client ℤ
rider = player "p1" []

rider-named : rider.id ≢ ""
rider-named = λ e. ground (arith, eq_iff "p1" "", e)

abbrev taken_boat : Boat ℤ
taken_boat = record { id = "b2"; at = point 1 1 1; yaw = pos 0; rider_id = "p2" }

abbrev harbour : Server ℤ
harbour = record empty_server {
  clients = ("p1", rider) ∷ [];
  boats =
      ("b1", record { id = "b1"; at = point 3 3 3; yaw = pos 0; rider_id = "" })
      ∷ ("b2", taken_boat)
      ∷ [];
}

handle_enter_boat-SitsIn_example :
    SitsIn "b1" "p1" (handle_enter_boat "b1" harbour rider).boats
    × AllValues (λ m. m.rider_id ≢ "p1") (handle_enter_boat "b1" harbour rider).mammoths
handle_enter_boat-SitsIn_example = handle_enter_boat-SitsIn "b1" harbour rider rider-named

taken-moored : lookup "b2" harbour.boats ≡ some taken_boat
unfolding lookup
taken-moored = refl

other-sits : taken_boat.rider_id ≢ ""
other-sits = λ e. ground (arith, eq_iff "p2" "", e)

other-differs : taken_boat.rider_id ≢ rider.id
other-differs = λ e. ground (arith, eq_iff "p2" "p1", e)

tick_boats-HasRealRider_example :
    AllValues (HasRealRider (tick_boats harbour).clients) (tick_boats harbour).boats
tick_boats-HasRealRider_example = tick_boats-HasRealRider harbour

abbrev mammoth : String → String → Mammoth ℤ
mammoth id sex = record {
  id = id;
  at = point 1 1 1;
  hp = pos 1;
  tamed = true;
  sex = sex;
  fed_count = pos 4;
  baby = false;
  leashed_to = "";
  saddle = true;
  rider_id = "";
  mate_id = "";
  together_since = 0;
  born_at = 0;
}

abbrev ridden : Mammoth ℤ
ridden = record (mammoth "m2" "f") { rider_id = "p2" }

abbrev steppe : Server ℤ
steppe = record empty_server { mammoths = ("m1", mammoth "m1" "m") ∷ ("m2", ridden) ∷ [] }

steppe-RidesOne : RidesOne "p1" steppe.mammoths
steppe-RidesOne = (λ e. absurd (ground (arith, eq_iff "" "p1", e)), (λ e. tt, tt))

handle_ride_mammoth-RidesOne_example :
    RidesOne "p1" (handle_ride_mammoth "m1" steppe rider).mammoths
handle_ride_mammoth-RidesOne_example =
    handle_ride_mammoth-RidesOne "m1" steppe rider rider-named steppe-RidesOne

ridden-there : lookup "m2" steppe.mammoths ≡ some ridden
unfolding lookup
ridden-there = refl

no_fruit : quantity "fruit" rider.inventory ≤ℤ pos 0
unfolding quantity lookup
no_fruit = omega arith

long_ago : pos (200 * millisecond) ≤ℤ time_sub second 0
unfolding time_sub
long_ago = omega arith

just_thrown : time_sub second 0 ≤ℤ pos (2 * second)
unfolding time_sub
just_thrown = omega arith

doubled : time_sub (second + millisecond) second <ℤ pos (200 * millisecond)
unfolding time_sub
doubled = omega arith

first-there : lookup "m1" steppe.mammoths ≡ some (mammoth "m1" "m")
unfolding lookup
first-there = refl

first-near : flt (num 6400) (dist2 (mammoth "m1" "m").at rider.state.at) ≡ false
unfolding dist2 ◌+ℤ◌ ◌-ℤ◌ ◌*ℤ◌
first-near = refl

handle_hit_mammoth-kills_example :
    let after : Server ℤ = (handle_hit_mammoth second ("n1", "n2") "m1" steppe rider).0 in
    (lookup "m1" after.mammoths ≡ none)
    × (lookup "n2" after.resources ≡ some (lying "n2" "spear" (beside (mammoth "m1" "m").at)))
handle_hit_mammoth-kills_example =
    handle_hit_mammoth-kills second "n1" "n2" "m1" "m1" "n2" (mammoth "m1" "m") steppe rider
      long_ago just_thrown first-there first-near refl

abbrev herd : Server ℤ
herd = record empty_server { mammoths = ("m1", mammoth "m1" "m") ∷ ("m2", mammoth "m2" "f") ∷ [] }

herd-IsPair :
    IsPair
      (map_values (grow_up 100) herd.mammoths)
      ("m1", mammoth "m1" "m")
      ("m2", mammoth "m2" "f")
unfolding map_values grow_up is_candidate mammoths_are_close dist2 ◌+ℤ◌ ◌-ℤ◌ ◌*ℤ◌
herd-IsPair = (inl (refl, refl), refl, inr (inl (refl, refl)), refl, refl)

tick_breeding-births_example :
    (father mother : String × Mammoth ℤ) × IsPair
      (map_values (grow_up 100) herd.mammoths)
      father
      mother
    × ((i : String)
        → lookup i (tick_breeding 100 "n1" true herd).mammoths
          ≡ after_birth 100 "n1" true father mother i (map_values (grow_up 100) herd.mammoths))
tick_breeding-births_example =
    tick_breeding-births 100 "n1" true herd ("m1", mammoth "m1" "m") ("m2", mammoth "m2" "f")
      herd-IsPair

abbrev lonely : Server ℤ
lonely = record empty_server { mammoths = ("m1", mammoth "m1" "m") ∷ [] }

lonely-barren :
    (male female : String × Mammoth ℤ)
    → ¬ IsPair (map_values (grow_up 100) lonely.mammoths) male female
unfolding map_values grow_up is_candidate
lonely-barren male female (_, _, inl (p, q), f, _) =
    let bad : is_candidate "f" (mammoth "m1" "m") ≡ true =
      subst (λ x. is_candidate "f" x ≡ true) (sym q) f in
    ground (arith, bad)
lonely-barren male female (_, _, inr e, _, _) = e

tick_breeding-barren_example :
    tick_breeding 100 "n1" true lonely
    ≡ record lonely { mammoths = map_values (grow_up 100) lonely.mammoths }
tick_breeding-barren_example = tick_breeding-barren 100 "n1" true lonely lonely-barren

abbrev rocket : Rocket ℤ
rocket = record {
  id = "k1";
  at = point 0 50 0;
  vel = origin;
  up = point 0 1 0;
  yaw = pos 0;
  fuel = pos 60;
  max_fuel = pos 100;
  piloted = true;
  owner_id = "p2";
  in_orbit = false;
  thrust = pos 1;
  last_log_at = 0;
  fuel_accum = pos 0;
  target_up = origin;
  apoapsis = pos 0;
  periapsis = pos 0;
  speed = pos 0;
  altitude = pos 0;
  target_velocity = pos 0;
  infinite_fuel = false;
  auto_pilot = "";
  primary_body = "earth";
  dist_sun = pos 0;
  soi_radius = pos 0;
  local_pos = point 0 50 0;
}

abbrev pilot : Client ℤ
pilot = player "p2" []

abbrev spaceport : Server ℤ
spaceport = record empty_server { clients = ("p2", pilot) ∷ []; rockets = ("k1", rocket) ∷ [] }

rocket-there : lookup "k1" spaceport.rockets ≡ some rocket
unfolding lookup
rocket-there = refl

spaceport-PilotsOne : PilotsOne "p2" spaceport.rockets
spaceport-PilotsOne = (λ _. tt, tt)

handle_exit_rocket-IsGrounded_example : IsGrounded "p2" (handle_exit_rocket spaceport pilot).rockets
handle_exit_rocket-IsGrounded_example =
    handle_exit_rocket-IsGrounded spaceport pilot spaceport-PilotsOne

abbrev inputs : Inputs ℤ
inputs = record {
  now = second;
  id = "n1";
  drop_ids = ("n2", "n3");
  fresh = λ _. record { id = "n4"; angle = pos 0; radius = pos 0 };
}

new_id : inputs.id ≢ "k1"
new_id = λ e. ground (arith, eq_iff "n1" "k1", e)

handle_message-other_example :
    lookup "k1" (handle_message inputs exit_rocket spaceport rider).0.rockets ≡ some rocket
handle_message-other_example =
    handle_message-other inputs exit_rocket "k1" rocket spaceport rider rocket-there refl
      other-differs new_id

spaceport-IsFuelled : AllValues IsFuelled spaceport.rockets
spaceport-IsFuelled = ((omega arith, omega arith), tt)

-- A tick, and a player who tries to board.
abbrev after_tick : Server ℤ
after_tick = tick_rockets second (pos 1) spaceport

abbrev after_boarding : Server ℤ
after_boarding = handle_board_rocket "k1" after_tick rider

two_steps : RocketSteps spaceport after_boarding
two_steps = step spaceport after_tick after_boarding (ticked second (pos 1) spaceport) (
    step after_tick after_boarding after_boarding (boarded "k1" after_tick rider)
      (stay after_boarding))

RocketSteps-IsFuelled_example : AllValues IsFuelled after_boarding.rockets
RocketSteps-IsFuelled_example =
    RocketSteps-IsFuelled spaceport after_boarding two_steps spaceport-IsFuelled

unregister_client-releases_example :
    (lookup "p1" (unregister_client "p1" spaceport).clients ≡ none)
    × AllValues (IsNotOwnedBy "p1") (unregister_client "p1" spaceport).rockets
unregister_client-releases_example = unregister_client-releases "p1" spaceport rider-named
