-- ===== src/Server/Rockets/Fuel.antt =====
-- The fuel of every rocket stays between 0 and its tank, whatever the players do and however long
-- the server runs.
use lodeen.Base.{ℕ, refl, String}
use lodeen.Base.Map.{lookup, AllValues}
use lodeen.Base.Float.{Float}
use lodeen.Protocol.Geometry.{Vector3}
use lodeen.Protocol.Messages.{RocketInput}
use lodeen.Server.State.{Client, Server}
use lodeen.Server.Rockets.{
  leave_rocket, handle_exit_rocket, steer, handle_rocket_input, handle_place_rocket,
  handle_board_rocket,
}
use lodeen.Server.Rockets.Flight.{tick_rockets}
use lodeen.Server.Rockets.Phases.{
  IsFuelled, change_first-IsFuelled, tick_all-IsFuelled, steer-IsFuelled, place-IsFuelled,
  board-IsFuelled,
}

module _ {F : Type 0} ⦃fl : Float F⦄ where
  -- What can happen to the rockets.
  pub data RocketStep : Server F → Server F → Type 0 where
    placed :
        (id : String) (p : Vector3 F) (s : Server F) (c : Client F)
        → RocketStep s (handle_place_rocket id p s c).0
    boarded :
        (id : String) (s : Server F) (c : Client F) → RocketStep s (handle_board_rocket id s c)
    left : (s : Server F) (c : Client F) → RocketStep s (handle_exit_rocket s c)
    steered :
        (p : RocketInput F) (s : Server F) (c : Client F) → RocketStep s (handle_rocket_input p s c)
    ticked : (now : ℕ) (dt : F) (s : Server F) → RocketStep s (tick_rockets now dt s)

  -- Any number of steps.
  pub data RocketSteps : Server F → Server F → Type 0 where
    stay : (s : Server F) → RocketSteps s s
    step : (s t u : Server F) → RocketStep s t → RocketSteps t u → RocketSteps s u

  step-IsFuelled :
      (s t : Server F)
      → RocketStep s t
      → AllValues IsFuelled s.rockets
      → AllValues IsFuelled t.rockets
  unfolding handle_board_rocket handle_exit_rocket leave_rocket handle_rocket_input tick_rockets
  step-IsFuelled _ _ (placed id p s c) h = place-IsFuelled id p s c h
  step-IsFuelled _ _ (boarded id s c) h = board-IsFuelled id (lookup id s.rockets) s c refl h
  step-IsFuelled _ _ (left s c) h = change_first-IsFuelled c.id leave_rocket s.rockets (λ r k. k) h
  step-IsFuelled _ _ (steered p s c) h =
      change_first-IsFuelled c.id (steer p c.infinite_fuel) s.rockets
        (steer-IsFuelled p c.infinite_fuel) h
  step-IsFuelled _ _ (ticked now dt s) h =
      tick_all-IsFuelled now s.world.earth_pos s.world.earth_vel dt s.rockets h

  -- Whatever the players do with rockets and however many ticks pass, the fuel of every rocket
  -- stays between 0 and the size of its tank.
  pub RocketSteps-IsFuelled :
      (s t : Server F)
      → RocketSteps s t
      → AllValues IsFuelled s.rockets
      → AllValues IsFuelled t.rockets
  RocketSteps-IsFuelled _ _ (stay s) h = h
  RocketSteps-IsFuelled _ _ (step s t u a rest) h =
      RocketSteps-IsFuelled t u rest (step-IsFuelled s t a h)
