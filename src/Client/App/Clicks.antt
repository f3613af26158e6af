-- ===== src/Client/App/Clicks.antt =====
-- What a click and the key E do: internal/client/app/update_playing_items.go,
-- update_playing_input.go, and `placeForward` of input.go. `written` is whether the write of a
-- frame succeeds; a write that fails only leaves a line in the log.
pub mod OneFrame
use lodeen.Base.Float.{Float, num}
use lodeen.Base.{
  ℕ, zero, suc, String, Bool, true, false, not, ◌||◌, [], ◌∷◌, ◌++◌, none, some, ◌==◌,
  if◌then◌else◌,
}
use lodeen.Client.App.Sight.{
  Gaze, geo_camera, well_in_sight, rocket_in_sight, factory_in_sight, pink_mob_in_sight,
  house_in_sight, saddled_mammoth_nearby, mammoth_in_reach, seed_in_sight,
}
use lodeen.Client.App.Slots.{held_item}
use lodeen.Client.App.State.{App, gaze}
use lodeen.Client.Input.{Raylib, FlightController}
use lodeen.Client.Input.Flight.{forward}
use lodeen.Client.Net
use lodeen.Client.Net.Actions
use lodeen.Protocol.Messages.{Place}

module _ {F : Type 0} ⦃fl : Float F⦄ ⦃rl : Raylib F⦄ where
  -- `placeForward`
  unfoldable pub place_forward : F → Gaze F → Place F
  place_forward dist g = record {
    at = rl.add g.camera (rl.scale g.forward dist);
    yaw = fl.narrow (fl.wide.atan2 (fl.widen g.forward.x) (fl.widen g.forward.z));
  }

  unfoldable pub throw_spear : Bool → ℕ → Gaze F → App F rl.Quaternion → App F rl.Quaternion
  unfolding geo_camera
  throw_spear written now g a = record a {
    nc = (Actions.throw_spear written g.forward a.nc).0;
    projectiles =
        a.projectiles ++ record { at = geo_camera g a.nc; dir = g.forward; spawn = now } ∷ [];
  }

  -- The nearest mammoth takes the fruit, or else it is planted in front.
  unfoldable pub use_fruit : Bool → Gaze F → Net.Client F → Net.Client F
  unfolding geo_camera
  use_fruit written g c =
      let id = mammoth_in_reach g c in
      let helio = rl.add g.camera (rl.scale g.forward (num 2)) in
      let geo = geo_camera (record { camera = helio; forward = g.forward }) c in
      if id == ""
      then (Actions.plant_seed written geo c).0
      else (Actions.tame_mammoth written id c).0

  unfoldable pub use_water : Bool → Gaze F → Net.Client F → Net.Client F
  use_water written g c =
      let id = seed_in_sight g c in if id == "" then c else (Actions.water_plant written id c).0

  unfoldable pub use_leash : Bool → Gaze F → Net.Client F → Net.Client F
  use_leash written g c =
      let id = mammoth_in_reach g c in
      if id == "" then c else (Actions.leash_mammoth written id c).0

  unfoldable pub use_saddle : Bool → Gaze F → Net.Client F → Net.Client F
  use_saddle written g c =
      let id = mammoth_in_reach g c in
      if id == "" then c else (Actions.saddle_mammoth written id c).0

  unfoldable pub place_structure : Bool → String → Gaze F → Net.Client F → Net.Client F
  unfolding place_forward
  place_structure written kind g c =
      let p = place_forward (num 5) g in
      if kind == "house"
      then (Actions.place_house written p c).0
      else if kind == "solar"
      then (Actions.place_solar written p c).0
      else if kind == "battery"
      then (Actions.place_battery written p c).0
      else if kind == "factory"
      then (Actions.place_factory written p c).0
      else c

  -- The items that only send a message.
  unfoldable pub use_item : Bool → String → Gaze F → Net.Client F → Net.Client F
  unfolding use_fruit use_water use_leash use_saddle place_structure place_forward
  use_item written held g c =
      if held == "fruit"
      then use_fruit written g c
      else if held == "water"
      then use_water written g c
      else if held == "leash"
      then use_leash written g c
      else if held == "house" || held == "solar" || held == "battery" || held == "factory"
      then place_structure written held g c
      else if held == "rocket"
      then (Actions.place_rocket written (place_forward (num 5) g).at c).0
      else if held == "boat"
      then (Actions.place_boat written (place_forward (num 5) g) c).0
      else if held == "saddle"
      then use_saddle written g c
      else c

  unfoldable pub handle_held_item_click :
      Bool → ℕ → String → Gaze F → App F rl.Quaternion → App F rl.Quaternion
  unfolding throw_spear use_item
  handle_held_item_click written now held g a =
      if held == "spear"
      then throw_spear written now g a
      else record a { nc = use_item written held g a.nc }

  -- A door, or a saddle to take off.
  unfoldable pub touch : Bool → Gaze F → Net.Client F → Net.Client F
  touch written g c =
      let house = house_in_sight g c in
      let mammoth = saddled_mammoth_nearby g c in
      if not (house == "")
      then (Actions.toggle_door written house c).0
      else if not (mammoth == "")
      then (Actions.saddle_mammoth written mammoth c).0
      else c

  -- With the answer whether the frame ends here.
  unfoldable pub handle_empty_hand_click :
      Bool → ℕ → Gaze F → App F rl.Quaternion → App F rl.Quaternion × Bool
  unfolding touch
  handle_empty_hand_click written now g a =
      let rocket = rocket_in_sight g a.nc in
      let factory = factory_in_sight g a.nc in
      let mob = pink_mob_in_sight g a.nc in
      let boarded : App F rl.Quaternion = record a {
        nc = (Actions.board_rocket written rocket a.nc).0;
        rocket_id = rocket;
        rocket_boarded_at = now;
      } in
      let at_factory : App F rl.Quaternion = record a {
        factory_id = factory;
        show_factory = true;
        factory_opened_at = now;
      } in
      let at_mob : App F rl.Quaternion = record a {
        contract_mob_id = mob.0;
        contract_pos = mob.1;
        show_contract = true;
        contract_opened_at = now;
      } in
      let touched : App F rl.Quaternion = record a { nc = touch written g a.nc } in
      if not (rocket == "")
      then (boarded, true)
      else if not (factory == "")
      then (at_factory, true)
      else if not (mob.0 == "")
      then (at_mob, true)
      else (touched, false)

  -- A click of the left button with the flight controller `f`: a well comes first.
  unfoldable pub click :
      Bool → ℕ → FlightController F rl.Quaternion → App F rl.Quaternion → App F rl.Quaternion × Bool
  unfolding handle_held_item_click handle_empty_hand_click held_item
  click written now f a =
      let well = well_in_sight (gaze a f) a.nc in
      let held = held_item a.selected_slot a.inv_slots in
      let drawn : App F rl.Quaternion = record a {
        nc = (Actions.take_water written well a.nc).0;
      } in
      if not (well == "")
      then (drawn, false)
      else if held == ""
      then handle_empty_hand_click written now (gaze a f) a
      else (handle_held_item_click written now held (gaze a f) a, false)

  unfoldable pub handle_mouse_click :
      Bool → Bool → ℕ → App F rl.Quaternion → App F rl.Quaternion × Bool
  unfolding click
  handle_mouse_click pressed written now a = elim a.flight [
    | none ↦ (a, false)
    | some f ↦ if pressed then click written now f a else (a, false)
  ]
