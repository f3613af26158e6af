-- ===== src/Client/App/Mounts.antt =====
-- The key E, the wheel and the item in the hand: internal/client/app/update_playing_input.go.
pub mod Riding
use lodeen.Base.Float.{Float, num, flt}
use lodeen.Base.{zero, suc, ◌+◌, ◌%◌, Bool, true, false, not, none, some, ◌==◌, if◌then◌else◌}
use lodeen.Client.App.Sight.{boat_nearby, saddled_mammoth_nearby}
use lodeen.Client.App.Slots.{held_item}
use lodeen.Client.App.State.{App, gaze}
use lodeen.Client.Input.{Raylib, FlightController, creative, survival}
use lodeen.Client.Net
use lodeen.Client.Net.Actions

module _ {F : Type 0} ⦃fl : Float F⦄ ⦃rl : Raylib F⦄ where
  -- On the ground: the saddled mammoth, or else the boat.
  unfoldable pub mount_nearby :
      Bool → FlightController F rl.Quaternion → App F rl.Quaternion → App F rl.Quaternion
  mount_nearby written f a =
      let mammoth = saddled_mammoth_nearby (gaze a f) a.nc in
      let boat = boat_nearby (gaze a f) a.nc in
      if not (mammoth == "")
      then record a {
        nc = (Actions.ride_mammoth written mammoth a.nc).0;
        riding_id = mammoth;
        flight = some (record f { riding = true });
      }
      else if not (boat == "")
      then record a {
        nc = (Actions.enter_boat written boat a.nc).0;
        boat_id = boat;
        flight = some (record f { in_boat = true });
      }
      else a

  unfoldable pub press_mount :
      Bool → FlightController F rl.Quaternion → App F rl.Quaternion → App F rl.Quaternion
  unfolding mount_nearby
  press_mount written f a =
      if not (a.riding_id == "")
      then record a {
        nc = (Actions.ride_mammoth written "" a.nc).0;
        riding_id = "";
        flight = some (record f { riding = false });
      }
      else if not (a.boat_id == "")
      then record a {
        nc = (Actions.enter_boat written "" a.nc).0;
        boat_id = "";
        flight = some (record f { in_boat = false });
      }
      else mount_nearby written f a

  unfoldable pub handle_mount_key : Bool → Bool → App F rl.Quaternion → App F rl.Quaternion
  unfolding press_mount
  handle_mount_key pressed written a = elim a.flight [
    | none ↦ a
    | some f ↦ if pressed then press_mount written f a else a
  ]

  -- The slot 0 to 15 that the wheel selects, in survival only.
  unfoldable pub update_slot_wheel : F → App F rl.Quaternion → App F rl.Quaternion
  update_slot_wheel wheel a = elim a.flight [
    | none ↦ a
    | some f ↦ elim f.mode [
      | creative ↦ a
      | survival ↦ record a {
        selected_slot =
            if flt (num 0) wheel
            then (a.selected_slot + 1) % 16
            else if flt wheel (num 0)
            then (a.selected_slot + 15) % 16
            else a.selected_slot;
      }
    ]
  ]

  -- The server is told of a change of the item in the hand.
  unfoldable pub sync_held_item : Bool → App F rl.Quaternion → App F rl.Quaternion
  unfolding held_item
  sync_held_item written a =
      let held = held_item a.selected_slot a.inv_slots in
      if held == a.last_sent_held
      then a
      else record a { last_sent_held = held; nc = (Actions.select_item written held a.nc).0 }
