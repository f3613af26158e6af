-- ===== src/Client/App/Playing.antt =====
-- A frame of the game: `updatePlaying` of internal/client/app/update_playing.go.
pub mod Flies
pub mod Windows
pub mod Hands
pub mod Frame
pub mod Dialogs
use lodeen.Base.Float.{Float}
use lodeen.Base.{ℕ, String, Bool, true, false, List}
use lodeen.Client.App.Clicks.{handle_mouse_click}
use lodeen.Client.App.Frames.{
  sync_flight_bodies, apply_ui_lock, sync_hp_from_network, check_death, emit_player_state,
  update_flight_physics,
}
use lodeen.Client.App.Mounts.{handle_mount_key, update_slot_wheel, sync_held_item}
use lodeen.Client.App.Overlays.{
  Pressed, update_dialog_overlays, update_chat_overlay, update_orbit_map_overlay,
  update_inventory_overlay, handle_chat_keys, handle_mode_switch_key, handle_pickup_key,
  check_pause, update_unfocus_freeze, restore_focus,
}
use lodeen.Client.App.Pilot.{SeatKeys, update_rocket_mode}
use lodeen.Client.App.Slots.{sync_inv_slots}
use lodeen.Client.App.State.{App}
use lodeen.Client.Input.{Raylib, Vector2}

-- What a frame reads from outside: the clock, the length of the frame, the mouse and the keys.
-- `written` is whether the socket takes what is written; `text` turns typed bytes into a string.
pub record FrameInputs (F : Type 0) : Type 0 where
  pub written : Bool
  pub now : ℕ
  pub dt : F
  pub mouse : Vector2 F
  pub seat : SeatKeys F
  pub pressed : Pressed
  pub text : List ℕ → String

module _ {F Q : Type 0} where
  -- `if a.helper() { return }`, and the rest of the frame.
  unfoldable pub proceed : App F Q × Bool → (App F Q → App F Q) → App F Q
  proceed (a, true) rest = a
  proceed (a, false) rest = rest a

module _ {F : Type 0} ⦃fl : Float F⦄ ⦃rl : Raylib F⦄ where
  -- From the check of the hit points to the end.
  unfoldable pub finish_playing : FrameInputs F → App F rl.Quaternion → App F rl.Quaternion
  unfolding proceed
  finish_playing i a = proceed (check_death a) (λ a1. proceed (check_pause i.pressed a1) (λ a2.
      proceed (update_unfocus_freeze i.pressed a2) (λ a3.
        emit_player_state (update_flight_physics i.dt i.mouse i.seat.held (restore_focus a3)))))

  -- The keys and the click of a frame without windows.
  unfoldable pub act : FrameInputs F → App F rl.Quaternion → App F rl.Quaternion
  unfolding finish_playing
  act i a =
      let held = sync_held_item i.written (update_slot_wheel i.seat.held.wheel a) in
      proceed (handle_chat_keys i.pressed held) (λ a1.
        let mounted =
          handle_mount_key i.seat.e_pressed i.written (handle_pickup_key i.written i.pressed a1) in
        proceed (handle_mouse_click i.pressed.left_click i.written i.now mounted)
          (finish_playing i))

  -- The windows, each of which may take the frame.
  unfoldable pub pass_windows : FrameInputs F → App F rl.Quaternion → App F rl.Quaternion
  unfolding act
  pass_windows i a = proceed (update_dialog_overlays i.now i.pressed a) (λ a1.
      proceed (update_chat_overlay i.written i.text i.pressed (sync_hp_from_network a1)) (λ a2.
        proceed (update_orbit_map_overlay i.pressed a2) (λ a3.
          proceed (update_inventory_overlay i.pressed (handle_mode_switch_key i.pressed a3))
            (act i))))

  unfoldable pub update_playing : FrameInputs F → App F rl.Quaternion → App F rl.Quaternion
  unfolding pass_windows
  update_playing i a =
      let sorted : App F rl.Quaternion = record a {
        inv_slots = sync_inv_slots a.nc.inventory a.inv_slots;
      } in
      proceed (update_rocket_mode i.written i.now i.dt i.mouse i.seat sorted) (λ a1.
        let moved = sync_flight_bodies i.dt a1 in
        pass_windows i (apply_ui_lock moved.chat.is_open moved))
