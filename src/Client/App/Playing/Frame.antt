-- ===== src/Client/App/Playing/Frame.antt =====
-- The flight controller is there through a whole frame of the game.
use lodeen.Base.Float.{Float}
use lodeen.Base.{refl}
use lodeen.Client.App.Frames.{smooth_camera, update_flight_physics}
use lodeen.Client.App.Overlays.{update_orbit_map_overlay, restore_focus}
use lodeen.Client.App.Playing.{FrameInputs, finish_playing, act, pass_windows, update_playing}
use lodeen.Client.App.State.{App}
use lodeen.Client.Input.{Raylib}
use lodeen.Client.App.Playing.Flies.{Flies, maybe-Flies, proceed-Flies}
use lodeen.Client.App.Playing.Windows.{
  update_dialog_overlays-FliesOn, update_chat_overlay-FliesOn, update_inventory_overlay-FliesOn,
  handle_chat_keys-FliesOn, sync_flight_bodies-Flies, apply_ui_lock-Flies,
  handle_mode_switch_key-Flies, sync_hp_from_network-Flies, check_pause-FliesOn,
  update_unfocus_freeze-FliesOn, check_death-FliesOn, emit_player_state-Flies,
}
use lodeen.Client.App.Playing.Hands.{
  handle_pickup_key-Flies, handle_mount_key-Flies, update_slot_wheel-Flies, sync_held_item-Flies,
  handle_mouse_click-FliesOn, update_rocket_mode-FliesOn,
}

module _ {F : Type 0} ⦃fl : Float F⦄ ⦃rl : Raylib F⦄ where
  finish_playing-Flies :
      (i : FrameInputs F) (a : App F rl.Quaternion) → Flies a → Flies (finish_playing i a)
  unfolding finish_playing restore_focus update_flight_physics smooth_camera
  finish_playing-Flies i a h = proceed-Flies _ _ (check_death-FliesOn a h) (λ a1 h1.
      proceed-Flies _ _ (check_pause-FliesOn i.pressed a1 h1) (λ a2 h2.
        proceed-Flies _ _ (update_unfocus_freeze-FliesOn i.pressed a2 h2) (λ a3 h3.
          emit_player_state-Flies _ (
            maybe-Flies a3.flight (restore_focus a3) _ (record { has = h3.has })
              (λ f. record { has = refl })))))

  act-Flies : (i : FrameInputs F) (a : App F rl.Quaternion) → Flies a → Flies (act i a)
  unfolding act
  act-Flies i a h =
      let turned = update_slot_wheel-Flies i.seat.held.wheel a h in
      proceed-Flies _ _
        (handle_chat_keys-FliesOn i.pressed _ (sync_held_item-Flies i.written _ turned))
        (λ a1 h1.
          proceed-Flies _ _
            (handle_mouse_click-FliesOn i.pressed.left_click i.written i.now _ (
              handle_mount_key-Flies i.seat.e_pressed i.written _
                (handle_pickup_key-Flies i.written i.pressed a1 h1)))
            (finish_playing-Flies i))

  pass_windows-Flies :
      (i : FrameInputs F) (a : App F rl.Quaternion) → Flies a → Flies (pass_windows i a)
  unfolding pass_windows update_orbit_map_overlay
  pass_windows-Flies i a h =
      proceed-Flies _ _ (update_dialog_overlays-FliesOn i.now i.pressed a h) (λ a1 h1.
        proceed-Flies _ _
          (update_chat_overlay-FliesOn i.written i.text i.pressed _
            (sync_hp_from_network-Flies a1 h1))
          (λ a2 h2.
            proceed-Flies (update_orbit_map_overlay i.pressed a2) _
              (record { on = record { has = h2.has } })
              (λ a3 h3.
                proceed-Flies _ _
                  (update_inventory_overlay-FliesOn i.pressed _
                    (handle_mode_switch_key-Flies i.pressed a3 h3))
                  (act-Flies i))))

  -- A frame of the game that begins with a flight controller ends with one: whatever keys, clicks,
  -- windows and messages there are, none of its parts dereferences nil.
  pub update_playing-Flies :
      (i : FrameInputs F) (a : App F rl.Quaternion) → Flies a → Flies (update_playing i a)
  unfolding update_playing
  update_playing-Flies i a h =
      proceed-Flies _ _
        (update_rocket_mode-FliesOn i.written i.now i.dt i.mouse i.seat _ (record { has = h.has }))
        (λ a1 h1.
          pass_windows-Flies i _ (apply_ui_lock-Flies _ _ (sync_flight_bodies-Flies i.dt a1 h1)))
