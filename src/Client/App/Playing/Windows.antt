-- ===== src/Client/App/Playing/Windows.antt =====
-- The windows of a frame and the end of it keep the flight controller.
use lodeen.Base.Float.{Float}
use lodeen.Base.{ℕ, String, Bool, true, false, not, ◌||◌, List, refl, if◌then◌else◌}
use lodeen.Client.App.Frames.{
  sync_flight_bodies, hold, apply_ui_lock, sync_hp_from_network, check_death, emit_player_state,
}
use lodeen.Client.App.Overlays.{
  Pressed, is_too_soon, update_contract, update_factory, update_dialog_overlays,
  update_chat_overlay, toggle_windows, update_inventory_overlay, handle_chat_keys,
  handle_mode_switch_key, remember_pause, check_pause, freeze, update_unfocus_freeze,
}
use lodeen.Base.Int.{pos, ltb_ℤ}
use lodeen.Client.App.State.{App}
use lodeen.Client.Input.{Raylib}
use lodeen.Client.App.Playing.Flies.{
  Flies, FliesOn, if-Flies, if-FliesOn, maybe-Flies, maybe-FliesOn, stays,
}

module _ {F Q : Type 0} where
  pub update_dialog_overlays-FliesOn :
      (now : ℕ) (pressed : Pressed) (a : App F Q)
      → Flies a
      → FliesOn (update_dialog_overlays now pressed a)
  unfolding update_dialog_overlays update_contract update_factory
  update_dialog_overlays-FliesOn now pressed a h =
      let shut : (b : App F Q) → Flies b → FliesOn (b, true) = λ b k. record { on = k } in
      if-FliesOn a.show_contract _ _
        (shut _ (
          if-Flies (is_too_soon now a.contract_opened_at) a _ h
            (if-Flies pressed.escape _ a (record { has = h.has }) h)))
        (if-FliesOn a.show_factory _ _
          (shut _ (
            if-Flies (is_too_soon now a.factory_opened_at) a _ h
              (if-Flies pressed.escape _ a (record { has = h.has }) h)))
          (record { on = h }))

  pub update_chat_overlay-FliesOn :
      (written : Bool) (text : List ℕ → String) (pressed : Pressed) (a : App F Q)
      → Flies a
      → FliesOn (update_chat_overlay written text pressed a)
  unfolding update_chat_overlay
  update_chat_overlay-FliesOn written text pressed a h =
      if-FliesOn (not a.chat.is_open) _ _ (record { on = h })
        (record { on = record { has = h.has } })

  pub update_inventory_overlay-FliesOn :
      (pressed : Pressed) (a : App F Q) → Flies a → FliesOn (update_inventory_overlay pressed a)
  unfolding update_inventory_overlay toggle_windows
  update_inventory_overlay-FliesOn pressed a h =
      let b = toggle_windows pressed a in
      if-FliesOn (not (b.show_inventory || b.show_craft)) _ _
        (record { on = record { has = h.has } })
        (stays _ true
          (if-Flies pressed.escape _ _ (record { has = h.has }) (record { has = h.has })))

  pub handle_chat_keys-FliesOn :
      (pressed : Pressed) (a : App F Q) → Flies a → FliesOn (handle_chat_keys pressed a)
  unfolding handle_chat_keys
  handle_chat_keys-FliesOn pressed a h =
      if-FliesOn pressed.t _ _ (record { on = record { has = h.has } })
        (if-FliesOn pressed.slash _ _ (record { on = record { has = h.has } }) (record { on = h }))

module _ {F : Type 0} ⦃fl : Float F⦄ ⦃rl : Raylib F⦄ where
  pub sync_flight_bodies-Flies :
      (dt : F) (a : App F rl.Quaternion) → Flies a → Flies (sync_flight_bodies dt a)
  unfolding sync_flight_bodies
  sync_flight_bodies-Flies dt a h = maybe-Flies a.flight a _ h (λ f. record { has = refl })

  pub apply_ui_lock-Flies :
      (chat_open : Bool) (a : App F rl.Quaternion) → Flies a → Flies (apply_ui_lock chat_open a)
  unfolding apply_ui_lock hold
  apply_ui_lock-Flies chat_open a h =
      let any_ui =
        a.show_inventory || a.show_craft || a.show_contract || a.show_factory || chat_open in
      let freed : App F rl.Quaternion = record a { flight_locked = false } in
      maybe-Flies a.flight freed (λ f. if any_ui then hold f a else freed) (record { has = h.has })
        (λ f. if-Flies any_ui (hold f a) freed (record { has = refl }) (record { has = h.has }))

  pub handle_mode_switch_key-Flies :
      (pressed : Pressed) (a : App F rl.Quaternion)
      → Flies a
      → Flies (handle_mode_switch_key pressed a)
  unfolding handle_mode_switch_key
  handle_mode_switch_key-Flies pressed a h =
      maybe-Flies a.flight a _ h (λ f. if-Flies pressed.f1 _ a (record { has = refl }) h)

  pub sync_hp_from_network-Flies :
      (a : App F rl.Quaternion) → Flies a → Flies (sync_hp_from_network a)
  unfolding sync_hp_from_network
  sync_hp_from_network-Flies a h =
      if-Flies (ltb_ℤ (pos 0) a.nc.own_hp || a.hp_received) _ a (record { has = h.has }) h

  pub check_pause-FliesOn :
      (pressed : Pressed) (a : App F rl.Quaternion) → Flies a → FliesOn (check_pause pressed a)
  unfolding check_pause remember_pause
  check_pause-FliesOn pressed a h =
      let noted =
        maybe-Flies a.flight a (λ f. if f.helio_init then remember_pause f a else a) h
          (λ f. if-Flies f.helio_init _ a (record { has = h.has }) h) in
      if-FliesOn pressed.escape _ _ (record { on = record { has = noted.has } }) (record { on = h })

  pub update_unfocus_freeze-FliesOn :
      (pressed : Pressed) (a : App F rl.Quaternion)
      → Flies a
      → FliesOn (update_unfocus_freeze pressed a)
  unfolding update_unfocus_freeze freeze
  update_unfocus_freeze-FliesOn pressed a h =
      if-FliesOn pressed.focused _ _ (record { on = h })
        (maybe-FliesOn a.flight _ _ (record { on = h })
          (λ f. record { on = if-Flies f.helio_init _ a (record { has = refl }) h }))

  pub check_death-FliesOn : (a : App F rl.Quaternion) → Flies a → FliesOn (check_death a)
  unfolding check_death
  check_death-FliesOn a h =
      if-FliesOn (not a.hp_received || ltb_ℤ (pos 0) a.hp) _ _ (record { on = h })
        (record { on = record { has = h.has } })

  pub emit_player_state-Flies : (a : App F rl.Quaternion) → Flies a → Flies (emit_player_state a)
  unfolding emit_player_state
  emit_player_state-Flies a h = maybe-Flies a.flight a _ h (λ f. record { has = h.has })
