-- ===== src/Client/App/Playing/Hands.antt =====
-- The keys, the clicks and the seat of a rocket keep the flight controller.
use lodeen.Base.Float.{Float}
use lodeen.Base.{ℕ, String, Bool, not, refl, ◌==◌, if◌then◌else◌}
use lodeen.Client.App.Clicks.{
  throw_spear, handle_held_item_click, handle_empty_hand_click, click, handle_mouse_click,
}
use lodeen.Client.App.Mounts.{
  mount_nearby, press_mount, handle_mount_key, update_slot_wheel, sync_held_item,
}
use lodeen.Client.App.Overlays.{Pressed, handle_pickup_key}
use lodeen.Client.App.Pilot.{
  SeatKeys, fly_rocket, look_from_rocket, update_piloted_rocket, update_rocket_mode,
  find_piloted_rocket,
}
use lodeen.Client.App.Sight.{
  Gaze, well_in_sight, rocket_in_sight, factory_in_sight, pink_mob_in_sight, boat_nearby,
  saddled_mammoth_nearby,
}
use lodeen.Client.App.Slots.{held_item}
use lodeen.Client.App.State.{App, gaze}
use lodeen.Client.Input.{Raylib, Vector2, FlightController, creative, survival}
use lodeen.Client.App.Playing.Flies.{
  Flies, FliesOn, if-Flies, if-FliesOn, maybe-Flies, maybe-FliesOn, seat_answer-FliesOn,
}

module _ {F : Type 0} ⦃fl : Float F⦄ ⦃rl : Raylib F⦄ where
  pub handle_pickup_key-Flies :
      (written : Bool) (pressed : Pressed) (a : App F rl.Quaternion)
      → Flies a
      → Flies (handle_pickup_key written pressed a)
  unfolding handle_pickup_key
  handle_pickup_key-Flies written pressed a h =
      maybe-Flies a.flight a _ h (λ f. if-Flies pressed.f _ a (record { has = h.has }) h)

  pub press_mount-Flies :
      (written : Bool) (f : FlightController F rl.Quaternion) (a : App F rl.Quaternion)
      → Flies a
      → Flies (press_mount written f a)
  unfolding press_mount mount_nearby
  press_mount-Flies written f a h =
      if-Flies (not (a.riding_id == "")) _ _ (record { has = refl })
        (if-Flies (not (a.boat_id == "")) _ _ (record { has = refl })
          (if-Flies (not (saddled_mammoth_nearby (gaze a f) a.nc == "")) _ _ (record { has = refl })
            (if-Flies (not (boat_nearby (gaze a f) a.nc == "")) _ a (record { has = refl }) h)))

  pub handle_mount_key-Flies :
      (pressed written : Bool) (a : App F rl.Quaternion)
      → Flies a
      → Flies (handle_mount_key pressed written a)
  unfolding handle_mount_key
  handle_mount_key-Flies pressed written a h =
      maybe-Flies a.flight a (λ f. if pressed then press_mount written f a else a) h
        (λ f. if-Flies pressed (press_mount written f a) a (press_mount-Flies written f a h) h)

  pub update_slot_wheel-Flies :
      (wheel : F) (a : App F rl.Quaternion) → Flies a → Flies (update_slot_wheel wheel a)
  unfolding update_slot_wheel
  update_slot_wheel-Flies wheel a h = maybe-Flies a.flight a _ h (λ f.
      elim f.mode
        as (λ m. Flies (elim m as (λ _. App F rl.Quaternion) [ creative ↦ a | survival ↦ _ ])) [
          | creative ↦ h
          | survival ↦ record { has = h.has }
        ])

  pub sync_held_item-Flies :
      (written : Bool) (a : App F rl.Quaternion) → Flies a → Flies (sync_held_item written a)
  unfolding sync_held_item
  sync_held_item-Flies written a h =
      if-Flies (held_item a.selected_slot a.inv_slots == a.last_sent_held) a _ h
        (record { has = h.has })

  pub handle_empty_hand_click-FliesOn :
      (written : Bool) (now : ℕ) (g : Gaze F) (a : App F rl.Quaternion)
      → Flies a
      → FliesOn (handle_empty_hand_click written now g a)
  unfolding handle_empty_hand_click
  handle_empty_hand_click-FliesOn written now g a h =
      if-FliesOn (not (rocket_in_sight g a.nc == "")) _ _ (record { on = record { has = h.has } })
        (if-FliesOn (not (factory_in_sight g a.nc == "")) _ _
          (record { on = record { has = h.has } })
          (if-FliesOn (not ((pink_mob_in_sight g a.nc).0 == "")) _ _
            (record { on = record { has = h.has } }) (record { on = record { has = h.has } })))

  pub handle_held_item_click-Flies :
      (written : Bool) (now : ℕ) (held : String) (g : Gaze F) (a : App F rl.Quaternion)
      → Flies a
      → Flies (handle_held_item_click written now held g a)
  unfolding handle_held_item_click throw_spear
  handle_held_item_click-Flies written now held g a h =
      if-Flies (held == "spear") _ _ (record { has = h.has }) (record { has = h.has })

  pub click-FliesOn :
      (written : Bool) (now : ℕ) (f : FlightController F rl.Quaternion) (a : App F rl.Quaternion)
      → Flies a
      → FliesOn (click written now f a)
  unfolding click
  click-FliesOn written now f a h =
      let held = held_item a.selected_slot a.inv_slots in
      if-FliesOn (not (well_in_sight (gaze a f) a.nc == "")) _ _
        (record { on = record { has = h.has } })
        (if-FliesOn (held == "") _ _ (handle_empty_hand_click-FliesOn written now (gaze a f) a h)
          (record { on = handle_held_item_click-Flies written now held (gaze a f) a h }))

  pub handle_mouse_click-FliesOn :
      (pressed written : Bool) (now : ℕ) (a : App F rl.Quaternion)
      → Flies a
      → FliesOn (handle_mouse_click pressed written now a)
  unfolding handle_mouse_click
  handle_mouse_click-FliesOn pressed written now a h =
      maybe-FliesOn a.flight _ _ (record { on = h })
        (λ f. if-FliesOn pressed _ _ (click-FliesOn written now f a h) (record { on = h }))

  pub update_rocket_mode-FliesOn :
      (written : Bool) (now : ℕ) (dt : F) (mouse : Vector2 F) (keys : SeatKeys F)
      (a : App F rl.Quaternion)
      → Flies a
      → FliesOn (update_rocket_mode written now dt mouse keys a)
  unfolding update_rocket_mode update_piloted_rocket fly_rocket look_from_rocket
  update_rocket_mode-FliesOn written now dt mouse keys a h =
      maybe-FliesOn a.flight _ _ (record { on = h })
        (λ f.
          if-FliesOn _ _ _ (record { on = h })
            (seat_answer-FliesOn _ (
              maybe-FliesOn (find_piloted_rocket a.rocket_id a.nc.rockets) _ _ (record { on = h })
                (λ r.
                  if-FliesOn keys.e_pressed _ _ (record { on = record { has = refl } })
                    (record { on = record { has = refl } })))))
