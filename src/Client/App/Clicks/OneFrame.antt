-- ===== src/Client/App/Clicks/OneFrame.antt =====
-- How many frames a click writes.
use lodeen.Base.Float.{Float}
use lodeen.Base.{
  ℕ, ◌+◌, ◌≤◌, arith, String, Bool, true, false, not, ◌||◌, [], ◌∷◌, Option, none, some, inl, inr,
  ◌==◌, length, if◌then◌else◌, length-append, Bool-cases, Option-cases,
}
use lodeen.Client.App.Clicks.{
  use_fruit, use_water, use_leash, use_saddle, place_structure, use_item, throw_spear,
  handle_held_item_click, touch, handle_empty_hand_click, click, handle_mouse_click,
}
use lodeen.Client.App.Sight.{
  Gaze, well_in_sight, rocket_in_sight, factory_in_sight, pink_mob_in_sight, house_in_sight,
  saddled_mammoth_nearby,
}
use lodeen.Client.App.Slots.{held_item}
use lodeen.Client.App.State.{App, gaze}
use lodeen.Client.Input.{Raylib, FlightController}
use lodeen.Client.Net.{Client}
use lodeen.Client.Net.Actions
use lodeen.Server.Dispatch.{Request}

module _ {F : Type 0} where
  -- The frames written to the open connection so far.
  abbrev pub frames : Client F → ℕ
  frames c = elim c.conn [ none ↦ 0 | some sent ↦ length sent ]

  pub record AtMostOne (c d : Client F) : Type 0 where
    pub fits : frames d ≤ frames c + 1

  send-AtMostOne :
      (written : Bool) (request : Request F) (c : Client F)
      → AtMostOne c (Actions.send written request c).0
  unfolding Actions.send
  send-AtMostOne written request c = record {
    fits = elim (Option-cases c.conn) [
      | inl none_yet ↦ rw none_yet (ground arith)
      | inr (sent, e) ↦ rw e (ground (arith, length-append sent (request ∷ [])))
    ];
  }

  nothing-AtMostOne : (c : Client F) → AtMostOne c c
  nothing-AtMostOne c = record { fits = omega arith }

  if-AtMostOne :
      (test : Bool) (c d e : Client F)
      → AtMostOne c d
      → AtMostOne c e
      → AtMostOne c (if test then d else e)
  if-AtMostOne true c d e h k = h
  if-AtMostOne false c d e h k = k

module _ {F : Type 0} ⦃fl : Float F⦄ ⦃rl : Raylib F⦄ (written : Bool) where
  use_fruit-AtMostOne : (g : Gaze F) (c : Client F) → AtMostOne c (use_fruit written g c)
  unfolding use_fruit Actions.plant_seed Actions.tame_mammoth
  use_fruit-AtMostOne g c =
      if-AtMostOne _ c _ _ (send-AtMostOne written _ c) (send-AtMostOne written _ c)

  use_water-AtMostOne : (g : Gaze F) (c : Client F) → AtMostOne c (use_water written g c)
  unfolding use_water Actions.water_plant
  use_water-AtMostOne g c = if-AtMostOne _ c _ _ (nothing-AtMostOne c) (send-AtMostOne written _ c)

  use_leash-AtMostOne : (g : Gaze F) (c : Client F) → AtMostOne c (use_leash written g c)
  unfolding use_leash Actions.leash_mammoth
  use_leash-AtMostOne g c = if-AtMostOne _ c _ _ (nothing-AtMostOne c) (send-AtMostOne written _ c)

  use_saddle-AtMostOne : (g : Gaze F) (c : Client F) → AtMostOne c (use_saddle written g c)
  unfolding use_saddle Actions.saddle_mammoth
  use_saddle-AtMostOne g c = if-AtMostOne _ c _ _ (nothing-AtMostOne c) (send-AtMostOne written _ c)

  place_structure-AtMostOne :
      (kind : String) (g : Gaze F) (c : Client F) → AtMostOne c (place_structure written kind g c)
  unfolding place_structure Actions.place_house Actions.place_solar Actions.place_battery
      Actions.place_factory
  place_structure-AtMostOne kind g c =
      if-AtMostOne (kind == "house") c _ _ (send-AtMostOne written _ c) (
        if-AtMostOne (kind == "solar") c _ _ (send-AtMostOne written _ c) (
          if-AtMostOne (kind == "battery") c _ _ (send-AtMostOne written _ c) (
            if-AtMostOne (kind == "factory") c _ _ (send-AtMostOne written _ c)
              (nothing-AtMostOne c))))

  use_item-AtMostOne :
      (held : String) (g : Gaze F) (c : Client F) → AtMostOne c (use_item written held g c)
  unfolding use_item Actions.place_rocket Actions.place_boat
  use_item-AtMostOne held g c = if-AtMostOne (held == "fruit") c _ _ (use_fruit-AtMostOne g c) (
      if-AtMostOne (held == "water") c _ _ (use_water-AtMostOne g c) (
        if-AtMostOne (held == "leash") c _ _ (use_leash-AtMostOne g c) (
          if-AtMostOne
            (held == "house" || held == "solar" || held == "battery" || held == "factory") c _ _
            (place_structure-AtMostOne held g c)
            (if-AtMostOne (held == "rocket") c _ _ (send-AtMostOne written _ c) (
              if-AtMostOne (held == "boat") c _ _ (send-AtMostOne written _ c) (
                if-AtMostOne (held == "saddle") c _ _ (use_saddle-AtMostOne g c)
                  (nothing-AtMostOne c)))))))

  touch-AtMostOne : (g : Gaze F) (c : Client F) → AtMostOne c (touch written g c)
  unfolding touch Actions.toggle_door Actions.saddle_mammoth
  touch-AtMostOne g c =
      if-AtMostOne (not (house_in_sight g c == "")) c _ _ (send-AtMostOne written _ c) (
        if-AtMostOne (not (saddled_mammoth_nearby g c == "")) c _ _ (send-AtMostOne written _ c)
          (nothing-AtMostOne c))

  -- The same of the game, with an answer.
  pub record Writes (a : App F rl.Quaternion) (r : App F rl.Quaternion × Bool) : Type 0 where
    pub at_most_one : AtMostOne a.nc r.0.nc

  if-Writes :
      (test : Bool) (a : App F rl.Quaternion) (r s : App F rl.Quaternion × Bool)
      → Writes a r
      → Writes a s
      → Writes a (if test then r else s)
  if-Writes true a r s h k = h
  if-Writes false a r s h k = k

  maybe-Writes :
      {A : Type 0} (o : Option A) (a : App F rl.Quaternion) (r : App F rl.Quaternion × Bool)
      (s : A → App F rl.Quaternion × Bool)
      → Writes a r
      → ((x : A) → Writes a (s x))
      → Writes a (elim o [ none ↦ r | some x ↦ s x ])
  maybe-Writes none a r s h k = h
  maybe-Writes (some x) a r s h k = k x

  handle_empty_hand_click-Writes :
      (now : ℕ) (g : Gaze F) (a : App F rl.Quaternion)
      → Writes a (handle_empty_hand_click written now g a)
  unfolding handle_empty_hand_click Actions.board_rocket
  handle_empty_hand_click-Writes now g a =
      if-Writes (not (rocket_in_sight g a.nc == "")) a _ _
        (record { at_most_one = send-AtMostOne written _ a.nc })
        (if-Writes (not (factory_in_sight g a.nc == "")) a _ _
          (record { at_most_one = nothing-AtMostOne a.nc })
          (if-Writes (not ((pink_mob_in_sight g a.nc).0 == "")) a _ _
            (record { at_most_one = nothing-AtMostOne a.nc })
            (record { at_most_one = touch-AtMostOne g a.nc })))

  handle_held_item_click-AtMostOne :
      (now : ℕ) (held : String) (g : Gaze F) (a : App F rl.Quaternion)
      → AtMostOne a.nc (handle_held_item_click written now held g a).nc
  unfolding handle_held_item_click throw_spear Actions.throw_spear
  handle_held_item_click-AtMostOne now held g a = elim (Bool-cases (held == "spear")) [
    | inl spear ↦ rw spear (send-AtMostOne written _ a.nc)
    | inr other ↦ rw other (use_item-AtMostOne held g a.nc)
  ]

  click-Writes :
      (now : ℕ) (f : FlightController F rl.Quaternion) (a : App F rl.Quaternion)
      → Writes a (click written now f a)
  unfolding click Actions.take_water
  click-Writes now f a =
      let held = held_item a.selected_slot a.inv_slots in
      let used : Writes a (handle_held_item_click written now held (gaze a f) a, false) = record {
        at_most_one = handle_held_item_click-AtMostOne now held (gaze a f) a;
      } in
      if-Writes (not (well_in_sight (gaze a f) a.nc == "")) a _ _
        (record { at_most_one = send-AtMostOne written _ a.nc })
        (if-Writes (held == "") a _ _ (handle_empty_hand_click-Writes now (gaze a f) a) used)

  -- The handling of the mouse writes at most one frame to the connection, whether the left button
  -- was pressed or not and whatever is in sight, in the hand or near.
  pub handle_mouse_click-Writes :
      (pressed : Bool) (now : ℕ) (a : App F rl.Quaternion)
      → Writes a (handle_mouse_click pressed written now a)
  unfolding handle_mouse_click
  handle_mouse_click-Writes pressed now a =
      let still : Writes a (a, false) = record { at_most_one = nothing-AtMostOne a.nc } in
      maybe-Writes a.flight a (a, false) _ still
        (λ f. if-Writes pressed a _ _ (click-Writes now f a) still)
