-- ===== src/Client/App/Overlays.antt =====
-- The windows over the game, the pause and the loss of focus:
-- internal/client/app/update_playing_overlays.go, `updateContract` of contract.go, `updateFactory` of
-- factory.go, `handleChatKeys` and `handlePickupKey` of update_playing_input.go, `checkPause`,
-- `updateUnfocusFreeze` and `restoreFocus` of update_playing.go, and the pause in update.go. The
-- keys of the orbit map change only how it is drawn; the cursor is not kept.
use lodeen.Base.Float.{Float}
use lodeen.Base.Int.{pos, ltb_ℤ}
use lodeen.Base.{
  ℕ, ◌*◌, String, Bool, true, false, not, ◌&&◌, ◌||◌, List, [], ◌∷◌, Option, none, some,
  if◌then◌else◌,
}
use lodeen.Client.App.Sight.{try_pickup}
use lodeen.Client.App.State.{App, GameMode, menu, playing, paused, dead, vector3_sub, vector3_sum}
use lodeen.Client.Chat.{Typed, begin, begin_with}
use lodeen.Client.Chat
use lodeen.Client.Input.{Raylib, FlightController, Mode, creative, survival}
use lodeen.Client.Input.Flight.{up, switch_mode}
use lodeen.Client.Input.Survival.{tick_physics_only}
use lodeen.Client.Net
use lodeen.Client.Net.Actions
use lodeen.Server.Time.{time_sub, millisecond}

-- What goes down in a frame, beside the keys of movement.
pub record Pressed : Type 0 where
  pub escape : Bool
  pub m : Bool
  pub c : Bool
  pub i : Bool
  pub t : Bool
  pub slash : Bool
  pub f : Bool
  pub f1 : Bool
  pub left_click : Bool
  pub typed : Typed
  pub focused : Bool

-- A window ignores its keys for a quarter of a second.
unfoldable pub is_too_soon : ℕ → ℕ → Bool
is_too_soon now opened_at = ltb_ℤ (time_sub now opened_at) (pos (250 * millisecond))

abbrev pub is_paused : GameMode → Bool
is_paused menu = false
is_paused playing = false
is_paused paused = true
is_paused dead = false

unfoldable pub other_mode : Mode → Mode
other_mode creative = survival
other_mode survival = creative

module _ {F : Type 0} where
  -- What was typed, if it is not empty, is sent; `text` is the string of the bytes.
  unfoldable pub say_typed :
      Bool → (List ℕ → String) → Option (List ℕ) → Net.Client F → Net.Client F
  say_typed written text none c = c
  say_typed written text (some []) c = c
  say_typed written text (some (b ∷ bs)) c = (Actions.send_chat written (text (b ∷ bs)) c).0

module _ {F Q : Type 0} where
  unfoldable pub update_contract : ℕ → Pressed → App F Q → App F Q
  unfolding is_too_soon
  update_contract now pressed a =
      if is_too_soon now a.contract_opened_at
      then a
      else if pressed.escape
      then record a { show_contract = false; contract_mob_id = "" }
      else a

  unfoldable pub update_factory : ℕ → Pressed → App F Q → App F Q
  unfolding is_too_soon
  update_factory now pressed a =
      if is_too_soon now a.factory_opened_at
      then a
      else if pressed.escape
      then record a { show_factory = false; factory_id = "" }
      else a

  -- With the answer whether the window takes the frame, here and below.
  unfoldable pub update_dialog_overlays : ℕ → Pressed → App F Q → App F Q × Bool
  unfolding update_contract update_factory
  update_dialog_overlays now pressed a =
      if a.show_contract
      then (update_contract now pressed a, true)
      else if a.show_factory
      then (update_factory now pressed a, true)
      else (a, false)

  unfoldable pub update_chat_overlay : Bool → (List ℕ → String) → Pressed → App F Q → App F Q × Bool
  unfolding say_typed
  update_chat_overlay written text pressed a =
      let (chat, sent) = Chat.update pressed.typed a.chat in
      if not a.chat.is_open
      then (a, false)
      else (record a { chat = chat; nc = say_typed written text sent a.nc }, true)

  unfoldable pub update_orbit_map_overlay : Pressed → App F Q → App F Q × Bool
  update_orbit_map_overlay pressed a =
      let shown = if pressed.m then not a.show_orbit_map else a.show_orbit_map in
      (record a { show_orbit_map = shown }, shown)

  -- C opens the crafting window, I opens and closes the inventory.
  unfoldable pub toggle_windows : Pressed → App F Q → App F Q
  toggle_windows pressed a =
      let inventory0 = if pressed.c then false else a.show_inventory in
      let craft0 = pressed.c || a.show_craft in
      let inventory = if pressed.i then not inventory0 else inventory0 in
      let craft = if pressed.i && inventory then false else craft0 in
      record a { show_inventory = inventory; show_craft = craft }

  unfoldable pub update_inventory_overlay : Pressed → App F Q → App F Q × Bool
  unfolding toggle_windows
  update_inventory_overlay pressed a0 =
      let a = toggle_windows pressed a0 in
      let closed : App F Q = record a { show_inventory = false; show_craft = false } in
      if not (a.show_inventory || a.show_craft)
      then (a, false)
      else ((if pressed.escape then closed else a), true)

  -- `slash` is the string "/" as bytes.
  unfoldable pub handle_chat_keys : Pressed → App F Q → App F Q × Bool
  handle_chat_keys pressed a =
      if pressed.t
      then (record a { chat = begin a.chat }, true)
      else if pressed.slash
      then (record a { chat = begin_with (b'/' ∷ []) a.chat }, true)
      else (a, false)

module _ {F : Type 0} ⦃fl : Float F⦄ ⦃rl : Raylib F⦄ where
  unfoldable pub handle_mode_switch_key : Pressed → App F rl.Quaternion → App F rl.Quaternion
  handle_mode_switch_key pressed a = elim a.flight [
    | none ↦ a
    | some f ↦
        if pressed.f1 then record a { flight = some (switch_mode (other_mode f.mode) f) } else a
  ]

  unfoldable pub handle_pickup_key : Bool → Pressed → App F rl.Quaternion → App F rl.Quaternion
  handle_pickup_key written pressed a = elim a.flight [
    | none ↦ a
    | some f ↦ if pressed.f then record a { nc = try_pickup written f.at a.nc } else a
  ]

  -- The place and the velocity in the planet's frame.
  unfoldable pub remember_pause :
      FlightController F rl.Quaternion → App F rl.Quaternion → App F rl.Quaternion
  unfolding vector3_sub
  remember_pause f a = record a {
    pause = record (a.pause) {
      paused_rel_pos = vector3_sub f.at a.earth_pos;
      paused_rel_vel = vector3_sub f.vel a.earth_vel;
    };
  }

  unfoldable pub check_pause : Pressed → App F rl.Quaternion → App F rl.Quaternion × Bool
  unfolding remember_pause
  check_pause pressed a =
      let noted : App F rl.Quaternion = elim a.flight [
        | none ↦ a
        | some f ↦ if f.helio_init then remember_pause f a else a
      ] in
      if pressed.escape then (record noted { mode = paused }, true) else (a, false)

  -- The window without the focus holds the player on the planet.
  unfoldable pub freeze :
      FlightController F rl.Quaternion → App F rl.Quaternion → App F rl.Quaternion
  unfolding vector3_sub vector3_sum
  freeze f a =
      let rel_pos =
        if a.pause.unfocus_freeze then a.pause.unfocus_rel_pos else vector3_sub f.at a.earth_pos in
      let rel_vel =
        if a.pause.unfocus_freeze then a.pause.unfocus_rel_vel else vector3_sub f.vel a.earth_vel in
      let g : FlightController F rl.Quaternion = record f {
        at = vector3_sum a.earth_pos rel_pos;
        vel = vector3_sum a.earth_vel rel_vel;
      } in
      record a {
        pause = record (a.pause) {
          unfocus_freeze = true;
          unfocus_rel_pos = rel_pos;
          unfocus_rel_vel = rel_vel;
        };
        flight = some g;
        camera = g.at;
        camera_up = up g;
      }

  unfoldable pub update_unfocus_freeze : Pressed → App F rl.Quaternion → App F rl.Quaternion × Bool
  unfolding freeze
  update_unfocus_freeze pressed a = if pressed.focused then (a, false) else elim a.flight [
    | none ↦ (a, true)
    | some f ↦ ((if f.helio_init then freeze f a else a), true)
  ]

  unfoldable pub restore_focus : App F rl.Quaternion → App F rl.Quaternion
  restore_focus a = record a { pause = record (a.pause) { unfocus_freeze = false } }

  -- While paused, the player falls and stays with the planet.
  unfoldable pub fall_in_pause :
      F → FlightController F rl.Quaternion → App F rl.Quaternion → App F rl.Quaternion
  fall_in_pause dt f a =
      let g =
        tick_physics_only dt (record f { earth_pos = a.earth_pos; earth_vel = a.earth_vel }) in
      record a {
        flight = some g;
        pause = record (a.pause) { paused_rel_pos = g.rel_pos; paused_rel_vel = g.rel_vel };
        camera = g.at;
        camera_up = up g;
      }

  unfoldable pub update_pause_physics : F → App F rl.Quaternion → App F rl.Quaternion
  unfolding fall_in_pause
  update_pause_physics dt a = elim a.flight [
    | none ↦ a
    | some f ↦ if is_paused a.mode && f.helio_init then fall_in_pause dt f a else a
  ]

  unfoldable pub exit_pause : App F rl.Quaternion → App F rl.Quaternion
  unfolding vector3_sum
  exit_pause a = elim a.flight [
    | none ↦ record a { mode = playing }
    | some f ↦
        let g : FlightController F rl.Quaternion = record f {
          vel = vector3_sum a.earth_vel a.pause.paused_rel_vel;
        } in
        record a { mode = playing; flight = some (if f.helio_init then g else f) }
  ]

  unfoldable pub update_paused : Bool → Pressed → App F rl.Quaternion → App F rl.Quaternion
  unfolding handle_pickup_key exit_pause
  update_paused written pressed a =
      let b = handle_pickup_key written pressed a in if pressed.escape then exit_pause b else b
