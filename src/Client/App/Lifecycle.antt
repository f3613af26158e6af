-- ===== src/Client/App/Lifecycle.antt =====
-- The beginning and the end of a game: internal/client/app/connect.go, dead.go, and `SpawnFromID` of
-- internal/client/render/scene.go. The welcome, or what fails, is an argument (Client/Net/Session),
-- and so is the text of an error of the network.
pub mod Steps
use lodeen.Base.Float.{Float, num, ◌⊕◌}
use lodeen.Base.Int.{pos}
use lodeen.Base.{String, Bool, true, false, ◌++◌, some, none, ◌==◌, if◌then◌else◌}
use lodeen.Client.App.State.{App, menu, playing}
use lodeen.Client.Input.{Raylib, new_flight}
use lodeen.Client.Net.{Status, disconnected, connecting, connected}
use lodeen.Client.Net.Session.{Answer, ConnectError, ConnectResult, welcomed, failed, connect}
use lodeen.Client.Net.Session
use lodeen.Protocol.Geometry.{Vector3, planet_radius, player_height}
use lodeen.Server.Chat.{chars, text_of}

-- The keys R and Escape of the screen of death.
pub record DeadKeys : Type 0 where
  pub r : Bool
  pub escape : Bool

module _ {F : Type 0} ⦃fl : Float F⦄ where
  -- Every identifier has the same place on the equator.
  unfoldable pub spawn_from_id : String → Vector3 F
  spawn_from_id id = record { x = planet_radius ⊕ player_height; y = num 0; z = num 0 }

-- `a.nc.Status() == clientnet.StatusConnected`
abbrev pub is_connected : Status → Bool
is_connected disconnected = false
is_connected connecting = false
is_connected connected = true

module _ {F Q : Type 0} where
  unfoldable pub disconnect : App F Q → App F Q
  disconnect a = record a { nc = Session.disconnect a.nc; flight = none; mode = menu }

  unfoldable pub return_to_menu : App F Q → App F Q
  return_to_menu a = record a { hp = pos 100; hp_received = false; mode = menu }

module _ {F : Type 0} ⦃fl : Float F⦄ ⦃rl : Raylib F⦄ (describe : ConnectError → String) where
  unfoldable pub enter_game : ConnectResult → App F rl.Quaternion → App F rl.Quaternion
  unfolding spawn_from_id
  enter_game (failed e) a = record a {
    menu_err = text_of (chars "connect failed: " ++ chars (describe e));
  }
  enter_game (welcomed w) a = record a {
    hp = pos 100;
    flight = some (new_flight (spawn_from_id w.player_id));
    mode = playing;
  }

  unfoldable pub start_connect : Answer F → App F rl.Quaternion → App F rl.Quaternion
  unfolding enter_game
  start_connect network a =
      let (nc, result) = connect network a.menu_nick a.nc in
      if is_connected a.nc.status
      then a
      else if a.menu_nick == ""
      then record a { menu_err = "nick required" }
      else if a.menu_addr == ""
      then record a { menu_err = "server address required" }
      else enter_game result (record a { menu_err = ""; nc = nc })

  unfoldable pub respawn : Answer F → App F rl.Quaternion → App F rl.Quaternion
  unfolding start_connect
  respawn network a = start_connect network (record a { hp = pos 100; hp_received = false })

  unfoldable pub update_dead : DeadKeys → Answer F → App F rl.Quaternion → App F rl.Quaternion
  unfolding respawn return_to_menu
  update_dead keys network a =
      let b = if keys.r then respawn network a else a in if keys.escape then return_to_menu b else b
