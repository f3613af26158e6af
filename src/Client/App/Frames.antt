-- ===== src/Client/App/Frames.antt =====
-- The parts of a frame that keep the player with the planet and the server informed:
-- internal/client/app/update_playing_sync.go, update_playing_physics.go, `checkDeath` of
-- update_playing.go, and `handleTeleport` of update.go.
pub mod Lock
use lodeen.Base.Float.{lit, Float, num, flt}
use lodeen.Base.{
  zero, suc, Bool, true, false, not, ◌&&◌, ◌||◌, List, [], ◌∷◌, Option, none, some, if◌then◌else◌,
}
use lodeen.Base.Int.{pos, ltb_ℤ}
use lodeen.Client.App.State.{App, dead, vector3_sub, vector3_sum}
use lodeen.Client.Input.{Raylib, Vector2, Keys, FlightController}
use lodeen.Client.Input.Flight.{forward, up, update}
use lodeen.Client.Input.Survival.{sync_to_earth_frame}
use lodeen.Client.Net
use lodeen.Client.Net.Actions
use lodeen.Protocol.Geometry.{Vector3, origin, dot_self, sun_pos}
use lodeen.Protocol.Messages.{PlayerState}

module _ {F : Type 0} ⦃fl : Float F⦄ ⦃rl : Raylib F⦄ where
  unfoldable pub sync_flight_bodies : F → App F rl.Quaternion → App F rl.Quaternion
  unfolding sync_to_earth_frame
  sync_flight_bodies dt a = elim a.flight [
    | none ↦ a
    | some f ↦ record a {
      flight = some (
          sync_to_earth_frame dt
            (record f { earth_pos = a.earth_pos; sun_pos = sun_pos; earth_vel = a.earth_vel }));
    }
  ]

  -- The place that an open window holds the player at.
  unfoldable pub lock :
      FlightController F rl.Quaternion → App F rl.Quaternion → Vector3 F × Vector3 F
  unfolding vector3_sub
  lock f a =
      if a.flight_locked
      then (a.locked_rel_pos, a.locked_rel_vel)
      else (vector3_sub f.at a.earth_pos, vector3_sub f.vel a.earth_vel)

  unfoldable pub hold : FlightController F rl.Quaternion → App F rl.Quaternion → App F rl.Quaternion
  unfolding lock vector3_sum
  hold f a =
      let (rel_pos, rel_vel) = lock f a in
      let at = vector3_sum a.earth_pos rel_pos in
      let g : FlightController F rl.Quaternion = record f {
        rel_pos = rel_pos;
        rel_vel = rel_vel;
        rel_init = (if a.flight_locked then f.rel_init else true);
        at = at;
        vel = vector3_sum a.earth_vel rel_vel;
      } in
      record a {
        flight_locked = true;
        locked_rel_pos = rel_pos;
        locked_rel_vel = rel_vel;
        flight = some g;
        smooth_pos = at;
        smooth_init = true;
        camera = at;
        camera_up = up g;
      }

  unfoldable pub apply_ui_lock : Bool → App F rl.Quaternion → App F rl.Quaternion
  unfolding hold
  apply_ui_lock chat_open a =
      let any_ui =
        a.show_inventory || a.show_craft || a.show_contract || a.show_factory || chat_open in
      elim a.flight [
        | none ↦ record a { flight_locked = false }
        | some f ↦ if any_ui then hold f a else record a { flight_locked = false }
      ]

  unfoldable pub sync_hp_from_network : App F rl.Quaternion → App F rl.Quaternion
  sync_hp_from_network a =
      let hp = a.nc.own_hp in
      if ltb_ℤ (pos 0) hp || a.hp_received then record a { hp = hp; hp_received = true } else a

  -- The death screen, with the connection closed: the frames of it are no longer read, and its end
  -- is seen by the reading loop.
  unfoldable pub check_death : App F rl.Quaternion → App F rl.Quaternion × Bool
  check_death a =
      if not a.hp_received || ltb_ℤ (pos 0) a.hp
      then (a, false)
      else (record a { mode = dead }, true)

  unfoldable pub emit_player_state : App F rl.Quaternion → App F rl.Quaternion
  unfolding vector3_sub
  emit_player_state a = elim a.flight [
    | none ↦ a
    | some f ↦
        let fw = forward f in
        let st : PlayerState F = record {
          id = "";
          nick = "";
          at = vector3_sub f.at a.earth_pos;
          yaw = fl.narrow (fl.wide.atan2 (fl.widen (fl.ops.neg fw.x)) (fl.widen (fl.ops.neg fw.z)));
          pitch = fl.narrow (fl.wide.asin (fl.widen fw.y));
          hunger = num 0;
          hp = pos 0;
          rtt_ms = pos 0;
          color_hex = [];
        } in
        record a { nc = Actions.set_state st a.nc }
  ]

  -- Once the planet's place has arrived, the spawn is moved into the sun's frame.
  unfoldable pub init_helio :
      FlightController F rl.Quaternion → Vector3 F → FlightController F rl.Quaternion
  init_helio f earth_pos =
      if not f.helio_init && flt (num 10000) (dot_self earth_pos)
      then record f { at = rl.add f.at f.earth_pos; helio_init = true }
      else f

  -- `updateCameraSmoothing`, after the flight has become `f`: half of the way to it.
  unfoldable pub smooth_camera :
      FlightController F rl.Quaternion → App F rl.Quaternion → App F rl.Quaternion
  smooth_camera f a =
      let half = rl.add a.smooth_pos (rl.scale (rl.subtract f.at a.smooth_pos) (lit 5 1)) in
      let at = if a.smooth_init then half else f.at in
      record a {
        flight = some f;
        smooth_pos = at;
        smooth_init = true;
        camera = at;
        camera_up = up f;
      }

  unfoldable pub update_flight_physics :
      F → Vector2 F → Keys F → App F rl.Quaternion → App F rl.Quaternion
  unfolding init_helio smooth_camera
  update_flight_physics dt mouse keys a = elim a.flight [
    | none ↦ a
    | some f ↦ smooth_camera (update dt mouse keys (init_helio f a.earth_pos)) a
  ]

  -- The player stands still at `tp`; `rest` is what still waits.
  unfoldable pub take_up :
      Vector3 F
      → List (Vector3 F)
      → FlightController F rl.Quaternion
      → App F rl.Quaternion
      → App F rl.Quaternion
  take_up tp rest f a = record a {
    nc = record (a.nc) { teleport_ch = rest };
    flight = some (record f { at = tp; vel = origin; rel_init = false; helio_init = false });
    smooth_init = false;
  }

  -- The oldest teleport that waits, if any. `none` is the panic on a nil flight controller. The
  -- history of the planet's places is emptied too (Earth.antt).
  unfoldable pub handle_teleport : App F rl.Quaternion → Option (App F rl.Quaternion)
  unfolding take_up
  handle_teleport a = elim a.nc.teleport_ch [
    | [] ↦ some a
    | tp ∷ rest ↦ elim a.flight [ none ↦ none | some f ↦ some (take_up tp rest f a) ]
  ]
