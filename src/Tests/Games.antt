-- ===== src/Tests/Games.antt =====
-- The controls and the game of the client, and their theorems at concrete inputs.
use lodeen.Base.Int.{ℤ, pos}
use lodeen.Base.Map.{Map}
use lodeen.Base.Float.{flt}
use lodeen.Base.{
  String, List, All, ◌==◌, ◌&&◌, ℕ, ◌≡◌, refl, Bool, true, false, [], ◌∷◌, none, some, ◌⊎◌,
}
use lodeen.Client.App.Clicks.{handle_mouse_click}
use lodeen.Client.App.Clicks.OneFrame.{Writes, handle_mouse_click-Writes}
use lodeen.Client.App.Mounts.{handle_mount_key}
use lodeen.Client.App.Mounts.Riding.{IsMounted, RidesAs, handle_mount_key-IsMounted}
use lodeen.Client.App.Sight.{in_sight}
use lodeen.Client.App.Sight.Nearest.{IsListed, may_take, NothingNearer, in_sight-nearest}
use lodeen.Client.App.Slots.{is_present, sync_inv_slots}
use lodeen.Client.App.Slots.Tidy.{IsOnce, AllHeld, sync_inv_slots-IsOnce}
use lodeen.Client.App.Spears.{Spear, Outcome, update_projectiles}
use lodeen.Client.App.Spears.Fates.{Fates, update_projectiles-reports}
use lodeen.Client.App.Spears.Reports.{reports, flying, Wrote}
use lodeen.Client.App.Frames.{handle_teleport}
use lodeen.Client.App.Lifecycle.{enter_game, start_connect}
use lodeen.Client.App.Lifecycle.Steps.{
  in_game, fails, IsEquipped, connects, plays, GameSteps-IsEquipped,
}
use lodeen.Client.App.Lifecycle.Steps
use lodeen.Client.App.Playing.Dialogs.{Silent, update_playing-Silent}
use lodeen.Client.App.Playing.{update_playing}
use lodeen.Client.App.State.{App, menu}
use lodeen.Client.Net.Session.{Answer, answer, ConnectError, greet, receive_welcome}
use lodeen.Client.Net.Session
use lodeen.Client.App.Trajectory.{predict_trajectory}
use lodeen.Client.App.Trajectory.Orbit.{Ends, predict_trajectory-orbit}
use lodeen.Client.Input.{new_flight}
use lodeen.Client.Input.Flight.{update}
use lodeen.Client.Input.Survival.{sync_to_earth_frame}
use lodeen.Client.Input.Laws.{IsInFrame, update-IsInFrame}
use lodeen.Client.Net
use lodeen.Protocol.Geometry.{origin, dist2}
use lodeen.Protocol.Messages.{Mob, Mammoth, Resource, welcome}
use lodeen.Tests.Sample.{int_float, int_float-IsStrictOrder, point}
use lodeen.Tests.GameSample.{int_raylib, still, ahead, walker, game, frame}

update-IsInFrame_example :
    IsInFrame (update (pos 1) still ahead walker)
    × IsInFrame (
        sync_to_earth_frame (pos 1) (record (update (pos 1) still ahead walker) {
          earth_pos = point 5 0 0;
          earth_vel = point 1 0 0;
        }))
    × ((sync_to_earth_frame (pos 1) (record (update (pos 1) still ahead walker) {
      earth_pos = point 5 0 0;
      earth_vel = point 1 0 0;
    })).rel_pos
        ≡ (update (pos 1) still ahead walker).rel_pos)
unfolding new_flight
update-IsInFrame_example =
    update-IsInFrame (pos 1) (pos 1) still ahead walker (point 5 0 0) (point 1 0 0) refl

abbrev stone : Resource ℤ
stone = record { id = "r1"; kind = "stone"; at = point 2 0 0; watered = false; grow_at = 0 }

abbrev always : Resource ℤ → Bool
always _ = true

in_sight-nearest_example :
    ((in_sight always (λ r. r.id) (λ r. r.at) (pos 25) (pos 0) origin (point 1 0 0) (stone ∷ [])
        ≡ none)
      × NothingNearer int_float-IsStrictOrder always
          (λ r. r.id)
          (λ r. r.at)
          (pos 25)
          (pos 0)
          origin
          (point 1 0 0)
          (pos 25)
          (stone ∷ []))
    ⊎ ((v : Resource ℤ) × (in_sight always
            (λ r. r.id)
            (λ r. r.at)
            (pos 25)
            (pos 0)
            origin
            (point 1 0 0)
            (stone ∷ [])
          ≡ some (v.id, v))
        × IsListed v (stone ∷ [])
        × (may_take int_float-IsStrictOrder always
              (λ r. r.id)
              (λ r. r.at)
              (pos 25)
              (pos 0)
              origin
              (point 1 0 0)
              v
            ≡ true)
        × (flt (dist2 v.at origin) (pos 25) ≡ true)
        × NothingNearer int_float-IsStrictOrder always
            (λ r. r.id)
            (λ r. r.at)
            (pos 25)
            (pos 0)
            origin
            (point 1 0 0)
            (dist2 v.at origin)
            (stone ∷ []))
in_sight-nearest_example =
    in_sight-nearest int_float-IsStrictOrder always (λ r. r.id) (λ r. r.at) (pos 25) (pos 0) origin
      (point 1 0 0) (stone ∷ [])

predict_trajectory-orbit_example :
    (n : ℕ) × Ends
      (pos 1)
      (point 9 0 0)
      4
      0
      n
      (record { p = point 9 0 0; v = point 1 0 0; ep = origin; ev = origin })
      (predict_trajectory (point 9 0 0) (point 1 0 0) origin origin (pos 1) 4)
predict_trajectory-orbit_example =
    predict_trajectory-orbit (pos 1) (point 9 0 0) (point 1 0 0) origin origin 4

abbrev spear : Spear ℤ
spear = record { at = origin; dir = point 1 0 0; spawn = 0 }

abbrev goat : Mob ℤ
goat = record {
  id = "m1";
  at = point 30 0 0;
  hp = pos 3;
  kind = "pink";
  contract = "";
  owner_id = "";
}

abbrev beast : Mammoth ℤ
beast = record {
  id = "m2";
  at = point 20 0 0;
  hp = pos 3;
  tamed = false;
  sex = "f";
  fed_count = pos 0;
  baby = false;
  leashed_to = "";
  saddle = false;
  rider_id = "";
}

-- A mob and a mammoth both stand in the way.
abbrev hunting : Net.Client ℤ
hunting = record Net.fresh_client { mobs = goat ∷ []; mammoths = beast ∷ [] }

hunting-AreNamed :
    All (λ (m : Mob ℤ). (m.id == "") ≡ false) hunting.mobs
    × All (λ (m : Mammoth ℤ). (m.id == "") ≡ false) hunting.mammoths
hunting-AreNamed = ((refl, tt), (refl, tt))

update_projectiles-reports_example :
    (os : List (Outcome ℤ)) × Fates 7 (pos 1) hunting (spear ∷ []) os
    × ((update_projectiles true 7 (pos 1) (spear ∷ []) hunting).0 ≡ flying os)
    × Wrote hunting (reports os) (update_projectiles true 7 (pos 1) (spear ∷ []) hunting).1
unfolding Net.fresh_client
update_projectiles-reports_example =
    update_projectiles-reports 7 (pos 1) hunting (spear ∷ []) (hunting-AreNamed.0)
      (hunting-AreNamed.1)

abbrev pockets : Map ℤ
pockets = ("stone", pos 2) ∷ ("wood", pos 0) ∷ []

sync_inv_slots-IsOnce_example :
    IsOnce (sync_inv_slots pockets ("wood" ∷ "" ∷ "" ∷ []))
    × AllHeld pockets (sync_inv_slots pockets ("wood" ∷ "" ∷ "" ∷ []))
unfolding is_present
sync_inv_slots-IsOnce_example =
    sync_inv_slots-IsOnce pockets ("wood" ∷ "" ∷ "" ∷ []) (refl, (refl, (refl, tt)))

handle_mouse_click-Writes_example : Writes true game (handle_mouse_click true true 7 game)
handle_mouse_click-Writes_example = handle_mouse_click-Writes true true 7 game

walker-RidesAs : RidesAs walker "" ""
unfolding new_flight
walker-RidesAs = record { rides = refl; sits = refl; one = refl }

handle_mount_key-IsMounted_example : IsMounted (handle_mount_key true true game)
handle_mount_key-IsMounted_example =
    handle_mount_key-IsMounted true true walker game refl walker-RidesAs

abbrev at_menu : App ℤ Bool
at_menu = record game { mode = menu; flight = none }

abbrev invitation : Answer ℤ
invitation = answer (
    welcome (record { player_id = "p7"; world_name = ""; tick_rate = pos 20; server_version = "" }))

abbrev describe : ConnectError → String
describe _ = "refused"

abbrev entered : App ℤ Bool
entered = start_connect describe invitation at_menu

GameSteps-IsEquipped_example :
    IsEquipped (update_playing frame entered)
    × ((in_game (update_playing frame entered).mode
          && fails (handle_teleport (update_playing frame entered)))
        ≡ false)
unfolding start_connect enter_game Session.connect greet receive_welcome Net.fresh_client
GameSteps-IsEquipped_example =
    GameSteps-IsEquipped describe {a = at_menu} {b = update_playing frame entered}
      (Steps.next {b = entered} (Steps.next {b = at_menu} Steps.here (connects invitation))
        (plays frame refl))
      (record { has = refl })

abbrev bargaining : App ℤ Bool
bargaining = record game { show_contract = true; contract_mob_id = "m1" }

update_playing-Silent_example : Silent bargaining (update_playing frame bargaining)
update_playing-Silent_example = update_playing-Silent frame bargaining refl refl
