-- ===== src/Tests/Network.antt =====
-- The client's side of the network, and its theorems at concrete inputs.
use lodeen.Base.Int.{ℤ, pos}
use lodeen.Base.Map.{lookup}
use lodeen.Base.{ℕ, ◌≡◌, refl, arith, [], ◌∷◌, some}
use lodeen.Client.Net
use lodeen.Client.Net.Session.{connect, try_all, no_dial, no_read, answer}
use lodeen.Client.Net.View.{latest, handle_snapshot-refines}
use lodeen.Client.Net.Steps.{here, next, hears, IsSound, ClientSteps-IsSound}
use lodeen.Client.Net.Interpolation.{interpolate, walk, interpolate-walk}
use lodeen.Server.Snapshot.{show_player, collect_snapshot}
use lodeen.Server.State.{Server}
use lodeen.Protocol.Messages.{Welcome, welcome, snapshot}
use lodeen.Tests.Sample.{int_float, point, empty_server, player}
use mathlib.Core.Option

-- Two players on the server.
abbrev town : Server ℤ
town = record empty_server { clients = ("p1", player "p1" []) ∷ ("p2", player "p2" []) ∷ [] }

-- What the client shows after the first snapshot, as a function of the identifier.
handle_snapshot-refines_example :
    latest (Net.handle 5 (snapshot (collect_snapshot town)) Net.fresh_client).players
    ≡ (λ id. Option.map show_player (lookup id town.clients))
unfolding lookup Net.fresh_client
handle_snapshot-refines_example =
    handle_snapshot-refines 5 town Net.fresh_client (refl, (refl, tt)) (refl, (refl, tt))

abbrev informed : Net.Client ℤ
informed =
    Net.handle 9 (snapshot (collect_snapshot town))
      (Net.handle 5 (snapshot (collect_snapshot town)) Net.fresh_client)

ClientSteps-IsSound_example : IsSound 9 informed
ClientSteps-IsSound_example = ClientSteps-IsSound {now = 9} {c = informed} (
    next {now = 5} {d = Net.handle 5 (snapshot (collect_snapshot town)) Net.fresh_client}
      (next {now = 0} {d = Net.fresh_client} here
        (hears 5 (snapshot (collect_snapshot town)) (omega arith)))
      (hears 9 (snapshot (collect_snapshot town)) (omega arith)))

abbrev seen_at : ℕ → ℕ → Net.TimedState ℤ
seen_at x t = record {
  state = record {
    id = "p1";
    nick = "";
    at = point x 0 0;
    yaw = pos 0;
    pitch = pos 0;
    hunger = pos 0;
    hp = pos 0;
    rtt_ms = pos 0;
    color_hex = [];
  };
  at = t;
}

interpolate-walk_example :
    interpolate 25 (seen_at 1 10 ∷ seen_at 2 20 ∷ seen_at 3 30 ∷ [])
    ≡ some (walk 25 (seen_at 1 10) (seen_at 2 20 ∷ seen_at 3 30 ∷ []))
interpolate-walk_example =
    interpolate-walk 25 (seen_at 1 10) (seen_at 2 20 ∷ seen_at 3 30 ∷ []) (omega arith)

abbrev greeting : Welcome
greeting = record { player_id = "p7"; world_name = ""; tick_rate = pos 20; server_version = "" }

abbrev stuck : Net.Client ℤ
stuck =
    try_all ((no_dial, "bob") ∷ (answer (welcome greeting), "ann") ∷ [])
      (connect no_read "ann" Net.fresh_client).0
