-- ===== src/Lib.antt =====
-- LODEEN, a multiplayer game on a small planet: its server and the logic of its client, as total
-- functions on their states, with theorems about what handlers, ticks and frames do.
--
-- The program. A server keeps a registry of connected clients and one map for each kind of object
-- (internal/server/net/server.go). A connection sends length-prefixed frames; each carries one
-- message, which a handler applies to the client's own record and to the maps. A ticker moves the
-- world, plants, batteries, boats, mammoths and rockets, and sends every client a snapshot. A client
-- (internal/client) remembers the snapshots, draws the players between two of them, moves its own
-- player with keys and mouse, and turns clicks into the requests that the server handles. The
-- packages modelled are internal/shared/protocol (frames, messages, geometry), internal/server/net,
-- and of the client net, input, chat and a part of app.
--
-- How the model is built. A handler is a function from the server and the client to the server and
-- the client after it; the client's own record is passed beside the registry, which holds it under
-- its identifier. New identifiers, the time and random bits are arguments. Stores of pointers are
-- maps of values: what is changed through a pointer is written back under its key. A handler runs
-- to its end before another starts. A `range` over a map visits the entries in the order of the
-- list that stands for it; the theorems hold for every order. `int` is a 64-bit integer that wraps
-- (Base/Int.antt). float32 and float64 are a parameter (Base/Float.antt): the code's arithmetic is
-- written operation by operation over an unknown type, and a theorem names the laws of the order
-- that it needs. Time is a number of nanoseconds.
-- On the client's side a method is a function from the record of its receiver to the record after
-- it. The graphics library is a parameter too (`Raylib` in Client/Input: vectors and quaternions),
-- and the keys and the mouse of a frame are arguments. Whether a frame could be written to the
-- socket is an argument `written`; the requests that were written stand in the client's `conn`, in
-- order. The reading loop, the ping loop and the state loop are steps (Client/Net/Steps).
--
-- The files, and the code that they model:
--   * Base: shared names, tests on numbers, lists, 64-bit integers, maps (store.go), floats.
--   * Protocol/Frame: internal/shared/protocol/frame.go, `WriteFrame` and `ReadFrame`.
--   * Protocol/Geometry: constants.go and terrain.go, `ClampToSurface` and `SurfaceRadius`.
--   * Protocol/Messages: the payloads of messages*.go.
--   * Server/State, Server/Time: the structs of internal/server/net, `time.Time` and its `Sub`.
--   * Server/Client: player.go, inventory, hunger, hit points and the send buffer.
--   * Server/Crafting: `handleCraft` of handlers.go.
--   * Server/Items: the other handlers of handlers.go, wells.go, `handleThrowSpear`.
--   * Server/Nearest, Server/Energy: energy.go, the search for a battery, factories, charging.
--   * Server/Chat: handlers_chat.go, chat and cheat commands.
--   * Server/Connection: server_conn.go, handshake, registration and the end of a connection.
--   * Server/Farm, Server/Houses, Server/Boats: farm.go, houses.go, boats.go.
--   * Server/Mammoths: mammoths_handlers.go; Moving is mammoths_tick.go, Breeding is
--     mammoths_breeding.go.
--   * Server/Rockets: rockets.go; Flight is rockets_tick.go, Orbit is rockets_orbit.go.
--   * Server/Hunger: `tickHunger` of server_tick.go.
--   * Server/Mobs: mobs_handlers.go, and the drops of mobs_projectiles.go; Behaviour is mobs.go and
--     mobs_collector.go, Pink is mobs_pink.go.
--   * Server/Projectiles: the flight of the spears in mobs_projectiles.go.
--   * Server/World: world.go, the orbits of the planets.
--   * Server/Tick: server_tick.go, the order of a tick. Server/Dispatch: dispatch.go, which handler
--     takes which message.
--   * Server/Spawn: `New` of server.go and the random spawning of the first objects.
--   * Server/Snapshot: snapshot.go and snapshot_collect.go.
--   * Client/Net: internal/client/net, handlers.go; Session is the connection in client.go, Actions
--     is actions.go, Interpolation is `InterpolatedSnapshot`; History, Recorded, View and Steps hold
--     what is proved of the memory of players.
--   * Client/Input: internal/client/input, the flight controller: Survival, Creative and Flight are
--     flight_survival.go with flight_physics.go, flight_creative.go, flight.go; Laws, Moves and
--     Range hold what is proved of them.
--   * Client/Chat: internal/client/chat/chat.go, without the drawing.
--   * Client/App: internal/client/app. State is the record; Sight is input.go and pickup.go; Clicks,
--     Mounts and Frames are the update_playing files; Slots is the end of inventory.go; Spears is
--     projectiles.go; Earth is the planet's history of update.go; Trajectory is trajectory.go;
--     Factory is `itoa` of factory.go; Pilot is rocket.go; Overlays is update_playing_overlays.go
--     with the pause and the loss of focus; Playing is `updatePlaying`; Lifecycle is connect.go and
--     dead.go, with Steps, the relation of all that can happen to the program.
--   * Tests: concrete floats (whole numbers, hundredths), a small server, a client in the game, and a
--     run of each theorem.
--
-- Loops. Every loop is structural recursion over the list or the map that it walks; the burning of
-- rocket fuel recurses on the whole units left, which the loop's own guard counts down. The loop of
-- the eating is bounded by the portions of food that a client holds, plus one for its last test.
--
-- Not modelled: of the client the drawing, the menu, the orbit map and the inventory windows; the
-- websocket bridge, configuration, logging and metrics; JSON (a message is the value that it
-- encodes); sockets, goroutines and locks.
pub mod Base
pub mod Protocol
pub mod Server
pub mod Client
mod Tests
