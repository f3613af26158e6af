-- ===== src/Client/App/Lifecycle/Steps.antt =====
-- What can happen to the client's program, and that a game never runs without a flight controller.
use mathlib.Core.Path.{subst}
use lodeen.Base.Float.{Float}
use lodeen.Base.Int.{pos}
use lodeen.Base.{
  ℕ, String, Bool, true, false, ◌&&◌, List, [], ◌∷◌, Option, none, some, ◌≡◌, refl, arith, ◌==◌,
  if◌then◌else◌,
}
use lodeen.Client.App.Frames.{take_up, handle_teleport}
use lodeen.Client.App.Lifecycle.{
  DeadKeys, is_connected, enter_game, start_connect, respawn, return_to_menu, update_dead,
  disconnect,
}
use lodeen.Client.App.Overlays.{
  Pressed, handle_pickup_key, is_paused, fall_in_pause, update_pause_physics, exit_pause,
  update_paused,
}
use lodeen.Client.App.Playing.{FrameInputs, update_playing}
use lodeen.Client.App.Playing.Flies.{lacks, Flies, if-Flies, maybe-Flies}
use lodeen.Client.App.Playing.Frame.{update_playing-Flies}
use lodeen.Client.App.Playing.Hands.{handle_pickup_key-Flies}
use lodeen.Client.App.State.{App, GameMode, menu, playing, paused, dead}
use lodeen.Client.Input.{Raylib, FlightController}
use lodeen.Client.Net
use lodeen.Client.Net.Session.{
  Answer, ConnectError, ConnectResult, welcomed, failed, connect, lose_connection,
}
use lodeen.Protocol.Geometry.{Vector3}
use lodeen.Protocol.Messages.{Message}

abbrev pub in_game : GameMode → Bool
in_game menu = false
in_game playing = true
in_game paused = true
in_game dead = false

abbrev pub fails : {A : Type 0} → Option A → Bool
fails none = true
fails (some _) = false

module _ {F Q : Type 0} where
  -- In the game and in its pause there is a flight controller.
  pub record IsEquipped (a : App F Q) : Type 0 where
    pub has : (in_game a.mode && lacks a.flight) ≡ false

  Flies-IsEquipped : (a : App F Q) → Flies a → IsEquipped a
  Flies-IsEquipped a h = record { has = rw h.has (ground arith) }

  playing-Flies : (a : App F Q) → in_game a.mode ≡ true → IsEquipped a → Flies a
  playing-Flies a e h = let has = h.has in record { has = ground arith }

  if-IsEquipped :
      (test : Bool) (a b : App F Q)
      → IsEquipped a
      → IsEquipped b
      → IsEquipped (if test then a else b)
  if-IsEquipped true a b h k = h
  if-IsEquipped false a b h k = k

  maybe-IsEquipped :
      {A : Type 0} (o : Option A) (a : App F Q) (s : A → App F Q)
      → IsEquipped a
      → ((x : A) → IsEquipped (s x))
      → IsEquipped (elim o [ none ↦ a | some x ↦ s x ])
  maybe-IsEquipped none a s h k = h
  maybe-IsEquipped (some x) a s h k = k x

  return_to_menu-IsEquipped : (a : App F Q) → IsEquipped (return_to_menu a)
  unfolding return_to_menu
  return_to_menu-IsEquipped a = record { has = refl }

module _ {F : Type 0} ⦃fl : Float F⦄ ⦃rl : Raylib F⦄ where
  exit_pause-Flies : (a : App F rl.Quaternion) → Flies a → Flies (exit_pause a)
  unfolding exit_pause
  exit_pause-Flies a h =
      maybe-Flies a.flight _ _ (record { has = h.has }) (λ f. record { has = refl })

  update_paused-Flies :
      (written : Bool) (pressed : Pressed) (a : App F rl.Quaternion)
      → Flies a
      → Flies (update_paused written pressed a)
  unfolding update_paused
  update_paused-Flies written pressed a h =
      let b = handle_pickup_key written pressed a in
      let k = handle_pickup_key-Flies written pressed a h in
      if-Flies pressed.escape (exit_pause b) b (exit_pause-Flies b k) k

  fall_in_pause-Flies :
      (dt : F) (f : FlightController F rl.Quaternion) (a : App F rl.Quaternion)
      → Flies (fall_in_pause dt f a)
  unfolding fall_in_pause
  fall_in_pause-Flies dt f a = record { has = refl }

  update_pause_physics-IsEquipped :
      (dt : F) (a : App F rl.Quaternion) → IsEquipped a → IsEquipped (update_pause_physics dt a)
  unfolding update_pause_physics
  update_pause_physics-IsEquipped dt a h =
      maybe-IsEquipped a.flight a
        (λ f. if is_paused a.mode && f.helio_init then fall_in_pause dt f a else a) h
        (λ f.
          if-IsEquipped (is_paused a.mode && f.helio_init) (fall_in_pause dt f a) a
            (Flies-IsEquipped _ (fall_in_pause-Flies dt f a)) h)

  -- What follows a teleport, if it does not panic, is equipped.
  abbrev Lands : Option (App F rl.Quaternion) → Type 0
  Lands none = Unit {0}
  Lands (some b) = IsEquipped b

  take_up-Lands :
      (waiting : List (Vector3 F)) (o : Option (FlightController F rl.Quaternion))
      (a : App F rl.Quaternion)
      → IsEquipped a
      → Lands (elim waiting [
        | [] ↦ some a
        | tp ∷ rest ↦ elim o [ none ↦ none | some f ↦ some (take_up tp rest f a) ]
      ])
  unfolding take_up
  take_up-Lands [] o a h = h
  take_up-Lands (tp ∷ rest) none a h = tt
  take_up-Lands (tp ∷ rest) (some f) a h = Flies-IsEquipped _ (record { has = refl })

  handle_teleport-IsEquipped :
      (a b : App F rl.Quaternion) → handle_teleport a ≡ some b → IsEquipped a → IsEquipped b
  unfolding handle_teleport
  handle_teleport-IsEquipped a b e h = subst Lands e (take_up-Lands a.nc.teleport_ch a.flight a h)

  take_up-succeeds :
      (waiting : List (Vector3 F)) (o : Option (FlightController F rl.Quaternion)) (m : GameMode)
      (a : App F rl.Quaternion)
      → (in_game m && lacks o) ≡ false
      → (in_game m
          && fails (elim waiting as (λ _. Option (App F rl.Quaternion)) [
            | [] ↦ some a
            | tp ∷ rest ↦ elim o [ none ↦ none | some f ↦ some (take_up tp rest f a) ]
          ]))
        ≡ false
  take_up-succeeds [] o m a h = ground arith
  take_up-succeeds (tp ∷ rest) none m a h = h
  take_up-succeeds (tp ∷ rest) (some f) m a h = h

  -- A teleport finds a flight controller in the game.
  handle_teleport-succeeds :
      (a : App F rl.Quaternion)
      → IsEquipped a
      → (in_game a.mode && fails (handle_teleport a)) ≡ false
  unfolding handle_teleport
  handle_teleport-succeeds a h = take_up-succeeds a.nc.teleport_ch a.flight a.mode a h.has

module _ {F : Type 0} ⦃fl : Float F⦄ ⦃rl : Raylib F⦄ (describe : ConnectError → String) where
  -- One step: a frame in some mode, the button of the pause that resumes the game, an attempt to connect, the end of a connection, a message, or a
  -- teleport that is taken up.
  pub data GameStep (a : App F rl.Quaternion) : App F rl.Quaternion → Type 0 where
    plays : (i : FrameInputs F) → a.mode ≡ playing → GameStep a (update_playing i a)
    rests :
        (written : Bool) (pressed : Pressed)
        → a.mode ≡ paused
        → GameStep a (update_paused written pressed a)
    resumes : a.mode ≡ paused → GameStep a (record a { mode = playing })
    falls : (dt : F) → GameStep a (update_pause_physics dt a)
    connects : (network : Answer F) → GameStep a (start_connect describe network a)
    mourns :
        (keys : DeadKeys) (network : Answer F) → GameStep a (update_dead describe keys network a)
    leaves : GameStep a (disconnect a)
    hears : (now : ℕ) (m : Message F) → GameStep a (record a { nc = Net.handle now m a.nc })
    loses : GameStep a (record a { nc = lose_connection a.nc })
    moves : (b : App F rl.Quaternion) → handle_teleport a ≡ some b → GameStep a b

  pub data GameSteps (a : App F rl.Quaternion) : App F rl.Quaternion → Type 0 where
    here : GameSteps a a
    next : {b c : App F rl.Quaternion} → GameSteps a b → GameStep b c → GameSteps a c

  enter_game-IsEquipped :
      (result : ConnectResult) (a : App F rl.Quaternion)
      → IsEquipped a
      → IsEquipped (enter_game describe result a)
  unfolding enter_game
  enter_game-IsEquipped (welcomed w) a h = record { has = refl }
  enter_game-IsEquipped (failed e) a h = record { has = h.has }

  start_connect-IsEquipped :
      (network : Answer F) (a : App F rl.Quaternion)
      → IsEquipped a
      → IsEquipped (start_connect describe network a)
  unfolding start_connect
  start_connect-IsEquipped network a h = if-IsEquipped (is_connected a.nc.status) a _ h (
      if-IsEquipped (a.menu_nick == "") _ _ (record { has = h.has })
        (if-IsEquipped (a.menu_addr == "") _ _ (record { has = h.has })
          (enter_game-IsEquipped (connect network a.menu_nick a.nc).1 _ (record { has = h.has }))))

  respawn-IsEquipped :
      (network : Answer F) (a : App F rl.Quaternion)
      → IsEquipped a
      → IsEquipped (respawn describe network a)
  unfolding respawn
  respawn-IsEquipped network a h =
      start_connect-IsEquipped network (record a { hp = pos 100; hp_received = false })
        (record { has = h.has })

  update_dead-IsEquipped :
      (keys : DeadKeys) (network : Answer F) (a : App F rl.Quaternion)
      → IsEquipped a
      → IsEquipped (update_dead describe keys network a)
  unfolding update_dead
  update_dead-IsEquipped keys network a h =
      let b = if keys.r then respawn describe network a else a in
      if-IsEquipped keys.escape (return_to_menu b) b (return_to_menu-IsEquipped b)
        (if-IsEquipped keys.r (respawn describe network a) a (respawn-IsEquipped network a h) h)

  GameStep-IsEquipped : (a b : App F rl.Quaternion) → GameStep a b → IsEquipped a → IsEquipped b
  unfolding disconnect
  GameStep-IsEquipped a _ (plays i e) h =
      let flies = playing-Flies a (rw e refl) h in
      Flies-IsEquipped _ (update_playing-Flies i a flies)
  GameStep-IsEquipped a _ (rests written pressed e) h =
      let flies = playing-Flies a (rw e refl) h in
      Flies-IsEquipped _ (update_paused-Flies written pressed a flies)
  GameStep-IsEquipped a _ (resumes e) h =
      let flies = playing-Flies a (rw e refl) h in record { has = flies.has }
  GameStep-IsEquipped a _ (falls dt) h = update_pause_physics-IsEquipped dt a h
  GameStep-IsEquipped a _ (connects network) h = start_connect-IsEquipped network a h
  GameStep-IsEquipped a _ (mourns keys network) h = update_dead-IsEquipped keys network a h
  GameStep-IsEquipped a _ leaves h = record { has = refl }
  GameStep-IsEquipped a _ (hears now m) h = record { has = h.has }
  GameStep-IsEquipped a _ loses h = record { has = h.has }
  GameStep-IsEquipped a b (moves _ e) h = handle_teleport-IsEquipped a b e h

  -- Through every run of frames, attempts to connect, ends of connections, messages and teleports
  -- there is a flight controller while the game is played or paused, if there is one at the start or
  -- the run starts in the menu or on the screen of death; and so a teleport in the game is never
  -- taken up with a nil flight controller.
  pub GameSteps-IsEquipped :
      {a b : App F rl.Quaternion}
      → GameSteps a b
      → IsEquipped a
      → IsEquipped b × ((in_game b.mode && fails (handle_teleport b)) ≡ false)
  GameSteps-IsEquipped {a = a} here h = (h, handle_teleport-succeeds a h)
  GameSteps-IsEquipped {b = b} (next {b = m} steps step) h =
      let now = GameStep-IsEquipped m b step (GameSteps-IsEquipped steps h).0 in
      (now, handle_teleport-succeeds b now)
