-- ===== src/Client/Net.antt =====
-- The client's end of the connection and its picture of the world: internal/client/net/client.go,
-- handlers.go, actions.go. A mutex guards each group of fields, so a reader sees a group whole; here
-- a function takes the whole record. The getters of getters.go are its fields.
pub mod Session
pub mod Actions
pub mod History
pub mod Recorded
pub mod View
pub mod Steps
pub mod Interpolation
use lodeen.Base.{
  ℕ, ◌-◌, String, Bool, false, List, [], ◌∷◌, ◌++◌, Option, none, some, ◌==◌, ◌||◌, length, drop,
  ltb, if◌then◌else◌,
}
use lodeen.Base.Int.{ℤ, pos, int_sub, int_mul}
use lodeen.Base.Map.{Map, lookup, insert}
use lodeen.Base.Float.{Float, num}
use lodeen.Protocol.Geometry.{Vector3, origin}
use lodeen.Protocol.Messages.{
  PlayerState, Resource, Mammoth, Well, House, Boat, Mob, MobProjectile, Solar, Battery, Factory,
  Rocket, Snapshot, ChatMessage, Message, welcome, chat, pong, inventory_update, teleport, snapshot,
}
use lodeen.Server.Dispatch.{Request}
use lodeen.Server.Time.{millisecond, unix_milli}

pub data Status : Type 0 where
  disconnected : Status
  connecting : Status
  connected : Status

-- `timedState`
pub record TimedState (F : Type 0) : Type 0 where
  pub state : PlayerState F
  pub at : ℕ

-- `conn` holds the messages written to the open connection, oldest first; `done` is `none` before
-- the first connection, and then whether the channel is closed. A channel is the list of what it
-- holds. Without the log, the locks and the group of goroutines.
pub record Client (F : Type 0) : Type 0 where
  pub conn : Option (List (Request F))
  pub status : Status
  pub nick : String
  pub player_id : String
  pub rtt : ℤ
  pub players : Map (List (TimedState F))
  pub own_hunger : F
  pub own_hp : ℤ
  pub chat_ch : List ChatMessage
  pub teleport_ch : List (Vector3 F)
  pub earth_pos : Vector3 F
  pub earth_vel : Vector3 F
  pub planet2_pos : Vector3 F
  pub planet2_vel : Vector3 F
  pub last_tick : ℕ
  pub resources : List (Resource F)
  pub mammoths : List (Mammoth F)
  pub wells : List (Well F)
  pub houses : List (House F)
  pub boats : List (Boat F)
  pub mobs : List (Mob F)
  pub projectiles : List (MobProjectile F)
  pub inventory : Map ℤ
  pub last_state : PlayerState F
  pub done : Option Bool
  pub solar : List (Solar F)
  pub batteries : List (Battery F)
  pub factories : List (Factory F)
  pub rockets : List (Rocket F)

abbrev pub max_history_states : ℕ
max_history_states = 20

abbrev pub chat_capacity : ℕ
chat_capacity = 128

abbrev pub teleport_capacity : ℕ
teleport_capacity = 4

module _ {ℓ} {A : Type ℓ} where
  -- `if len(hist) > maxHistoryStates { hist = hist[len(hist)-maxHistoryStates:] }`
  unfoldable pub keep_last : List A → List A
  keep_last hist =
      if ltb max_history_states (length hist)
      then drop (length hist - max_history_states) hist
      else hist

  -- `hist := c.players[id]`, empty where the key is missing.
  unfoldable pub history_of : String → Map (List A) → List A
  history_of id players = elim (lookup id players) [ none ↦ [] | some hist ↦ hist ]

  -- A send to a channel that drops the value when the buffer is full.
  unfoldable pub try_send : ℕ → A → List A → List A
  try_send capacity value buffer =
      if ltb (length buffer) capacity then buffer ++ value ∷ [] else buffer

module _ {F : Type 0} where
  -- One turn of the loop over the players of a snapshot.
  unfoldable pub update_player : ℕ → PlayerState F → Client F → Client F
  unfolding keep_last history_of
  update_player now p c =
      let latest : TimedState F = record { state = p; at = now } in
      let hist = keep_last (history_of p.id c.players ++ latest ∷ []) in
      let own = p.id == c.player_id in
      record c {
        players = insert p.id hist c.players;
        own_hunger = if own then p.hunger else c.own_hunger;
        own_hp = if own then p.hp else c.own_hp;
      }

  unfoldable pub update_each : ℕ → List (PlayerState F) → Client F → Client F
  update_each now [] c = c
  update_each now (p ∷ players) c = update_each now players (update_player now p c)

  -- `_, ok := seen[id]`
  unfoldable pub seen : List (PlayerState F) → String → Bool
  seen [] id = false
  seen (p ∷ players) id = p.id == id || seen players id

  -- The loop that deletes the players who are not in the snapshot.
  unfoldable pub forget_unseen {ℓ} : {A : Type ℓ} → List (PlayerState F) → Map A → Map A
  forget_unseen players [] = []
  forget_unseen players ((id, hist) ∷ known) =
      let rest = forget_unseen players known in if seen players id then (id, hist) ∷ rest else rest

  unfoldable pub update_players : ℕ → List (PlayerState F) → Client F → Client F
  unfolding update_each forget_unseen
  update_players now players c =
      let c1 = update_each now players c in record c1 { players = forget_unseen players c1.players }

  unfoldable pub handle_snapshot : ℕ → Snapshot F → Client F → Client F
  unfolding update_players
  handle_snapshot now s c = record (update_players now s.players c) {
    resources = s.resources;
    mammoths = s.mammoths;
    wells = s.wells;
    houses = s.houses;
    boats = s.boats;
    mobs = s.mobs;
    projectiles = s.projectiles;
    solar = s.solar;
    batteries = s.batteries;
    factories = s.factories;
    earth_pos = s.earth_pos;
    earth_vel = s.earth_vel;
    planet2_pos = s.planet2_pos;
    planet2_vel = s.planet2_vel;
    last_tick = s.tick;
    rockets = s.rockets;
  }

  unfoldable pub handle_chat : ChatMessage → Client F → Client F
  unfolding try_send
  handle_chat message c = record c { chat_ch = try_send chat_capacity message c.chat_ch }

  unfoldable pub handle_inventory_update : Map ℤ → Client F → Client F
  handle_inventory_update items c = record c { inventory = items }

  unfoldable pub handle_teleport : Vector3 F → Client F → Client F
  unfolding try_send
  handle_teleport p c = record c { teleport_ch = try_send teleport_capacity p c.teleport_ch }

  -- `time.Duration(time.Now().UnixMilli()-p.Sent) * time.Millisecond`, in int64.
  unfoldable pub handle_pong : ℕ → ℤ → Client F → Client F
  handle_pong now sent c = record c {
    rtt = int_mul (int_sub (pos (unix_milli now)) sent) (pos millisecond);
  }

  -- A welcome after the handshake is ignored.
  unfoldable pub handle : ℕ → Message F → Client F → Client F
  unfolding handle_snapshot handle_chat handle_inventory_update handle_teleport handle_pong
  handle now (snapshot s) c = handle_snapshot now s c
  handle now (chat message) c = handle_chat message c
  handle now (inventory_update items) c = handle_inventory_update items c
  handle now (teleport p) c = handle_teleport p c
  handle now (pong p) c = handle_pong now p.sent c
  handle now (welcome _) c = c

module _ {F : Type 0} ⦃fl : Float F⦄ where
  unfoldable pub fresh_client : Client F
  fresh_client =
      let nobody : PlayerState F = record {
        id = "";
        nick = "";
        at = origin;
        yaw = num 0;
        pitch = num 0;
        hunger = num 0;
        hp = pos 0;
        rtt_ms = pos 0;
        color_hex = [];
      } in
      record {
        conn = none;
        status = disconnected;
        nick = "";
        player_id = "";
        rtt = pos 0;
        players = [];
        own_hunger = num 0;
        own_hp = pos 0;
        chat_ch = [];
        teleport_ch = [];
        earth_pos = origin;
        earth_vel = origin;
        planet2_pos = origin;
        planet2_vel = origin;
        last_tick = 0;
        resources = [];
        mammoths = [];
        wells = [];
        houses = [];
        boats = [];
        mobs = [];
        projectiles = [];
        inventory = [];
        last_state = nobody;
        done = none;
        solar = [];
        batteries = [];
        factories = [];
        rockets = [];
      }
