-- ===== src/Client/Net/Steps.antt =====
-- What a client can go through: connecting, messages of the server, requests, turns of the ping loop
-- and of the state loop, the reading of its two channels, the loss of the connection and its end,
-- while the clock runs; and what holds of its memory all along.
use lodeen.Base.Float.{Float}
use lodeen.Client.Net.Actions.{send, set_state, send_ping, send_state}
use lodeen.Server.Dispatch.{Request}
use lodeen.Base.Int.{ℤ}
use lodeen.Client.Net.Session.{Answer, connect, greet, receive_welcome, disconnect, lose_connection}
use lodeen.Client.Net.Recorded.{IsRecorded, IsRecorded-later, update_players-IsRecorded}
use lodeen.Protocol.Geometry.{Vector3}
use lodeen.Protocol.Messages.{
  PlayerState, ChatMessage, Message, welcome, chat, pong, inventory_update, teleport, snapshot,
}
use lodeen.Client.Net.{
  Client, update_player, update_each, update_players, handle, handle_snapshot, handle_chat,
  handle_inventory_update, handle_teleport, handle_pong, try_send, chat_capacity, teleport_capacity,
  fresh_client,
}
use lodeen.Base.{ℕ, ◌≤◌, ◌≡◌, refl, arith, String, Bool, List, [], ◌∷◌, length, length-append}

length-try_send {ℓ} :
    {A : Type ℓ} (capacity : ℕ) (value : A) (buffer : List A)
    → length buffer ≤ capacity
    → length (try_send capacity value buffer) ≤ capacity
unfolding try_send
length-try_send capacity value buffer h = ground (arith, length-append buffer (value ∷ []))

length-rest {ℓ} :
    {A : Type ℓ} {xs rest : List A} {x : A} {capacity : ℕ}
    → xs ≡ x ∷ rest
    → length xs ≤ capacity
    → length rest ≤ capacity
length-rest e h = ground arith

module _ {F : Type 0} where
  -- One event, with the clock before and after it.
  pub data ClientStep : ℕ → Client F → ℕ → Client F → Type 0 where
    connects :
        {now : ℕ} {c : Client F} (network : Answer F) (nick : String)
        → ClientStep now c now (connect network nick c).0
    hears :
        {now : ℕ} {c : Client F} (later : ℕ) (m : Message F)
        → now ≤ later
        → ClientStep now c later (handle later m c)
    loses : {now : ℕ} {c : Client F} → ClientStep now c now (lose_connection c)
    leaves : {now : ℕ} {c : Client F} → ClientStep now c now (disconnect c)
    looks : {now : ℕ} {c : Client F} (st : PlayerState F) → ClientStep now c now (set_state st c)
    asks :
        {now : ℕ} {c : Client F} (written : Bool) (request : Request F)
        → ClientStep now c now (send written request c).0
    pings :
        {now : ℕ} {c : Client F} (written : Bool) (sent : ℤ)
        → ClientStep now c now (send_ping written sent c).0
    takes_chat :
        {now : ℕ} {c : Client F} (text : ChatMessage) (rest : List ChatMessage)
        → c.chat_ch ≡ text ∷ rest
        → ClientStep now c now (record c { chat_ch = rest })
    takes_teleport :
        {now : ℕ} {c : Client F} (place : Vector3 F) (rest : List (Vector3 F))
        → c.teleport_ch ≡ place ∷ rest
        → ClientStep now c now (record c { teleport_ch = rest })
    reports :
        {now : ℕ} {c : Client F} (written : Bool) → ClientStep now c now (send_state written c).0

  pub data ClientSteps (start : ℕ) (c : Client F) : ℕ → Client F → Type 0 where
    here : ClientSteps start c start c
    next :
        {now later : ℕ} {d e : Client F}
        → ClientSteps start c now d
        → ClientStep now d later e
        → ClientSteps start c later e

  -- The memory of players is in order, and no channel holds more than its buffer.
  pub record IsSound (now : ℕ) (c : Client F) : Type 0 where
    pub recorded : IsRecorded now c.players
    pub chat_fits : length c.chat_ch ≤ chat_capacity
    pub teleport_fits : length c.teleport_ch ≤ teleport_capacity

  update_each-chat_ch :
      (now : ℕ) (players : List (PlayerState F)) (c : Client F)
      → ((update_each now players c).chat_ch ≡ c.chat_ch)
        × ((update_each now players c).teleport_ch ≡ c.teleport_ch)
  unfolding update_each update_player
  update_each-chat_ch now [] c = (refl, refl)
  update_each-chat_ch now (p ∷ players) c = update_each-chat_ch now players (update_player now p c)

  handle-IsSound :
      {now : ℕ} (later : ℕ) (m : Message F) (c : Client F)
      → now ≤ later
      → IsSound now c
      → IsSound later (handle later m c)
  unfolding handle handle_snapshot handle_chat handle_inventory_update handle_teleport handle_pong
      update_players
  handle-IsSound later (snapshot s) c h v =
      let kept = update_each-chat_ch later s.players c in
      record {
        recorded = update_players-IsRecorded later s.players c (IsRecorded-later h v.recorded);
        chat_fits = rw (kept.0) (v.chat_fits);
        teleport_fits = rw (kept.1) (v.teleport_fits);
      }
  handle-IsSound later (chat m) c h v = record {
    recorded = IsRecorded-later h v.recorded;
    chat_fits = length-try_send chat_capacity m c.chat_ch v.chat_fits;
    teleport_fits = v.teleport_fits;
  }
  handle-IsSound later (inventory_update items) c h v = record {
    recorded = IsRecorded-later h v.recorded;
    chat_fits = v.chat_fits;
    teleport_fits = v.teleport_fits;
  }
  handle-IsSound later (teleport p) c h v = record {
    recorded = IsRecorded-later h v.recorded;
    chat_fits = v.chat_fits;
    teleport_fits = length-try_send teleport_capacity p c.teleport_ch v.teleport_fits;
  }
  handle-IsSound later (pong p) c h v = record {
    recorded = IsRecorded-later h v.recorded;
    chat_fits = v.chat_fits;
    teleport_fits = v.teleport_fits;
  }
  handle-IsSound later (welcome w) c h v = record {
    recorded = IsRecorded-later h v.recorded;
    chat_fits = v.chat_fits;
    teleport_fits = v.teleport_fits;
  }

  -- `Connect` leaves the memory alone.
  connect-players :
      (network : Answer F) (nick : String) (c : Client F)
      → ((connect network nick c).0.players ≡ c.players)
        × ((connect network nick c).0.chat_ch ≡ c.chat_ch)
        × ((connect network nick c).0.teleport_ch ≡ c.teleport_ch)
  unfolding connect greet receive_welcome
  connect-players network nick c = ground arith

  -- So does a request.
  send-players :
      (written : Bool) (request : Request F) (c : Client F)
      → ((send written request c).0.players ≡ c.players)
        × ((send written request c).0.chat_ch ≡ c.chat_ch)
        × ((send written request c).0.teleport_ch ≡ c.teleport_ch)
  unfolding send
  send-players written request c = ground arith

  send-IsSound :
      {now : ℕ} (written : Bool) (request : Request F) (c : Client F)
      → IsSound now c
      → IsSound now (send written request c).0
  send-IsSound written request c v =
      let kept = send-players written request c in
      record {
        recorded = rw (kept.0) (v.recorded);
        chat_fits = rw (kept.1) (v.chat_fits);
        teleport_fits = rw (kept.2) (v.teleport_fits);
      }

  ClientStep-IsSound :
      {now later : ℕ} {c d : Client F} → ClientStep now c later d → IsSound now c → IsSound later d
  unfolding disconnect lose_connection set_state send_ping send_state
  ClientStep-IsSound (connects {c} network nick) v =
      let kept = connect-players network nick c in
      record {
        recorded = rw (kept.0) (v.recorded);
        chat_fits = rw (kept.1) (v.chat_fits);
        teleport_fits = rw (kept.2) (v.teleport_fits);
      }
  ClientStep-IsSound (hears {c} later m h) v = handle-IsSound later m c h v
  ClientStep-IsSound loses v = record {
    recorded = v.recorded;
    chat_fits = v.chat_fits;
    teleport_fits = v.teleport_fits;
  }
  ClientStep-IsSound leaves v = record {
    recorded = record { once = tt; histories = tt };
    chat_fits = v.chat_fits;
    teleport_fits = v.teleport_fits;
  }
  ClientStep-IsSound (asks {c} written request) v = send-IsSound written request c v
  ClientStep-IsSound (pings {c} written sent) v = send-IsSound written (Request.ping sent) c v
  ClientStep-IsSound (reports {c} written) v = send-IsSound written _ c v
  ClientStep-IsSound (takes_chat {c} text rest e) v = record {
    recorded = v.recorded;
    chat_fits = length-rest e v.chat_fits;
    teleport_fits = v.teleport_fits;
  }
  ClientStep-IsSound (takes_teleport {c} place rest e) v = record {
    recorded = v.recorded;
    chat_fits = v.chat_fits;
    teleport_fits = length-rest e v.teleport_fits;
  }
  ClientStep-IsSound (looks st) v = record {
    recorded = v.recorded;
    chat_fits = v.chat_fits;
    teleport_fits = v.teleport_fits;
  }

module _ {F : Type 0} ⦃fl : Float F⦄ where
  -- Whatever the server sends and the client asks, and whenever the connection comes and goes, a
  -- client started afresh remembers each player once, with at least one state and at most twenty, in
  -- the order of their times and none from the future; and its two channels never hold more than
  -- their buffers.
  pub ClientSteps-IsSound :
      {start now : ℕ} {c : Client F} → ClientSteps start fresh_client now c → IsSound now c
  unfolding fresh_client
  ClientSteps-IsSound here = record {
    recorded = record { once = tt; histories = tt };
    chat_fits = omega arith;
    teleport_fits = omega arith;
  }
  ClientSteps-IsSound (next steps step) = ClientStep-IsSound step (ClientSteps-IsSound steps)
