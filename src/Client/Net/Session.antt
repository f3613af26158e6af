-- ===== src/Client/Net/Session.antt =====
-- The life of a connection: `Connect`, `Disconnect` and the end of `readLoop` in
-- internal/client/net/client.go. What the network answers is an argument.
use lodeen.Base.{String, Bool, true, false, List, [], ◌∷◌, Option, none, some, if◌then◌else◌}
use lodeen.Protocol.Messages.{
  Welcome, Message, welcome, chat, pong, inventory_update, teleport, snapshot,
}
use lodeen.Client.Net.{Status, disconnected, connecting, connected, Client}

pub data ConnectError : Type 0 where
  already_connected dial_failed write_failed read_failed bad_answer expected_welcome : ConnectError

pub data ConnectResult : Type 0 where
  welcomed : Welcome → ConnectResult
  failed : ConnectError → ConnectResult

-- What happens on the network: the first step that fails, or the message that comes back.
pub data Answer (F : Type 0) : Type 0 where
  no_dial no_write no_read not_json : Answer F
  answer : Message F → Answer F

abbrev pub is_busy : Status → Bool
is_busy disconnected = false
is_busy connecting = true
is_busy connected = true

-- `select { case <-done: default: close(done) }`, where there is a channel.
unfoldable pub close_done : Option Bool → Option Bool
close_done none = none
close_done (some _) = some true

module _ {F : Type 0} where
  unfoldable pub receive_welcome : Message F → Client F → Client F × ConnectResult
  receive_welcome (welcome w) c = (
    record c { conn = some []; status = connected; player_id = w.player_id; done = some false },
    welcomed w,
  )
  receive_welcome (chat _) c = (c, failed expected_welcome)
  receive_welcome (pong _) c = (c, failed expected_welcome)
  receive_welcome (inventory_update _) c = (c, failed expected_welcome)
  receive_welcome (teleport _) c = (c, failed expected_welcome)
  receive_welcome (snapshot _) c = (c, failed expected_welcome)

  -- Only a failed dial sets the status back.
  unfoldable pub greet : Answer F → Client F → Client F × ConnectResult
  unfolding receive_welcome
  greet no_dial c = (record c { status = disconnected }, failed dial_failed)
  greet no_write c = (c, failed write_failed)
  greet no_read c = (c, failed read_failed)
  greet not_json c = (c, failed bad_answer)
  greet (answer m) c = receive_welcome m c

  unfoldable pub connect : Answer F → String → Client F → Client F × ConnectResult
  unfolding greet
  connect network nick c =
      if is_busy c.status
      then (c, failed already_connected)
      else greet network (record c { status = connecting; nick = nick })

  unfoldable pub disconnect : Client F → Client F
  unfolding close_done
  disconnect c = record c {
    status = disconnected;
    conn = none;
    done = close_done c.done;
    players = [];
  }

  -- The end of `readLoop`, when a frame cannot be read. The connection is not set to nil.
  unfoldable pub lose_connection : Client F → Client F
  unfolding close_done
  lose_connection c = record c { status = disconnected; done = close_done c.done }

  -- Whether an answer is a failure after the dial: of the write, the read or the greeting itself.
  abbrev pub IsBrokenGreeting : Answer F → Type 0
  IsBrokenGreeting no_dial = ⊥
  IsBrokenGreeting no_write = Unit
  IsBrokenGreeting no_read = Unit
  IsBrokenGreeting not_json = Unit
  IsBrokenGreeting (answer (welcome _)) = ⊥
  IsBrokenGreeting (answer (chat _)) = Unit
  IsBrokenGreeting (answer (pong _)) = Unit
  IsBrokenGreeting (answer (inventory_update _)) = Unit
  IsBrokenGreeting (answer (teleport _)) = Unit
  IsBrokenGreeting (answer (snapshot _)) = Unit

  -- Attempts one after another: what the network would answer, and the name.
  abbrev pub try_all : List (Answer F × String) → Client F → Client F
  try_all [] c = c
  try_all ((network, nick) ∷ tries) c = try_all tries (connect network nick c).0
