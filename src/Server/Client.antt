-- ===== src/Server/Client.antt =====
-- One connected player and its inventory: internal/server/net/player.go, and `sendInventory` of
-- mobs_handlers.go.
pub mod Inventory
pub mod Vitals
use lodeen.Base.{ℕ, String, List, [], ◌∷◌, ◌++◌, Option, none, some, length, ltb, if◌then◌else◌}
use lodeen.Base.Int.{ℤ, pos, int_add, int_sub, leb_ℤ, ltb_ℤ, eqb_ℤ}
use lodeen.Base.Map.{Map, lookup, insert, erase}
use lodeen.Base.Float.{Float, ◌⊕◌, num, flt}
use lodeen.Protocol.Messages.{PlayerState, Message, chat, inventory_update}
use lodeen.Server.State.{Client}
use lodeen.Server.Time.{unix_milli}

-- `m[k]` on a map of numbers: 0 where the key is missing.
unfoldable pub quantity : String → Map ℤ → ℤ
quantity k m = elim (lookup k m) [ none ↦ pos 0 | some v ↦ v ]

-- One unit less, and no entry of 0.
unfoldable pub take_one : String → Map ℤ → Map ℤ
unfolding quantity
take_one item inv =
    let left = int_sub (quantity item inv) (pos 1) in
    if eqb_ℤ left (pos 0) then erase item (insert item left inv) else insert item left inv

-- `sendBufSize`
abbrev pub send_buf_size : ℕ
send_buf_size = 256

module _ {F : Type 0} where
  -- `State`: hit points and colour are the server's own.
  unfoldable pub state_of : Client F → PlayerState F
  state_of c = record (c.state) { hp = c.hp; color_hex = c.color_hex }

  unfoldable pub set_color_hex : List ℕ → Client F → Client F
  set_color_hex hex c = record c { color_hex = hex }

  unfoldable pub set_state : PlayerState F → Client F → Client F
  set_state st c = record c { state = record st { color_hex = c.color_hex } }

  -- A message is dropped when the buffer is full. Of a closed client nobody reads the buffer.
  unfoldable pub enqueue : Message F → Client F → Client F
  enqueue msg c =
      if c.closed
      then c
      else if ltb (length c.send) send_buf_size
      then record c { send = c.send ++ msg ∷ [] }
      else c

  unfoldable pub send_inventory : Client F → Client F
  unfolding enqueue
  send_inventory c = enqueue (inventory_update c.inventory) c

  -- The inventory after `addItem`, which the caller sends.
  unfoldable pub add_item : String → Client F → Client F
  unfolding quantity
  add_item item c = record c {
    inventory = insert item (int_add (quantity item c.inventory) (pos 1)) c.inventory;
  }

  -- `none` is the answer `false`.
  unfoldable pub consume_item : String → Client F → Option (Client F)
  unfolding take_one
  consume_item item c =
      if leb_ℤ (quantity item c.inventory) (pos 0)
      then none
      else some (record c { inventory = take_one item c.inventory })

  -- The server's clock is `now`.
  unfoldable pub damage : ℕ → ℤ → Client F → Client F
  unfolding enqueue
  damage now n c =
      let left = int_sub c.hp n in
      let hp : ℤ = if ltb_ℤ left (pos 0) then pos 0 else left in
      let hurt : Client F = record c { hp = hp } in
      if eqb_ℤ hp (pos 0)
      then enqueue (chat (record { sender = "server"; text = "you died"; ts = unix_milli now }))
          hurt
      else hurt

module _ {F : Type 0} ⦃fl : Float F⦄ where
  unfoldable pub clamp_hunger : F → F
  clamp_hunger h =
      let low : F = if flt (num 100) h then num 100 else h in if flt low (num 0) then num 0 else low

  unfoldable pub add_hunger : F → Client F → Client F
  unfolding clamp_hunger
  add_hunger delta c = record c { hunger = clamp_hunger (c.hunger ⊕ delta) }
