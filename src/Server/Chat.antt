-- ===== src/Server/Chat.antt =====
-- Chat and the cheat commands: internal/server/net/handlers_chat.go, and `broadcast` of
-- server_util.go. A text is a sequence of characters: the code walks bytes, and stops at the first
-- that is no ASCII digit, so it splits a text at the same place.
pub mod Quantity
use lodeen.Base.{
  ℕ, ◌-◌, String, Bool, true, false, List, [], ◌∷◌, Option, none, some, ◌&&◌, ◌==◌, leb,
  if◌then◌else◌,
}
use Prim.Native.Char.{Char, code}
use mathlib.Core.List.{reverse}
use text.Mathlib.Text.{starts_with}
use lodeen.Base.Int.{ℤ, pos, int_add, int_mul, ltb_ℤ}
use lodeen.Base.Map.{Map, insert, map_values}
use lodeen.Base.Float.{Float, ◌⊕◌, num, flt}
use lodeen.Protocol.Geometry.{
  Vector3, player_height, planet_radius, planet2_radius, sun_radius, star2_radius, sun_pos,
  star2_pos,
}
use lodeen.Protocol.Messages.{Message, chat, teleport}
use lodeen.Server.State.{Client, Server, fresh_state}
use lodeen.Server.Client.{quantity, enqueue, send_inventory, set_state}
use lodeen.Server.Time.{unix_milli}

unfoldable pub is_digit : Char → Bool
is_digit c = leb b'0' (code c) && leb (code c) b'9'

abbrev pub chars : String → List Char
chars String.[] = []
chars (String.◌∷◌ c s) = c ∷ chars s

abbrev pub text_of : List Char → String
text_of [] = String.[]
text_of (c ∷ cs) = String.◌∷◌ c (text_of cs)

-- The loop that moves `i` to the left over digits: `rest[:i]`, last character first, and `rest[i:]`.
unfoldable pub split_digits : List Char → List Char → List Char × List Char
split_digits [] digits = ([], digits)
split_digits (c ∷ before) digits =
    let more = split_digits before (c ∷ digits) in if is_digit c then more else (c ∷ before, digits)

-- `qty = qty*10 + int(ch-'0')` for each digit.
unfoldable pub read_digits : ℤ → List Char → ℤ
read_digits qty [] = qty
read_digits qty (c ∷ cs) = read_digits (int_add (int_mul qty (pos 10)) (pos (code c - b'0'))) cs

unfoldable pub clamp_quantity : ℤ → ℤ
clamp_quantity q = if ltb_ℤ (pos 100000) q then pos 100000 else q

unfoldable pub name_and_quantity : List Char × List Char → Option (String × ℤ)
unfolding clamp_quantity
name_and_quantity ([], _) = none
name_and_quantity (c ∷ cs, []) = none
name_and_quantity (c ∷ cs, d ∷ ds) =
    some (text_of (reverse (c ∷ cs)), clamp_quantity (read_digits (pos 0) (d ∷ ds)))

unfoldable pub parse_get_arg : String → Option (String × ℤ)
unfolding name_and_quantity
parse_get_arg rest = name_and_quantity (split_digits (reverse (chars rest)) [])

abbrev pub all_items : List String
all_items =
    "stone" ∷ "wood" ∷ "ore" ∷ "fruit" ∷ "meat" ∷ "spear" ∷ "torch" ∷ "water" ∷ "liana" ∷ "leash"
    ∷ "house" ∷ "saddle" ∷ "boat" ∷ "solar" ∷ "battery" ∷ "factory" ∷ "steel" ∷ "gear" ∷ "circuit"
    ∷ "drone" ∷ "rocket" ∷ []

unfoldable pub set_all : List String → ℤ → Map ℤ → Map ℤ
set_all [] v m = m
set_all (k ∷ ks) v m = set_all ks v (insert k v m)

-- `text[len("/get"):]`
abbrev pub drop_four : String → String
drop_four (String.◌∷◌ _ (String.◌∷◌ _ (String.◌∷◌ _ (String.◌∷◌ _ s)))) = s
drop_four s = ""

module _ {F : Type 0} where
  unfoldable pub server_chat : ℕ → String → Message F
  server_chat now text = chat (record { sender = "server"; text = text; ts = unix_milli now })

  unfoldable pub cheat_all_inv : Client F → Client F
  cheat_all_inv c =
      send_inventory (record c { inventory = set_all all_items (pos 100) c.inventory })

  unfoldable pub cheat_infinite_fuel : ℕ → Client F → Client F
  unfolding server_chat
  cheat_infinite_fuel now c =
      let on = if c.infinite_fuel then false else true in
      enqueue (server_chat now (if on then "infinite fuel: ON" else "infinite fuel: OFF"))
        (record c { infinite_fuel = on })

  unfoldable pub cheat_clear_inv : Client F → Client F
  cheat_clear_inv c = send_inventory (record c { inventory = [] })

  unfoldable pub give : ℕ → Option (String × ℤ) → Client F → Client F
  unfolding server_chat
  give now none c = enqueue (server_chat now "usage: /get<item><qty>") c
  give now (some (name, qty)) c =
      send_inventory
        (record c { inventory = insert name (int_add (quantity name c.inventory) qty) c.inventory })

  unfoldable pub cheat_get : ℕ → String → Client F → Client F
  unfolding give
  cheat_get now rest c = give now (parse_get_arg rest) c

  -- One message for all connected clients.
  unfoldable pub broadcast : Message F → Map (Client F) → Map (Client F)
  broadcast msg = map_values (enqueue msg)

module _ {F : Type 0} ⦃fl : Float F⦄ where
  unfoldable pub cheat_teleport : Vector3 F → F → F → Client F → Client F
  cheat_teleport body radius offset c =
      let y = body.y ⊕ radius ⊕ offset in
      let p : Vector3 F = record {
        x = body.x;
        y = if flt offset (num 100) then y ⊕ player_height else y;
        z = body.z;
      } in
      enqueue (teleport p) (set_state (fresh_state c.id c.nick p) c)

  -- `none` is the answer `false`.
  unfoldable pub handle_cheat_command : ℕ → String → Server F → Client F → Option (Client F)
  handle_cheat_command now text s c =
      if text == "/allinv"
      then some (cheat_all_inv c)
      else if text == "/infuel"
      then some (cheat_infinite_fuel now c)
      else if text == "/clearinv"
      then some (cheat_clear_inv c)
      else if text == "/tp sun"
      then some (cheat_teleport sun_pos sun_radius (num 200) c)
      else if text == "/tp earth"
      then some (cheat_teleport s.world.earth_pos planet_radius (num 5) c)
      else if text == "/tp star2"
      then some (cheat_teleport star2_pos star2_radius (num 200) c)
      else if text == "/tp planet2"
      then some (cheat_teleport s.world.planet2_pos planet2_radius (num 5) c)
      else if starts_with text "/get"
      then some (cheat_get now (drop_four text) c)
      else none

  -- A text that is said goes to every client; `c` is the copy of the sender's record.
  unfoldable pub say : ℕ → String → Server F → Client F → Server F × Client F
  say now text s c =
      let msg : Message F = chat (record { sender = c.nick; text = text; ts = unix_milli now }) in
      (record s { clients = broadcast msg s.clients }, enqueue msg c)

  unfoldable pub handle_chat : ℕ → String → Server F → Client F → Server F × Client F
  unfolding say
  handle_chat now text s c =
      if starts_with text "/"
      then elim (handle_cheat_command now text s c) [ some d ↦ (s, d) | none ↦ say now text s c ]
      else say now text s c
