-- ===== src/Server/Connection.antt =====
-- The life of a connection: internal/server/net/server_conn.go. The socket and its deadlines are
-- not modelled; `perform_hello` starts where the hello has been decoded.
pub mod Colour
pub mod Leaving
use lodeen.Base.{
  ℕ, ◌+◌, String, Bool, true, false, List, [], ◌∷◌, ◌&&◌, ◌||◌, map, ◌==◌, leb, eqb, length,
  if◌then◌else◌,
}
use Prim.Native.String.{◌++◌, slice}
use lodeen.Base.Map.{insert, erase, map_values}
use lodeen.Base.Float.{Float, num}
use lodeen.Protocol.Geometry.{origin}
use lodeen.Protocol.Messages.{Hello, welcome, inventory_update}
use lodeen.Server.State.{Client, Server, Rocket, fresh_state}
use lodeen.Server.Client.{enqueue, set_state, set_color_hex}

unfoldable pub is_hex : ℕ → Bool
is_hex c = (leb b'0' c && leb c b'9') || (leb b'a' c && leb c b'f') || (leb b'A' c && leb c b'F')

unfoldable pub all_hex : List ℕ → Bool
all_hex [] = true
all_hex (c ∷ cs) = let rest = all_hex cs in if is_hex c then rest else false

-- `strings.ToLower` on one ASCII byte.
unfoldable pub to_lower : ℕ → ℕ
to_lower c = if leb b'A' c && leb c b'Z' then c + 32 else c

unfoldable pub sanitize_color_hex : List ℕ → List ℕ
sanitize_color_hex [] = []
sanitize_color_hex (c ∷ cs) =
    if eqb (length (c ∷ cs)) 7 && eqb c b'#'
    then if all_hex cs then map to_lower (c ∷ cs) else []
    else []

-- `hello.Nick`, or `"anon-" + client.ID[:6]`.
unfoldable pub nick_of : Hello → String → String
nick_of h id = if h.nick == "" then "anon-" ++ slice id 0 6 else h.nick

module _ {F : Type 0} ⦃fl : Float F⦄ where
  unfoldable pub perform_hello : Hello → Client F → Client F
  unfolding nick_of
  perform_hello h c =
      let nick = nick_of h c.id in
      set_color_hex (sanitize_color_hex h.color_hex)
        (set_state (fresh_state c.id nick origin) (record c { nick = nick }))

  unfoldable pub welcome_client : Server F → Client F → Client F
  welcome_client s c = enqueue (inventory_update []) (
      enqueue
        (welcome (record {
          player_id = c.id;
          world_name = "lodeen-flat";
          tick_rate = s.tick_rate;
          server_version = "dev";
        }))
        c)

  unfoldable pub register_client : Client F → Server F → Server F
  unfolding welcome_client
  register_client c s = record s { clients = insert c.id (welcome_client s c) s.clients }

  unfoldable pub release_rocket : String → Rocket F → Rocket F
  release_rocket id r =
      if r.owner_id == id then record r { piloted = false; owner_id = ""; thrust = num 0 } else r

  -- The record of the client is gone from the registry, and its rockets are free.
  unfoldable pub unregister_client : String → Server F → Server F
  unregister_client id s = record s {
    clients = erase id s.clients;
    rockets = map_values (release_rocket id) s.rockets;
  }
