-- ===== src/Client/Net/Actions.antt =====
-- What the client asks of the server: internal/client/net/actions.go, and `send` of client.go. The
-- argument `written` is whether the write of the frame succeeds.
use lodeen.Base.{
  ℕ, suc, ◌*◌, ◌/◌, ◌%◌, ◌-◌, String, Bool, [], ◌∷◌, ◌++◌, none, some, ltb, if◌then◌else◌,
}
use lodeen.Base.Int.{ℤ, pos, negsuc, sub_ℕ}
use lodeen.Protocol.Geometry.{Vector3}
use lodeen.Protocol.Messages.{PlayerState, Place, RocketInput}
use lodeen.Server.Dispatch.{Request}
use lodeen.Client.Net.{Client}

pub data Sent : Type 0 where
  delivered not_connected write_failed : Sent

-- `Milliseconds` of a duration, rounded towards zero.
unfoldable pub milliseconds : ℤ → ℤ
milliseconds (pos d) = pos (d / 1000000)
milliseconds (negsuc d) = sub_ℕ 0 (suc d / 1000000)

-- 2^31
abbrev pub int32_bound : ℕ
int32_bound = 2147483648

-- `int32(n)`
unfoldable pub int32 : ℤ → ℤ
int32 (pos n) =
    let r = n % (2 * int32_bound) in
    if ltb r int32_bound then pos r else negsuc (2 * int32_bound - 1 - r)
int32 (negsuc n) =
    let r = n % (2 * int32_bound) in
    if ltb r int32_bound then negsuc r else pos (2 * int32_bound - 1 - r)

module _ {F : Type 0} where
  unfoldable pub send : Bool → Request F → Client F → Client F × Sent
  send written request c = elim c.conn [
    | none ↦ (c, not_connected)
    | some sent ↦
        if written
        then (record c { conn = some (sent ++ request ∷ []) }, delivered)
        else (c, write_failed)
  ]

  unfoldable pub set_state : PlayerState F → Client F → Client F
  set_state st c = record c { last_state = st }

  -- One turn of the loop that `StartStateLoop` starts.
  unfoldable pub send_state : Bool → Client F → Client F × Sent
  unfolding send int32 milliseconds
  send_state written c =
      let st : PlayerState F = record (c.last_state) { rtt_ms = int32 (milliseconds c.rtt) } in
      send written (Request.state_update st) c

  -- One turn of `pingLoop`, at the time `sent` in milliseconds.
  unfoldable pub send_ping : Bool → ℤ → Client F → Client F × Sent
  unfolding send
  send_ping written sent = send written (Request.ping sent)

  unfoldable pub send_chat : Bool → String → Client F → Client F × Sent
  unfolding send
  send_chat written text = send written (Request.chat_text text)

  unfoldable pub throw_spear : Bool → Vector3 F → Client F → Client F × Sent
  unfolding send
  throw_spear written dir = send written (Request.throw_spear dir)

  unfoldable pub hit_mammoth : Bool → String → Client F → Client F × Sent
  unfolding send
  hit_mammoth written id = send written (Request.hit_mammoth id)

  unfoldable pub craft_item : Bool → String → Client F → Client F × Sent
  unfolding send
  craft_item written recipe = send written (Request.craft_item recipe)

  unfoldable pub eat_fruit : Bool → Client F → Client F × Sent
  unfolding send
  eat_fruit written = send written Request.eat_fruit

  unfoldable pub pickup_item : Bool → String → Client F → Client F × Sent
  unfolding send
  pickup_item written resource_id = send written (Request.pickup_item resource_id)

  unfoldable pub plant_seed : Bool → Vector3 F → Client F → Client F × Sent
  unfolding send
  plant_seed written p = send written (Request.plant_seed p)

  unfoldable pub water_plant : Bool → String → Client F → Client F × Sent
  unfolding send
  water_plant written resource_id = send written (Request.water_plant resource_id)

  unfoldable pub take_water : Bool → String → Client F → Client F × Sent
  unfolding send
  take_water written well_id = send written (Request.take_water well_id)

  unfoldable pub hit_mob : Bool → String → Client F → Client F × Sent
  unfolding send
  hit_mob written id = send written (Request.hit_mob id)

  unfoldable pub accept_contract : Bool → String → String → Client F → Client F × Sent
  unfolding send
  accept_contract written mob_id contract_id =
      send written (Request.accept_contract mob_id contract_id)

  unfoldable pub tame_mammoth : Bool → String → Client F → Client F × Sent
  unfolding send
  tame_mammoth written id = send written (Request.tame_mammoth id)

  unfoldable pub select_item : Bool → String → Client F → Client F × Sent
  unfolding send
  select_item written item = send written (Request.select_item item)

  unfoldable pub leash_mammoth : Bool → String → Client F → Client F × Sent
  unfolding send
  leash_mammoth written id = send written (Request.leash_mammoth id)

  unfoldable pub place_house : Bool → Place F → Client F → Client F × Sent
  unfolding send
  place_house written p = send written (Request.place_house p)

  unfoldable pub toggle_door : Bool → String → Client F → Client F × Sent
  unfolding send
  toggle_door written house_id = send written (Request.toggle_door house_id)

  unfoldable pub saddle_mammoth : Bool → String → Client F → Client F × Sent
  unfolding send
  saddle_mammoth written id = send written (Request.saddle_mammoth id)

  unfoldable pub place_boat : Bool → Place F → Client F → Client F × Sent
  unfolding send
  place_boat written p = send written (Request.place_boat p)

  unfoldable pub enter_boat : Bool → String → Client F → Client F × Sent
  unfolding send
  enter_boat written boat_id = send written (Request.enter_boat boat_id)

  unfoldable pub place_rocket : Bool → Vector3 F → Client F → Client F × Sent
  unfolding send
  place_rocket written p = send written (Request.place_rocket p)

  unfoldable pub board_rocket : Bool → String → Client F → Client F × Sent
  unfolding send
  board_rocket written id = send written (Request.board_rocket id)

  unfoldable pub exit_rocket : Bool → Client F → Client F × Sent
  unfolding send
  exit_rocket written = send written Request.exit_rocket

  unfoldable pub rocket_input : Bool → RocketInput F → Client F → Client F × Sent
  unfolding send
  rocket_input written p = send written (Request.rocket_input p)

  unfoldable pub place_solar : Bool → Place F → Client F → Client F × Sent
  unfolding send
  place_solar written p = send written (Request.place_solar p)

  unfoldable pub place_battery : Bool → Place F → Client F → Client F × Sent
  unfolding send
  place_battery written p = send written (Request.place_battery p)

  unfoldable pub place_factory : Bool → Place F → Client F → Client F × Sent
  unfolding send
  place_factory written p = send written (Request.place_factory p)

  unfoldable pub open_factory : Bool → String → Client F → Client F × Sent
  unfolding send
  open_factory written id = send written (Request.open_factory id)

  unfoldable pub craft_factory : Bool → String → String → Client F → Client F × Sent
  unfolding send
  craft_factory written factory_id recipe_id =
      send written (Request.craft_factory factory_id recipe_id)

  unfoldable pub ride_mammoth : Bool → String → Client F → Client F × Sent
  unfolding send
  ride_mammoth written id = send written (Request.ride_mammoth id)
