-- ===== src/Server/Dispatch.antt =====
-- Which handler takes which message: `messageHandlers` of internal/server/net/dispatch.go. A request
-- is a decoded message of a known type; all others are ignored.
pub mod Pilots
use lodeen.Base.{ℕ, String}
use lodeen.Base.Int.{ℤ}
use lodeen.Base.Float.{Float}
use lodeen.Protocol.Geometry.{Vector3}
use lodeen.Protocol.Messages.{PlayerState, Place, RocketInput}
use lodeen.Server.State.{Client, Server}
use lodeen.Server.Boats.{handle_place_boat, handle_enter_boat}
use lodeen.Server.Chat.{handle_chat}
use lodeen.Server.Crafting.{handle_craft}
use lodeen.Server.Energy.{
  handle_place_solar, handle_place_battery, handle_place_factory, handle_craft_factory,
}
use lodeen.Server.Farm.{handle_plant_seed, handle_water_plant}
use lodeen.Server.Houses.{handle_place_house, handle_toggle_door}
use lodeen.Server.Items.{
  handle_state, handle_ping, handle_eat_fruit, handle_select_item, handle_pickup, handle_take_water,
  handle_throw_spear,
}
use lodeen.Server.Mammoths.{
  handle_tame_mammoth, handle_leash_mammoth, handle_saddle_mammoth, handle_ride_mammoth,
  handle_hit_mammoth,
}
use lodeen.Server.Mobs.{Fresh, handle_accept_contract, handle_hit_mob}
use lodeen.Server.Rockets.{
  handle_place_rocket, handle_board_rocket, handle_exit_rocket, handle_rocket_input,
}

pub data Request (F : Type 0) : Type 0 where
  state_update : PlayerState F → Request F
  chat_text : String → Request F
  ping : ℤ → Request F
  eat_fruit exit_rocket : Request F
  select_item pickup_item craft_item water_plant take_water : String → Request F
  hit_mammoth tame_mammoth leash_mammoth saddle_mammoth ride_mammoth : String → Request F
  toggle_door enter_boat hit_mob open_factory board_rocket : String → Request F
  plant_seed throw_spear place_rocket : Vector3 F → Request F
  place_house place_boat place_solar place_battery place_factory : Place F → Request F
  accept_contract craft_factory : String → String → Request F
  rocket_input : RocketInput F → Request F

-- The clock, and the new identifiers and random numbers that a handler may take.
pub record Inputs (F : Type 0) : Type 0 where
  pub now : ℕ
  pub id : String
  pub drop_ids : String × String
  pub fresh : ℕ → Fresh F

module _ {F : Type 0} ⦃fl : Float F⦄ where
  unfoldable pub handle_message : Inputs F → Request F → Server F → Client F → Server F × Client F
  handle_message i (state_update st) s c = (s, handle_state st c)
  handle_message i (chat_text text) s c = handle_chat i.now text s c
  handle_message i (ping sent) s c = (s, handle_ping i.now sent c)
  handle_message i eat_fruit s c = (s, handle_eat_fruit c)
  handle_message i (select_item item) s c = (s, handle_select_item item c)
  handle_message i exit_rocket s c = (handle_exit_rocket s c, c)
  handle_message i (pickup_item id) s c = handle_pickup id s c
  handle_message i (throw_spear _) s c = (s, handle_throw_spear i.now c)
  handle_message i (craft_item recipe) s c = (s, handle_craft recipe c)
  handle_message i (hit_mammoth id) s c = handle_hit_mammoth i.now i.drop_ids id s c
  handle_message i (plant_seed p) s c = handle_plant_seed i.id p s c
  handle_message i (water_plant id) s c = handle_water_plant i.now id s c
  handle_message i (take_water id) s c = (s, handle_take_water id s c)
  handle_message i (tame_mammoth id) s c = handle_tame_mammoth id s c
  handle_message i (leash_mammoth id) s c = (handle_leash_mammoth id s c, c)
  handle_message i (place_house p) s c = handle_place_house i.id p s c
  handle_message i (toggle_door id) s c = (handle_toggle_door id s c, c)
  handle_message i (saddle_mammoth id) s c = handle_saddle_mammoth id s c
  handle_message i (ride_mammoth id) s c = (handle_ride_mammoth id s c, c)
  handle_message i (place_boat p) s c = handle_place_boat i.id p s c
  handle_message i (enter_boat id) s c = (handle_enter_boat id s c, c)
  handle_message i (hit_mob id) s c = handle_hit_mob i.fresh id s c
  handle_message i (accept_contract mob_id contract_id) s c =
      handle_accept_contract mob_id contract_id s c
  handle_message i (place_solar p) s c = handle_place_solar i.id p s c
  handle_message i (place_battery p) s c = handle_place_battery i.id p s c
  handle_message i (place_factory p) s c = handle_place_factory i.id p s c
  handle_message i (open_factory _) s c = (s, c)
  handle_message i (craft_factory factory_id recipe_id) s c =
      handle_craft_factory factory_id recipe_id s c
  handle_message i (place_rocket p) s c = handle_place_rocket i.id p s c
  handle_message i (board_rocket id) s c = (handle_board_rocket id s c, c)
  handle_message i (rocket_input p) s c = (handle_rocket_input p s c, c)
