-- ===== src/Server/Dispatch/Pilots.antt =====
-- A rocket with a pilot obeys no other player, whatever message arrives.
use lodeen.Base.{
  ℕ, ◌≡◌, ◌≢◌, refl, String, true, [], ◌∷◌, Option, none, some, inl, inr, arith, eq_iff,
  Option-cases,
}
use lodeen.Base.Map.{Map, lookup, lookup-insert}
use lodeen.Base.Float.{Float}
use lodeen.Protocol.Geometry.{Vector3, clamp_to_surface, norm}
use lodeen.Protocol.Messages.{Resource}
use lodeen.Server.State.{Client, Server, Rocket, Mammoth, Mob, Factory}
use lodeen.Server.Client.{consume_item}
use lodeen.Server.Energy.{
  FactoryRecipe, factory_recipes, try_craft_factory, craft_in_factory, handle_craft_factory,
  handle_place_solar, handle_place_battery, handle_place_factory,
}
use lodeen.Server.Boats.{handle_place_boat, handle_enter_boat, leave_all, board}
use lodeen.Server.Chat.{handle_chat, say}
use lodeen.Server.Farm.{handle_plant_seed, handle_water_plant, water_plant}
use lodeen.Server.Houses.{handle_place_house, handle_toggle_door, toggle_door}
use lodeen.Server.Items.{handle_pickup, pickup}
use lodeen.Server.Mammoths.{
  put_mammoth, tame, handle_tame_mammoth, leash, handle_leash_mammoth, saddle,
  handle_saddle_mammoth, mount, handle_ride_mammoth, apply_hit_mammoth, handle_hit_mammoth,
}
use lodeen.Server.Mobs.{
  try_accept_contract, handle_accept_contract, apply_hit_mob, handle_hit_mob, Fresh,
}
use lodeen.Server.Rockets.{
  is_pilot, change_first, leave_rocket, steer, new_rocket, handle_place_rocket, handle_exit_rocket,
  handle_rocket_input,
}
use lodeen.Server.Rockets.Pilots.{handle_board_rocket-other}
use lodeen.Server.Dispatch.{
  Request, state_update, chat_text, ping, eat_fruit, exit_rocket, select_item, pickup_item,
  craft_item, water_plant as water_plant_request, take_water, throw_spear, hit_mammoth,
  tame_mammoth, leash_mammoth, saddle_mammoth, ride_mammoth, toggle_door as toggle_door_request,
  enter_boat, hit_mob, open_factory, board_rocket as board_request, plant_seed, place_rocket,
  place_house, place_boat, place_solar, place_battery, place_factory, accept_contract,
  craft_factory, rocket_input, Inputs, handle_message,
}

module _ {F : Type 0} where
  -- What the client does to its own rocket leaves a rocket of somebody else.
  change_first-other :
      (id j : String) (f : Rocket F → Rocket F) (r : Rocket F) (m : Map (Rocket F))
      → r.owner_id ≢ id
      → lookup j m ≡ some r
      → lookup j (change_first id f m) ≡ some r
  unfolding change_first is_pilot lookup
  change_first-other id j f r [] n l = l
  change_first-other id j f r ((k, a) ∷ m) n l =
      ground (arith, l, eq_iff a.owner_id id, change_first-other id j f r m n)

module _ {F : Type 0} ⦃fl : Float F⦄ where
  place_rocket-other :
      (id j : String) (p : Vector3 F) (r : Rocket F) (s : Server F) (c : Client F)
      → id ≢ j
      → lookup j s.rockets ≡ some r
      → lookup j (handle_place_rocket id p s c).0.rockets ≡ some r
  unfolding handle_place_rocket
  place_rocket-other id j p r s c n l = elim (Option-cases (consume_item "rocket" c)) [
    | inl e ↦ rw (e, handle_place_rocket) l
    | inr (d, e) ↦
        let lp : Vector3 F = clamp_to_surface p in
        let new = new_rocket id lp (norm lp) s.world.earth_pos s.world.earth_vel in
        ground (arith, e, l, lookup-insert id j new s.rockets, eq_iff id j)
  ]

  craft-rockets :
      (o : Option (Factory F)) (q : Option FactoryRecipe) (s : Server F) (c : Client F)
      → (craft_in_factory o q s c).0.rockets ≡ s.rockets
  unfolding craft_in_factory try_craft_factory
  craft-rockets none q s c = refl
  craft-rockets (some f) none s c = refl
  craft-rockets (some f) (some r) s c = ground arith

  mammoth-rockets :
      (o : Option (Mammoth F)) (ids : String × String) (id : String) (s : Server F) (c : Client F)
      → ((tame id o s c).0.rockets ≡ s.rockets)
        × ((leash id o s c).rockets ≡ s.rockets)
        × ((saddle id o s c).0.rockets ≡ s.rockets)
        × ((mount id o s c).rockets ≡ s.rockets)
        × ((apply_hit_mammoth ids id o s c).rockets ≡ s.rockets)
  unfolding tame leash saddle mount apply_hit_mammoth put_mammoth
  mammoth-rockets none ids id s c = (refl, refl, refl, refl, refl)
  mammoth-rockets (some m) ids id s c =
      (ground arith, ground arith, ground arith, ground arith, ground arith)

  mob-rockets :
      (o : Option (Mob F)) (fresh : ℕ → Fresh F) (id : String) (s : Server F) (c : Client F)
      → (apply_hit_mob fresh id o s c).0.rockets ≡ s.rockets
  unfolding apply_hit_mob
  mob-rockets none fresh id s c = refl
  mob-rockets (some m) fresh id s c = ground arith

  contract-rockets :
      (mob_id contract_id : String) (o : Option (Mob F)) (s t : Server F) (c d : Client F)
      → try_accept_contract mob_id contract_id o s c ≡ some (t, d)
      → t.rockets ≡ s.rockets
  unfolding try_accept_contract
  contract-rockets mob_id contract_id none s t c d e = absurd (ground (arith, e))
  contract-rockets mob_id contract_id (some m) s t c d e = ground (arith, e)

  pickup-rockets :
      (id : String) (o : Option (Resource F)) (s : Server F) (c : Client F)
      → ((pickup id o s c).0.rockets ≡ s.rockets)
        × ((now : ℕ) → (water_plant now id o s c).0.rockets ≡ s.rockets)
  unfolding pickup water_plant
  pickup-rockets id none s c = (refl, λ _. refl)
  pickup-rockets id (some r) s c = (ground arith, λ now. ground arith)

  -- Every message but those about rockets leaves the rockets alone.
  abbrev pub KeepsRockets : Server F → Server F × Client F → Type 0
  KeepsRockets s out = out.0.rockets ≡ s.rockets

  ride-rockets :
      (id : String) (s : Server F) (c : Client F) → (handle_ride_mammoth id s c).rockets ≡ s.rockets
  unfolding handle_ride_mammoth
  ride-rockets id s c = ground (arith, (mammoth-rockets (lookup id s.mammoths) ("", "") id s c).3)

  hit-rockets :
      (now : ℕ) (ids : String × String) (id : String) (s : Server F) (c : Client F)
      → KeepsRockets s (handle_hit_mammoth now ids id s c)
  unfolding handle_hit_mammoth
  hit-rockets now ids id s c =
      let d : Client F = record c { last_hit_at = now } in
      ground (arith, (mammoth-rockets (lookup id s.mammoths) ids id s d).4)

  accept-rockets :
      (mob_id contract_id : String) (s : Server F) (c : Client F)
      → KeepsRockets s (handle_accept_contract mob_id contract_id s c)
  unfolding handle_accept_contract
  accept-rockets mob_id contract_id s c =
      elim (Option-cases (try_accept_contract mob_id contract_id (lookup mob_id s.mobs) s c)) [
        | inl e ↦ ground (arith, e)
        | inr ((t, d), e) ↦
            ground (arith, e, contract-rockets mob_id contract_id (lookup mob_id s.mobs) s t c d e)
      ]

  say-rockets :
      (now : ℕ) (text : String) (s : Server F) (c : Client F)
      → KeepsRockets s (handle_chat now text s c)
  unfolding handle_chat say
  say-rockets now text s c = ground arith

  place-rockets :
      (id : String) (s : Server F) (c : Client F)
      → ((p : _) → KeepsRockets s (handle_place_house id p s c))
        × ((p : _) → KeepsRockets s (handle_place_boat id p s c))
        × ((p : _) → KeepsRockets s (handle_place_solar id p s c))
        × ((p : _) → KeepsRockets s (handle_place_battery id p s c))
        × ((p : _) → KeepsRockets s (handle_place_factory id p s c))
        × ((p : _) → KeepsRockets s (handle_plant_seed id p s c))
  unfolding handle_place_house handle_place_boat handle_place_solar handle_place_battery
      handle_place_factory handle_plant_seed
  place-rockets id s c = (
    λ p. ground arith,
    λ p. ground arith,
    λ p. ground arith,
    λ p. ground arith,
    λ p. ground arith,
    λ p. ground arith,
  )

  door-rockets :
      (id : String) (s : Server F) (c : Client F) → (handle_toggle_door id s c).rockets ≡ s.rockets
  unfolding handle_toggle_door toggle_door
  door-rockets id s c = ground arith

  boat-rockets :
      (id : String) (s : Server F) (c : Client F) → (handle_enter_boat id s c).rockets ≡ s.rockets
  unfolding handle_enter_boat leave_all board
  boat-rockets id s c = ground arith

  -- A rocket that a player pilots stays as it is, its course, its fuel and its pilot, whatever
  -- message another player sends. The new identifier of a placed rocket is not its own.
  pub handle_message-other :
      (i : Inputs F) (q : Request F) (j : String) (r : Rocket F) (s : Server F) (c : Client F)
      → lookup j s.rockets ≡ some r
      → r.piloted ≡ true
      → r.owner_id ≢ c.id
      → i.id ≢ j
      → lookup j (handle_message i q s c).0.rockets ≡ some r
  unfolding handle_message handle_pickup handle_water_plant handle_tame_mammoth handle_leash_mammoth
      handle_saddle_mammoth handle_hit_mob handle_craft_factory handle_exit_rocket
      handle_rocket_input
  handle_message-other i (state_update st) j r s c l p n f = l
  handle_message-other i (chat_text text) j r s c l p n f = rw (say-rockets i.now text s c) l
  handle_message-other i (ping sent) j r s c l p n f = l
  handle_message-other i eat_fruit j r s c l p n f = l
  handle_message-other i (select_item item) j r s c l p n f = l
  handle_message-other i exit_rocket j r s c l p n f =
      change_first-other c.id j leave_rocket r s.rockets n l
  handle_message-other i (pickup_item id) j r s c l p n f =
      rw ((pickup-rockets id (lookup id s.resources) s c).0) l
  handle_message-other i (throw_spear _) j r s c l p n f = l
  handle_message-other i (craft_item recipe) j r s c l p n f = l
  handle_message-other i (hit_mammoth id) j r s c l p n f =
      rw (hit-rockets i.now i.drop_ids id s c) l
  handle_message-other i (plant_seed p) j r s c l _ n f = rw ((place-rockets i.id s c).5 p) l
  handle_message-other i (water_plant_request id) j r s c l p n f =
      rw ((pickup-rockets id (lookup id s.resources) s c).1 i.now) l
  handle_message-other i (take_water id) j r s c l p n f = l
  handle_message-other i (tame_mammoth id) j r s c l p n f =
      rw ((mammoth-rockets (lookup id s.mammoths) i.drop_ids id s c).0) l
  handle_message-other i (leash_mammoth id) j r s c l p n f =
      rw ((mammoth-rockets (lookup id s.mammoths) i.drop_ids id s c).1) l
  handle_message-other i (place_house p) j r s c l _ n f = rw ((place-rockets i.id s c).0 p) l
  handle_message-other i (toggle_door_request id) j r s c l p n f = rw (door-rockets id s c) l
  handle_message-other i (saddle_mammoth id) j r s c l p n f =
      rw ((mammoth-rockets (lookup id s.mammoths) i.drop_ids id s c).2) l
  handle_message-other i (ride_mammoth id) j r s c l p n f = rw (ride-rockets id s c) l
  handle_message-other i (place_boat p) j r s c l _ n f = rw ((place-rockets i.id s c).1 p) l
  handle_message-other i (enter_boat id) j r s c l p n f = rw (boat-rockets id s c) l
  handle_message-other i (hit_mob id) j r s c l p n f =
      rw (mob-rockets (lookup id s.mobs) i.fresh id s c) l
  handle_message-other i (accept_contract mob_id contract_id) j r s c l p n f =
      rw (accept-rockets mob_id contract_id s c) l
  handle_message-other i (place_solar p) j r s c l _ n f = rw ((place-rockets i.id s c).2 p) l
  handle_message-other i (place_battery p) j r s c l _ n f = rw ((place-rockets i.id s c).3 p) l
  handle_message-other i (place_factory p) j r s c l _ n f = rw ((place-rockets i.id s c).4 p) l
  handle_message-other i (open_factory _) j r s c l p n f = l
  handle_message-other i (craft_factory factory_id recipe_id) j r s c l p n f =
      rw (craft-rockets (lookup factory_id s.factories) (lookup recipe_id factory_recipes) s c) l
  handle_message-other i (place_rocket p) j r s c l _ n f = place_rocket-other i.id j p r s c f l
  handle_message-other i (board_request id) j r s c l p n f =
      handle_board_rocket-other id j r s c l p n
  handle_message-other i (rocket_input p) j r s c l _ n f =
      change_first-other c.id j (steer p c.infinite_fuel) r s.rockets n l
