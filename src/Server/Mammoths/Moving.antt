-- ===== src/Server/Mammoths/Moving.antt =====
-- Where the mammoths go in a tick: internal/server/net/mammoths_tick.go, and `tickMammoths` of
-- mammoths.go.
use lodeen.Base.{String, Bool, List, [], ◌∷◌, Option, none, some, not, ◌==◌, if◌then◌else◌}
use lodeen.Base.Int.{pos, ltb_ℤ}
use lodeen.Base.Map.{Map, map_values}
use lodeen.Base.Float.{Float, ◌⊕◌, ◌⊖◌, ◌⊗◌, ◌⊘◌, lit, num, flt, fle, sqrt32}
use lodeen.Protocol.Geometry.{Vector3, norm, clamp_to_surface, dist2}
use lodeen.Protocol.Messages.{PlayerState}
use lodeen.Server.State.{Client, Server, Mammoth}
use lodeen.Server.Client.{quantity, state_of}

pub record NearPlayer (F : Type 0) : Type 0 where
  pub id : String
  pub state : PlayerState F
  pub held : String
  pub fruit : Bool

module _ {F : Type 0} where
  unfoldable pub collect_near_players : Map (Client F) → List (NearPlayer F)
  collect_near_players [] = []
  collect_near_players ((_, c) ∷ m) =
      record {
        id = c.id;
        state = state_of c;
        held = c.held_item;
        fruit = ltb_ℤ (pos 0) (quantity "fruit" c.inventory);
      }
      ∷ collect_near_players m

  unfoldable pub find_near_player : List (NearPlayer F) → String → Option (NearPlayer F)
  find_near_player [] id = none
  find_near_player (p ∷ players) id = if p.id == id then some p else find_near_player players id

module _ {F : Type 0} ⦃fl : Float F⦄ where
  unfoldable pub tick_ridden_mammoth : Option (NearPlayer F) → Mammoth F → Mammoth F
  tick_ridden_mammoth none m = record m { rider_id = "" }
  tick_ridden_mammoth (some p) m =
      let at : Vector3 F = p.state.at in record m { at = record at { y = at.y ⊖ num 1 } }

  unfoldable pub tick_leashed_mammoth : F → Option (NearPlayer F) → Mammoth F → Mammoth F
  tick_leashed_mammoth dt none m = record m { leashed_to = "" }
  tick_leashed_mammoth dt (some p) m =
      let here : Vector3 F = m.at in
      let there : Vector3 F = p.state.at in
      let d2 = dist2 there here in
      let d = sqrt32 d2 in
      let moved : Vector3 F = record {
        x = here.x ⊕ (there.x ⊖ here.x) ⊘ d ⊗ num 6 ⊗ dt;
        y = here.y ⊕ (there.y ⊖ here.y) ⊘ d ⊗ num 6 ⊗ dt;
        z = here.z ⊕ (there.z ⊖ here.z) ⊘ d ⊗ num 6 ⊗ dt;
      } in
      if fle d2 (num 9) then m else record m { at = clamp_to_surface moved }

  -- The nearest player within the squared distance.
  unfoldable pub nearest_player :
      Vector3 F → List (NearPlayer F) → Option (NearPlayer F) → F → Option (NearPlayer F)
  nearest_player here [] best best_d2 = best
  nearest_player here (p ∷ players) best best_d2 =
      let d2 = dist2 p.state.at here in
      let nearer = flt d2 best_d2 in
      nearest_player here players (if nearer then some p else best) (if nearer then d2 else best_d2)

  -- A step of length `8 * dt` away from `there`, in the tangent plane at `here`.
  unfoldable pub flee : F → Vector3 F → Vector3 F → Vector3 F
  flee dt here there =
      let l = norm here in
      let ux = here.x ⊘ l in
      let uy = here.y ⊘ l in
      let uz = here.z ⊘ l in
      let tx = there.x ⊖ here.x in
      let ty = there.y ⊖ here.y in
      let tz = there.z ⊖ here.z in
      let dot = tx ⊗ ux ⊕ ty ⊗ uy ⊕ tz ⊗ uz in
      let gx = tx ⊖ ux ⊗ dot in
      let gy = ty ⊖ uy ⊗ dot in
      let gz = tz ⊖ uz ⊗ dot in
      let lt = sqrt32 (gx ⊗ gx ⊕ gy ⊗ gy ⊕ gz ⊗ gz) in
      let moved : Vector3 F = record {
        x = here.x ⊕ fl.ops.neg gx ⊘ lt ⊗ num 8 ⊗ dt;
        y = here.y ⊕ fl.ops.neg gy ⊘ lt ⊗ num 8 ⊗ dt;
        z = here.z ⊕ fl.ops.neg gz ⊘ lt ⊗ num 8 ⊗ dt;
      } in
      if flt l (lit 1 2)
      then here
      else if flt lt (lit 1 1)
      then here
      else if flt (norm moved) (lit 1 2)
      then moved
      else clamp_to_surface moved

  -- A wild mammoth does not flee from a player that holds a fruit.
  unfoldable pub shy : F → Option (NearPlayer F) → Mammoth F → Mammoth F
  unfolding flee
  shy dt none m = m
  shy dt (some p) m = if p.held == "fruit" then m else record m { at = flee dt m.at p.state.at }

  -- `fleeRadius` is 30.
  unfoldable pub tick_wild_mammoth : F → List (NearPlayer F) → Mammoth F → Mammoth F
  unfolding nearest_player shy
  tick_wild_mammoth dt players m = shy dt (nearest_player m.at players none (num 900)) m

  unfoldable pub tick_mammoth : F → List (NearPlayer F) → Mammoth F → Mammoth F
  unfolding find_near_player tick_ridden_mammoth tick_leashed_mammoth tick_wild_mammoth
  tick_mammoth dt players m =
      if not (m.rider_id == "")
      then tick_ridden_mammoth (find_near_player players m.rider_id) m
      else if not (m.leashed_to == "")
      then tick_leashed_mammoth dt (find_near_player players m.leashed_to) m
      else if m.tamed
      then m
      else tick_wild_mammoth dt players m

  unfoldable pub tick_mammoths : F → Server F → Server F
  unfolding collect_near_players tick_mammoth
  tick_mammoths dt s = record s {
    mammoths = map_values (tick_mammoth dt (collect_near_players s.clients)) s.mammoths;
  }
