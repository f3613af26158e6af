-- ===== src/Server/Farm.antt =====
-- Planting, watering and growing: internal/server/net/farm.go without the spawning of the first
-- resources, and without the critical sections: each handler runs to its end here.
pub mod Growth
use lodeen.Base.{
  ℕ, zero, suc, ◌+◌, ◌*◌, String, Bool, true, false, [], ◌∷◌, Option, none, some, ◌&&◌, not, ◌==◌,
  ltb, if◌then◌else◌,
}
use lodeen.Base.Map.{Map, lookup, insert, erase}
use lodeen.Base.Float.{Float, ◌⊕◌, ◌⊗◌, lit, num}
use lodeen.Protocol.Geometry.{Vector3, clamp_to_surface, is_beyond}
use lodeen.Protocol.Messages.{Resource}
use lodeen.Server.State.{Client, Server}
use lodeen.Server.Client.{state_of, send_inventory, consume_item}
use lodeen.Server.Time.{second, unix_milli}

-- `growDelay`
abbrev pub grow_delay : ℕ
grow_delay = 30 * second

module _ {F : Type 0} ⦃fl : Float F⦄ where
  -- A resource that lies there, dry and with no time to grow at.
  unfoldable pub lying : String → String → Vector3 F → Resource F
  lying id kind p = record { id = id; kind = kind; at = p; watered = false; grow_at = 0 }

  -- `plantRadius` is 5; `id` is the new identifier.
  unfoldable pub handle_plant_seed : String → Vector3 F → Server F → Client F → Server F × Client F
  handle_plant_seed id p s c =
      if is_beyond p (state_of c).at 25 then (s, c) else elim (consume_item "fruit" c) [
        | none ↦ (s, c)
        | some d ↦ (
          record s { resources = insert id (lying id "seed" (clamp_to_surface p)) s.resources },
          send_inventory d,
        )
      ]

  unfoldable pub is_dry_seed : Resource F → Bool
  is_dry_seed r = r.kind == "seed" && not r.watered

  -- The second critical section, after the water has been taken.
  unfoldable pub wet : ℕ → String → Option (Resource F) → Map (Resource F) → Map (Resource F)
  wet now id none m = m
  wet now id (some r) m =
      if is_dry_seed r
      then insert id (record r { watered = true; grow_at = unix_milli (now + grow_delay) }) m
      else m

  unfoldable pub water_plant :
      ℕ → String → Option (Resource F) → Server F → Client F → Server F × Client F
  unfolding is_dry_seed wet
  water_plant now id none s c = (s, c)
  water_plant now id (some r) s c =
      if not (is_dry_seed r)
      then (s, c)
      else if is_beyond r.at (state_of c).at 25
      then (s, c)
      else elim (consume_item "water" c) [
        | none ↦ (s, c)
        | some d ↦ (
          record s { resources = wet now id (lookup id s.resources) s.resources },
          send_inventory d,
        )
      ]

  unfoldable pub handle_water_plant : ℕ → String → Server F → Client F → Server F × Client F
  unfolding water_plant
  handle_water_plant now id s c = water_plant now id (lookup id s.resources) s c

  -- A watered seed whose time has come; times are in milliseconds.
  unfoldable pub is_ripe : ℕ → Resource F → Bool
  is_ripe now r = r.kind == "seed" && r.watered && not (ltb now r.grow_at)

  -- The two fruits of a plant; `ids` gives the new identifiers, two for each plant.
  unfoldable pub harvest : String → String → Resource F → Map (Resource F) → Map (Resource F)
  unfolding lying
  harvest first second r m =
      let p = r.at in
      insert second (lying second "fruit" (record p { x = p.x ⊕ num 1 ⊗ lit 15 1 }))
        (insert first (lying first "fruit" (record p { x = p.x ⊕ num 0 ⊗ lit 15 1 })) m)

  -- The loop over the entries that the map had, which changes the map `m`. Entries that the loop
  -- adds are fruit, which it passes over if it meets them.
  unfoldable pub grow_all :
      ℕ → (String → String × String) → Map (Resource F) → Map (Resource F) → Map (Resource F)
  unfolding is_ripe harvest
  grow_all now ids [] m = m
  grow_all now ids ((id, r) ∷ todo) m =
      let (first, second) = ids id in
      grow_all now ids todo (if is_ripe now r then harvest first second r (erase id m) else m)

  unfoldable pub tick_resources : ℕ → (String → String × String) → Server F → Server F
  tick_resources now ids s = record s {
    resources = grow_all (unix_milli now) ids s.resources s.resources;
  }
