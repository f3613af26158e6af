-- ===== src/Server/Mammoths.antt =====
-- Taming, feeding, leashing, saddling, riding and hunting mammoths:
-- internal/server/net/mammoths_handlers.go. Each handler runs to its end here, as if nothing
-- happened between its critical sections.
pub mod Moving
pub mod Breeding
pub mod Riders
pub mod Hunting
pub mod Taming
use lodeen.Base.{
  ℕ, ◌*◌, String, true, false, [], ◌∷◌, Option, none, some, ◌||◌, not, ◌==◌, if◌then◌else◌,
}
use mathlib.Core.Option
use lodeen.Base.Int.{pos, int_add, int_sub, ltb_ℤ, leb_ℤ}
use lodeen.Base.Map.{Map, lookup, insert, erase}
use lodeen.Base.Float.{Float, ◌⊕◌, lit, num, flt}
use lodeen.Protocol.Geometry.{Vector3, is_beyond, dist2}
use lodeen.Protocol.Messages.{Resource}
use lodeen.Server.State.{Client, Server, Mammoth}
use lodeen.Server.Client.{state_of, send_inventory, add_item, consume_item}
use lodeen.Server.Farm.{lying}
use lodeen.Server.Time.{time_sub, millisecond, second}

module _ {F : Type 0} where
  unfoldable pub put_mammoth : String → Mammoth F → Server F → Server F
  put_mammoth id m s = record s { mammoths = insert id m s.mammoths }

  -- The first mammoth that the client rides loses its rider; `none` when there is none.
  unfoldable pub dismount_first : String → Map (Mammoth F) → Option (Map (Mammoth F))
  dismount_first id [] = none
  dismount_first id ((k, m) ∷ mm) =
      let rest = dismount_first id mm in
      if m.rider_id == id
      then some ((k, record m { rider_id = "" }) ∷ mm)
      else Option.map (λ mm'. (k, m) ∷ mm') rest

module _ {F : Type 0} ⦃fl : Float F⦄ where
  -- A wild mammoth is tamed before the fruit is taken, and is wild again when there is none.
  unfoldable pub tame : String → Option (Mammoth F) → Server F → Client F → Server F × Client F
  unfolding put_mammoth
  tame id none s c = (s, c)
  tame id (some m) s c =
      if is_beyond m.at (state_of c).at 25
      then (s, c)
      else if not m.tamed
      then (let tamed : Mammoth F = record m { tamed = true } in
          let s' = put_mammoth id tamed s in
          elim (consume_item "fruit" c) [
            | none ↦ (put_mammoth id (record tamed { tamed = false }) s', c)
            | some d ↦ (s', send_inventory d)
          ])
      else elim (consume_item "fruit" c) [
        | none ↦ (s, c)
        | some d ↦ (
          put_mammoth id (record m { fed_count = int_add m.fed_count (pos 1) }) s,
          send_inventory d,
        )
      ]

  unfoldable pub handle_tame_mammoth : String → Server F → Client F → Server F × Client F
  unfolding tame
  handle_tame_mammoth id s c = tame id (lookup id s.mammoths) s c

  unfoldable pub leash : String → Option (Mammoth F) → Server F → Client F → Server F
  unfolding put_mammoth
  leash id none s c = s
  leash id (some m) s c =
      if is_beyond m.at (state_of c).at 25
      then s
      else if not m.tamed
      then s
      else put_mammoth id (record m { leashed_to = if m.leashed_to == c.id then "" else c.id }) s

  unfoldable pub handle_leash_mammoth : String → Server F → Client F → Server F
  unfolding leash
  handle_leash_mammoth id s c = leash id (lookup id s.mammoths) s c

  -- Put on a saddle, or take it off again.
  unfoldable pub saddle : String → Option (Mammoth F) → Server F → Client F → Server F × Client F
  unfolding put_mammoth
  saddle id none s c = (s, c)
  saddle id (some m) s c =
      if is_beyond m.at (state_of c).at 25
      then (s, c)
      else if not m.tamed
      then (s, c)
      else if m.baby
      then (s, c)
      else if not m.saddle
      then elim (consume_item "saddle" c) [
        | none ↦ (s, c)
        | some d ↦ (put_mammoth id (record m { saddle = true }) s, send_inventory d)
      ]
      else if not (m.rider_id == "")
      then (s, c)
      else (put_mammoth id (record m { saddle = false }) s, send_inventory (add_item "saddle" c))

  unfoldable pub handle_saddle_mammoth : String → Server F → Client F → Server F × Client F
  unfolding saddle
  handle_saddle_mammoth id s c = saddle id (lookup id s.mammoths) s c

  unfoldable pub mount : String → Option (Mammoth F) → Server F → Client F → Server F
  unfolding put_mammoth
  mount id none s c = s
  mount id (some m) s c =
      if is_beyond m.at (state_of c).at 36
      then s
      else if not m.tamed || not m.saddle || not (m.rider_id == "")
      then s
      else put_mammoth id (record m { rider_id = c.id }) s

  -- A client that rides gets off, whatever mammoth it names.
  unfoldable pub handle_ride_mammoth : String → Server F → Client F → Server F
  unfolding dismount_first mount
  handle_ride_mammoth id s c = elim (dismount_first c.id s.mammoths) [
    | none ↦ if id == "" then s else mount id (lookup id s.mammoths) s c
    | some mm ↦ record s { mammoths = mm }
  ]

  -- Meat and a spear beside it; `ids` are the two new identifiers.
  unfoldable pub spawn_mammoth_drops :
      String × String → Vector3 F → Map (Resource F) → Map (Resource F)
  unfolding lying
  spawn_mammoth_drops ids p m =
      insert ids.1 (lying ids.1 "spear" (record p { x = p.x ⊕ lit 15 1; z = p.z ⊕ lit 15 1 }))
        (insert ids.0 (lying ids.0 "meat" p) m)

  -- `applyHitMammoth` and what the hit leaves on the ground.
  unfoldable pub apply_hit_mammoth :
      String × String → String → Option (Mammoth F) → Server F → Client F → Server F
  unfolding put_mammoth spawn_mammoth_drops
  apply_hit_mammoth ids id none s c = s
  apply_hit_mammoth ids id (some m) s c =
      if flt (num 6400) (dist2 m.at (state_of c).at)
      then s
      else (let hp = int_sub m.hp (pos 1) in
          if leb_ℤ hp (pos 0)
          then record s {
            mammoths = erase id s.mammoths;
            resources = spawn_mammoth_drops ids m.at s.resources;
          }
          else put_mammoth id (record m { hp = hp }) s)

  -- A second hit within 200 ms, and one more than 2 s after the last throw, are refused.
  unfoldable pub handle_hit_mammoth :
      ℕ → String × String → String → Server F → Client F → Server F × Client F
  unfolding apply_hit_mammoth
  handle_hit_mammoth now ids id s c =
      if ltb_ℤ (time_sub now c.last_hit_at) (pos (200 * millisecond))
      then (s, c)
      else if ltb_ℤ (pos (2 * second)) (time_sub now c.last_throw_at)
      then (s, c)
      else (let d : Client F = record c { last_hit_at = now } in
          (apply_hit_mammoth ids id (lookup id s.mammoths) s d, d))
