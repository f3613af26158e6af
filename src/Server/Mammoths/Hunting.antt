-- ===== src/Server/Mammoths/Hunting.antt =====
-- What a hit does, and that the client's doubled messages do nothing.
use lodeen.Base.{ℕ, ◌*◌, ◌≡◌, String, false, none, some, arith, ◌==◌, if◌then◌else◌}
use lodeen.Base.Int.{pos, ◌≤ℤ◌, ◌<ℤ◌, int_sub-pos}
use lodeen.Base.Map.{Map, lookup, insert, erase, lookup-insert, lookup-erase}
use lodeen.Base.Float.{Float, ◌⊕◌, lit, num, flt}
use lodeen.Protocol.Geometry.{Vector3, dist2}
use lodeen.Protocol.Messages.{Resource}
use lodeen.Server.State.{Client, Server, Mammoth}
use lodeen.Server.Client.{state_of}
use lodeen.Server.Farm.{lying}
use lodeen.Server.Time.{time_sub, millisecond, second}
use lodeen.Server.Mammoths.{spawn_mammoth_drops, apply_hit_mammoth, handle_hit_mammoth}

module _ {F : Type 0} ⦃fl : Float F⦄ where
  -- Once a hit has been accepted, a second message within 200 ms changes nothing more, whatever
  -- mammoth it names.
  pub handle_hit_mammoth-debounce :
      (now later : ℕ) (ids ids' : String × String) (id id' : String) (s : Server F) (c : Client F)
      → pos (200 * millisecond) ≤ℤ time_sub now c.last_hit_at
      → time_sub now c.last_throw_at ≤ℤ pos (2 * second)
      → time_sub later now <ℤ pos (200 * millisecond)
      → let once = handle_hit_mammoth now ids id s c in
        handle_hit_mammoth later ids' id' once.0 once.1 ≡ once
  unfolding handle_hit_mammoth
  handle_hit_mammoth-debounce now later ids ids' id id' s c h k soon = ground arith

  -- Where the spear lies beside the carcass.
  abbrev pub beside : Vector3 F → Vector3 F
  beside p = record p { x = p.x ⊕ lit 15 1; z = p.z ⊕ lit 15 1 }

  -- The drops lie there, and nothing else changes.
  lookup-spawn_mammoth_drops :
      (meat spear j : String) (p : Vector3 F) (rs : Map (Resource F))
      → lookup j (spawn_mammoth_drops (meat, spear) p rs) ≡ (
          if spear == j
          then some (lying spear "spear" (beside p))
          else if meat == j
          then some (lying meat "meat" p)
          else lookup j rs)
  unfolding spawn_mammoth_drops
  lookup-spawn_mammoth_drops meat spear j p rs =
      let m : Resource F = lying meat "meat" p in
      let w : Resource F = lying spear "spear" (beside p) in
      ground (arith, lookup-insert spear j w (insert meat m rs), lookup-insert meat j m rs)

  -- The branch of the kill.
  apply_hit_mammoth-kills :
      (ids : String × String) (id : String) (m : Mammoth F) (s : Server F) (c : Client F)
      → flt (num 6400) (dist2 m.at c.state.at) ≡ false
      → m.hp ≡ pos 1
      → apply_hit_mammoth ids id (some m) s c ≡ record s {
        mammoths = erase id s.mammoths;
        resources = spawn_mammoth_drops ids m.at s.resources;
      }
  unfolding apply_hit_mammoth state_of
  apply_hit_mammoth-kills ids id m s c near hp =
      ground (arith, near, hp, int_sub-pos 1 1 (omega arith))

  -- A hit of a mammoth with one hit point, in reach, after a throw of the last two seconds and at
  -- least 200 ms after the client's last hit: the mammoth is gone and all others are there; meat lies
  -- where it stood, a spear lies beside it, and every other resource is as before.
  pub handle_hit_mammoth-kills :
      (now : ℕ) (meat spear id j k : String) (m : Mammoth F) (s : Server F) (c : Client F)
      → pos (200 * millisecond) ≤ℤ time_sub now c.last_hit_at
      → time_sub now c.last_throw_at ≤ℤ pos (2 * second)
      → lookup id s.mammoths ≡ some m
      → flt (num 6400) (dist2 m.at c.state.at) ≡ false
      → m.hp ≡ pos 1
      → let after : Server F = (handle_hit_mammoth now (meat, spear) id s c).0 in
        (lookup j after.mammoths ≡ (if id == j then none else lookup j s.mammoths))
        × (lookup k after.resources ≡ (
            if spear == k
            then some (lying spear "spear" (beside m.at))
            else if meat == k
            then some (lying meat "meat" m.at)
            else lookup k s.resources))
  unfolding handle_hit_mammoth
  handle_hit_mammoth-kills now meat spear id j k m s c waited thrown known near hp =
      let d : Client F = record c { last_hit_at = now } in
      let hit : (handle_hit_mammoth now (meat, spear) id s c).0 ≡ record s {
        mammoths = erase id s.mammoths;
        resources = spawn_mammoth_drops (meat, spear) m.at s.resources;
      } =
        ground (arith, known, apply_hit_mammoth-kills (meat, spear) id m s d near hp) in
      rw (hit)
        (lookup-erase id j s.mammoths, lookup-spawn_mammoth_drops meat spear k m.at s.resources)
