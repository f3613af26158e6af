-- ===== src/Client/App/Earth.antt =====
-- Where the planet is drawn: the history of its places by ticks of the server, and the tick that is
-- shown, in internal/client/app/update.go.
pub mod Neighbours
use lodeen.Base.Float.{Float, Ops, ◌⊕◌, ◌⊖◌, ◌⊗◌, lit}
use lodeen.Base.{
  ℕ, zero, suc, ◌+◌, ◌-◌, ◌%◌, Bool, false, List, [], ◌∷◌, ◌++◌, Option, none, some, length, drop,
  get_elem?, ltb, eqb, if◌then◌else◌, ◌^◌,
}
use lodeen.Protocol.Geometry.{Vector3}
use lodeen.Client.Net

-- `earthSnap`
pub record EarthSnap (F : Type 0) : Type 0 where
  pub tick : ℕ
  pub at : Vector3 F
  pub vel : Vector3 F
  pub seen_at : ℕ

abbrev pub max_earth_history : ℕ
max_earth_history = 30

module _ {F : Type 0} where
  -- The last of a list, as `earthHistory[len(earthHistory)-1]`.
  unfoldable pub last_snap : List (EarthSnap F) → Option (EarthSnap F)
  last_snap [] = none
  last_snap (s ∷ []) = some s
  last_snap (s ∷ t ∷ hist) = last_snap (t ∷ hist)

  -- `tick == earthHistory[len(earthHistory)-1].tick`, false of an empty history.
  unfoldable pub is_last_tick : ℕ → List (EarthSnap F) → Bool
  unfolding last_snap
  is_last_tick tick hist = elim (last_snap hist) [ none ↦ false | some s ↦ eqb tick s.tick ]

  unfoldable pub append_snap : EarthSnap F → List (EarthSnap F) → List (EarthSnap F)
  append_snap s hist =
      let longer = hist ++ s ∷ [] in
      if ltb max_earth_history (length longer)
      then drop (length longer - max_earth_history) longer
      else longer

  -- The clock shows `now`.
  unfoldable pub push_earth_snapshot :
      ℕ → ℕ → Vector3 F → Vector3 F → List (EarthSnap F) → List (EarthSnap F)
  unfolding is_last_tick append_snap
  push_earth_snapshot now tick ep ev hist =
      if eqb tick 0
      then hist
      else if is_last_tick tick hist
      then hist
      else append_snap (record { tick = tick; at = ep; vel = ev; seen_at = now }) hist

-- The part of the client's state that `updateEarthHistory` reads and writes; `W` is float64.
pub record EarthView (F W : Type 0) : Type 0 where
  pub history : List (EarthSnap F)
  pub render_tick : Option W
  pub earth_pos : Vector3 F
  pub earth_vel : Vector3 F

module _ {W : Type 0} where
  -- `float64(tick)`
  abbrev pub tick64 : Ops W → ℕ → W
  tick64 w n = w.lit n 0

  -- Between the oldest tick and one before the newest.
  unfoldable pub clamp_tick : Ops W → W → ℕ → ℕ → W
  clamp_tick w t oldest newest =
      let low = if w.lt t (tick64 w oldest) then tick64 w oldest else t in
      let bound = w.sub (tick64 w newest) (w.lit 1 0) in if w.lt bound low then bound else low

module _ {F : Type 0} ⦃fl : Float F⦄ where
  -- `renderTick`, `none` before it is set.
  unfoldable pub init_render_tick : Option fl.Wide → List (EarthSnap F) → Option fl.Wide
  unfolding last_snap
  init_render_tick (some t) hist = some t
  init_render_tick none hist = elim (last_snap hist) [
    | none ↦ none
    | some s ↦ some (fl.wide.sub (tick64 fl.wide s.tick) (fl.wide.lit 3 0))
  ]

  unfoldable pub advance_render_tick :
      F → fl.Wide → Option fl.Wide → List (EarthSnap F) → Option fl.Wide
  unfolding last_snap clamp_tick
  advance_render_tick dt tick_rate none hist = none
  advance_render_tick dt tick_rate (some t) [] =
      some (fl.wide.add t (fl.wide.mul (fl.widen dt) tick_rate))
  advance_render_tick dt tick_rate (some t) (s ∷ []) =
      some (fl.wide.add t (fl.wide.mul (fl.widen dt) tick_rate))
  advance_render_tick dt tick_rate (some t) (s ∷ u ∷ hist) =
      let moved = fl.wide.add t (fl.wide.mul (fl.widen dt) tick_rate) in
      elim (last_snap (u ∷ hist)) [
        | none ↦ some moved
        | some newest ↦ some (clamp_tick fl.wide moved s.tick newest.tick)
      ]

  -- The loop of `findEarthSurrounding`: the last entry whose tick is not after `t`, and the next.
  unfoldable pub surround :
      fl.Wide
      → List (EarthSnap F)
      → Option (EarthSnap F × Option (EarthSnap F))
      → Option (EarthSnap F × Option (EarthSnap F))
  surround t [] found = found
  surround t (s ∷ hist) found =
      surround t hist
        (if fl.wide.le (tick64 fl.wide s.tick) t then some (s, get_elem? hist 0) else found)

  -- `none` is the history without entries.
  unfoldable pub find_earth_surrounding :
      fl.Wide → List (EarthSnap F) → Option (EarthSnap F × Option (EarthSnap F))
  unfolding surround
  find_earth_surrounding t [] = none
  find_earth_surrounding t (s ∷ hist) = elim (surround t (s ∷ hist) none) [
    | some found ↦ some found
    | none ↦ some (s, get_elem? hist 0)
  ]

  abbrev pub mix : F → Vector3 F → Vector3 F → Vector3 F
  mix t p q = record {
    x = p.x ⊕ (q.x ⊖ p.x) ⊗ t;
    y = p.y ⊕ (q.y ⊖ p.y) ⊗ t;
    z = p.z ⊕ (q.z ⊖ p.z) ⊗ t;
  }

  -- `s2.tick - s1.tick` is unsigned, of 64 bits.
  unfoldable pub share : fl.Wide → EarthSnap F → EarthSnap F → fl.Wide
  share render_tick s1 s2 =
      let w = fl.wide in
      let span = tick64 fl.wide ((s2.tick + 2 ^ 64 - s1.tick) % 2 ^ 64) in
      let t =
        if w.lt (w.lit 0 0) span
        then w.div (w.sub render_tick (tick64 fl.wide s1.tick)) span
        else w.lit 0 0 in
      if w.lt t (w.lit 0 0) then w.lit 0 0 else if w.lt (w.lit 1 0) t then w.lit 1 0 else t

  unfoldable pub interpolate_earth :
      fl.Wide → Vector3 F → Vector3 F → List (EarthSnap F) → Vector3 F × Vector3 F
  unfolding find_earth_surrounding share
  interpolate_earth render_tick ep ev [] = (ep, ev)
  interpolate_earth render_tick ep ev (s ∷ []) = (s.at, s.vel)
  interpolate_earth render_tick ep ev (s ∷ u ∷ hist) =
      elim (find_earth_surrounding render_tick (s ∷ u ∷ hist)) [
        | none ↦ (ep, ev)
        | some (s1, none) ↦ (s1.at, s1.vel)
        | some (s1, some s2) ↦
            let t = fl.narrow (share render_tick s1 s2) in (mix t s1.at s2.at, mix t s1.vel s2.vel)
      ]

  -- The rate of 20 ticks a second is never changed. An unset `renderTick` is 0.
  unfoldable pub update_earth_history :
      ℕ → F → Net.Client F → EarthView F fl.Wide → EarthView F fl.Wide
  unfolding push_earth_snapshot init_render_tick advance_render_tick interpolate_earth
  update_earth_history now dt c v =
      let hist = push_earth_snapshot now c.last_tick c.earth_pos c.earth_vel v.history in
      let t =
        advance_render_tick dt (fl.wide.lit 20 0) (init_render_tick v.render_tick hist) hist in
      let shown : fl.Wide = elim t [ none ↦ fl.wide.lit 0 0 | some x ↦ x ] in
      let placed = interpolate_earth shown c.earth_pos c.earth_vel hist in
      record { history = hist; render_tick = t; earth_pos = placed.0; earth_vel = placed.1 }
