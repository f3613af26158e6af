-- ===== src/Client/Net/Interpolation.antt =====
-- Where a player is drawn between two snapshots: `InterpolatedSnapshot` of
-- internal/client/net/client.go.
use lodeen.Client.Net.History.{Rises}
use lodeen.Base.Float.{Float, Ops, ◌⊕◌, ◌⊖◌, ◌⊗◌}
use lodeen.Base.Int.{ℤ, pos, negsuc}
use lodeen.Protocol.Messages.{PlayerState}
use lodeen.Client.Net.{Client, TimedState}
use lodeen.Base.Map.{Map}
use lodeen.Base.{
  ℕ, zero, suc, ◌-◌, ◌*◌, ◌/◌, ◌%◌, ◌≡◌, refl, ap, ◌∙◌, arith, List, [], ◌∷◌, Option, none, some,
  length, leb, if◌then◌else◌, get_elem?,
}
use lodeen.Server.Time.{time_sub, millisecond, second}

abbrev pub interpolation_delay : ℕ
interpolation_delay = 75 * millisecond

-- `Seconds` of a duration: the whole seconds and the rest, as float64.
unfoldable pub seconds : {W : Type 0} → Ops W → ℤ → W
seconds w (pos d) = w.add (w.lit (d / second) 0) (w.div (w.lit (d % second) 0) (w.lit second 0))
seconds w (negsuc d) =
    w.add (w.neg (w.lit (suc d / second) 0))
      (w.div (w.neg (w.lit (suc d % second) 0)) (w.lit second 0))

module _ {F : Type 0} ⦃fl : Float F⦄ where
  -- `t := renderTime.Sub(a.at).Seconds() / span`, between 0 and 1.
  unfoldable pub fraction : ℕ → TimedState F → fl.Wide → fl.Wide
  unfolding seconds
  fraction render_time a span =
      let w = fl.wide in
      let t = w.div (seconds w (time_sub render_time a.at)) span in
      if w.lt t (w.lit 0 0) then w.lit 0 0 else if w.lt (w.lit 1 0) t then w.lit 1 0 else t

  -- Everything as in `a`, with a place on the way to `b`.
  unfoldable pub between : TimedState F → TimedState F → fl.Wide → PlayerState F
  between a b t =
      let p = a.state.at in
      let q = b.state.at in
      let s = fl.narrow t in
      record (a.state) {
        at = record {
          x = p.x ⊕ (q.x ⊖ p.x) ⊗ s;
          y = p.y ⊕ (q.y ⊖ p.y) ⊗ s;
          z = p.z ⊕ (q.z ⊖ p.z) ⊗ s;
        };
      }

  unfoldable pub blend : ℕ → TimedState F → TimedState F → PlayerState F
  unfolding seconds fraction between
  blend render_time a b =
      let span : fl.Wide = seconds fl.wide (time_sub b.at a.at) in
      if fl.wide.le span (fl.wide.lit 0 0)
      then a.state
      else between a b (fraction render_time a span)

  unfoldable pub pick : ℕ → TimedState F → Option (TimedState F) → PlayerState F
  unfolding blend
  pick render_time a none = a.state
  pick render_time a (some b) = blend render_time a b

  -- The loop from `i` = `n` - 1 down to 0, and `fallback` if it finds nothing.
  unfoldable pub search_back : ℕ → ℕ → PlayerState F → List (TimedState F) → PlayerState F
  unfolding pick
  search_back render_time zero fallback hist = fallback
  search_back render_time (suc i) fallback hist =
      let rest = search_back render_time i fallback hist in
      elim (get_elem? hist i) [
        | none ↦ rest
        | some a ↦
            if leb a.at render_time then pick render_time a (get_elem? hist (suc i)) else rest
      ]

  unfoldable pub interpolate : ℕ → List (TimedState F) → Option (PlayerState F)
  unfolding search_back
  interpolate render_time [] = none
  interpolate render_time (s ∷ []) = some s.state
  interpolate render_time (s ∷ t ∷ hist) =
      some (search_back render_time (length (s ∷ t ∷ hist)) s.state (s ∷ t ∷ hist))

  -- The loop over the map of histories. The clock shows `now`, which is later than the delay.
  unfoldable pub interpolate_all : ℕ → Map (List (TimedState F)) → List (PlayerState F)
  unfolding interpolate
  interpolate_all render_time [] = []
  interpolate_all render_time ((_, hist) ∷ players) =
      let rest = interpolate_all render_time players in
      elim (interpolate render_time hist) [ none ↦ rest | some p ↦ p ∷ rest ]

  unfoldable pub interpolated_snapshot : ℕ → Client F → List (PlayerState F)
  unfolding interpolate_all
  interpolated_snapshot now c = interpolate_all (now - interpolation_delay) c.players

  -- The reference: walk forward while the next state is not after the time.
  unfoldable pub walk : ℕ → TimedState F → List (TimedState F) → PlayerState F
  walk render_time a [] = a.state
  walk render_time a (b ∷ hist) =
      let rest = walk render_time b hist in
      if leb b.at render_time then rest else blend render_time a b

  search_back-cons :
      (render_time n : ℕ) (fallback : PlayerState F) (s : TimedState F) (hist : List (TimedState F))
      → search_back render_time (suc n) fallback (s ∷ hist)
        ≡ search_back render_time n (search_back render_time 1 fallback (s ∷ hist)) hist
  unfolding search_back
  search_back-cons render_time zero fallback s hist = refl
  search_back-cons render_time (suc n) fallback s hist =
      ground (arith, search_back-cons render_time n fallback s hist)

  search_back-walk :
      (render_time : ℕ) (fallback : PlayerState F) (s : TimedState F) (hist : List (TimedState F))
      → Rises 0 (s ∷ hist)
      → search_back render_time (suc (length hist)) fallback (s ∷ hist)
        ≡ (if leb s.at render_time then walk render_time s hist else fallback)
  unfolding search_back walk pick
  search_back-walk render_time fallback s [] r = ground arith
  search_back-walk render_time fallback s (t ∷ hist) r =
      search_back-cons render_time (suc (length hist)) fallback s (t ∷ hist)
      ∙ search_back-walk render_time (search_back render_time 1 fallback (s ∷ t ∷ hist)) t hist
          (omega arith, r.1.1)
      ∙ ground arith

  -- The search from the newest state backwards shows what a walk forward from the oldest one
  -- shows: of a history in order, the first state while the time is before it, the last one when
  -- the time is not before it, and else a blend of the two neighbours that the time lies between.
  pub interpolate-walk :
      (render_time : ℕ) (s : TimedState F) (hist : List (TimedState F))
      → Rises 0 (s ∷ hist)
      → interpolate render_time (s ∷ hist)
        ≡ some (if leb s.at render_time then walk render_time s hist else s.state)
  unfolding interpolate walk
  interpolate-walk render_time s [] r = ground arith
  interpolate-walk render_time s (t ∷ hist) r =
      ap some (search_back-walk render_time s.state s (t ∷ hist) r)
