-- ===== src/Server/Nearest.antt =====
-- The loops that look for the nearest entry of a map within a radius, as in `nearestBatteryLocked`
-- of internal/server/net/energy.go: `best` and the squared distance `best_d2` so far.
pub mod Laws
use lodeen.Base.{String, Bool, [], ◌∷◌, Option, none, some, ◌&&◌, if◌then◌else◌}
use lodeen.Base.Map.{Map}
use lodeen.Base.Float.{Float, flt}
use lodeen.Protocol.Geometry.{Vector3, dist2}

module _ {F : Type 0} ⦃fl : Float F⦄ {V : Type 0} where
  -- `wanted` is the test before the distance, `place` the position of an entry.
  unfoldable pub nearest_from :
      (V → Bool)
      → (V → Vector3 F)
      → Vector3 F
      → Map V
      → Option (String × V)
      → F
      → Option (String × V) × F
  nearest_from wanted place here [] best best_d2 = (best, best_d2)
  nearest_from wanted place here ((k, v) ∷ m) best best_d2 =
      let d2 = dist2 (place v) here in
      let nearer = wanted v && flt d2 best_d2 in
      nearest_from wanted place here m (if nearer then some (k, v) else best)
        (if nearer then d2 else best_d2)

  -- The search from nothing found, within the squared radius.
  unfoldable pub nearest :
      (V → Bool) → (V → Vector3 F) → Vector3 F → F → Map V → Option (String × V) × F
  nearest wanted place here radius2 m = nearest_from wanted place here m none radius2
