-- ===== src/Client/App/Trajectory.antt =====
-- The orbit that the map draws ahead of a rocket: `predictTrajectory` of
-- internal/client/app/trajectory.go.
pub mod Orbit
use lodeen.Base.Float.{Float, ◌⊕◌, ◌⊖◌, ◌⊗◌, ◌⊘◌, num, flt}
use lodeen.Base.{ℕ, zero, suc, Bool, ◌&&◌, List, [], ◌∷◌, ltb, if◌then◌else◌}
use lodeen.Protocol.Geometry.{Vector3, origin, norm, dot_self, sun_pos, mu_sun, mu_earth, soi_earth}

-- The rocket and the planet, place and velocity.
pub record Flying (F : Type 0) : Type 0 where
  pub p : Vector3 F
  pub v : Vector3 F
  pub ep : Vector3 F
  pub ev : Vector3 F

module _ {F : Type 0} ⦃fl : Float F⦄ where
  abbrev pub minus : Vector3 F → Vector3 F → Vector3 F
  minus a b = record { x = a.x ⊖ b.x; y = a.y ⊖ b.y; z = a.z ⊖ b.z }

  -- `a + b * dt` in each coordinate.
  abbrev pub advance : Vector3 F → Vector3 F → F → Vector3 F
  advance a b dt = record { x = a.x ⊕ b.x ⊗ dt; y = a.y ⊕ b.y ⊗ dt; z = a.z ⊕ b.z ⊗ dt }

  -- `-e / dist * (mu / (dist * dist))`
  unfoldable pub pull_to : F → Vector3 F → F → Vector3 F
  pull_to mu e dist =
      let g = mu ⊘ (dist ⊗ dist) in
      record {
        x = fl.ops.neg e.x ⊘ dist ⊗ g;
        y = fl.ops.neg e.y ⊘ dist ⊗ g;
        z = fl.ops.neg e.z ⊘ dist ⊗ g;
      }

  abbrev pub plus : Vector3 F → Vector3 F → Vector3 F
  plus a b = record { x = a.x ⊕ b.x; y = a.y ⊕ b.y; z = a.z ⊕ b.z }

  -- One turn of the loop: the planet under the sun, then the rocket under both.
  unfoldable pub fly : F → Flying F → Flying F
  unfolding pull_to
  fly dt f =
      let e = minus f.ep sun_pos in
      let dist_e = norm e in
      let a_e = if flt (num 1) dist_e then pull_to mu_sun e dist_e else origin in
      let ev = advance f.ev a_e dt in
      let ep = advance f.ep ev dt in
      let s = minus f.p sun_pos in
      let dist_sun = norm s in
      let rel = minus f.p ep in
      let dist_earth = norm rel in
      let g1 = if flt (num 1) dist_sun then plus origin (pull_to mu_sun s dist_sun) else origin in
      let near = flt dist_earth soi_earth && flt (num 1) dist_earth in
      let g = if near then plus g1 (pull_to mu_earth rel dist_earth) else g1 in
      let v = advance f.v g dt in record { p = advance f.p v dt; v = v; ep = ep; ev = ev }

  -- Whether a point is within 5 of the start.
  unfoldable pub is_back : Vector3 F → Vector3 F → Bool
  is_back start p = flt (dot_self (minus p start)) (num 25)

  -- The loop from the counter `i`, with `left` turns to go; it stops early when `i > 200` and the
  -- rocket is back.
  unfoldable pub predict_from : F → Vector3 F → ℕ → ℕ → Flying F → List (Vector3 F)
  unfolding fly is_back
  predict_from dt start zero i f = []
  predict_from dt start (suc left) i f =
      let f1 = fly dt f in
      let rest = predict_from dt start left (suc i) f1 in
      if ltb 200 i && is_back start f1.p then f1.p ∷ [] else f1.p ∷ rest

  unfoldable pub predict_trajectory :
      Vector3 F → Vector3 F → Vector3 F → Vector3 F → F → ℕ → List (Vector3 F)
  unfolding predict_from
  predict_trajectory helio_pos helio_vel earth_pos0 earth_vel dt steps =
      predict_from dt helio_pos steps 0
        (record { p = helio_pos; v = helio_vel; ep = earth_pos0; ev = earth_vel })
