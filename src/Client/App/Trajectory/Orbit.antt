-- ===== src/Client/App/Trajectory/Orbit.antt =====
-- The predicted orbit is the flight itself, step by step, up to its end or to the return.
use lodeen.Base.Float.{Float}
use lodeen.Base.{
  ℕ, zero, suc, ◌+◌, ◌≤◌, ◌<◌, ◌≡◌, refl, ap, arith, true, ◌&&◌, List, [], ◌∷◌, ◌⊎◌, inl, inr, ltb,
  Bool-cases,
}
use lodeen.Client.App.Trajectory.{Flying, fly, is_back, predict_from, predict_trajectory}
use lodeen.Protocol.Geometry.{Vector3}

module _ {F : Type 0} ⦃fl : Float F⦄ (dt : F) where
  -- The flight after a number of steps, and the places on the way.
  unfoldable pub after : ℕ → Flying F → Flying F
  after zero f = f
  after (suc n) f = after n (fly dt f)

  unfoldable pub orbit : ℕ → Flying F → List (Vector3 F)
  orbit zero f = []
  orbit (suc n) f = (fly dt f).p ∷ orbit n (fly dt f)

  module _ (start : Vector3 F) where
    -- After `n` more steps of the `left` ones the loop ended: by its count, or by the return.
    pub record Ends (left i n : ℕ) (f : Flying F) (points : List (Vector3 F)) : Type 0 where
      pub flown : points ≡ orbit n f
      pub in_time : n ≤ left
      pub ended : (n ≡ left) ⊎ ((201 < i + n) × (is_back start (after n f).p ≡ true))

    predict_from-Ends :
        (left i : ℕ) (f : Flying F) → (n : ℕ) × Ends left i n f (predict_from dt start left i f)
    unfolding predict_from orbit after
    predict_from-Ends zero i f =
        (0, record { flown = refl; in_time = omega arith; ended = inl refl })
    predict_from-Ends (suc left) i f = elim (Bool-cases (ltb 200 i && is_back start (fly dt f).p)) [
      | inl back ↦ rw back (
        1,
        record { flown = refl; in_time = omega arith; ended = inr (ground arith, ground arith) },
      )
      | inr away ↦
          let (n, rest) = predict_from-Ends left (suc i) (fly dt f) in
          rw away (
            suc n,
            record {
              flown = ap (◌∷◌ (fly dt f).p) rest.flown;
              in_time = omega (arith, rest.in_time);
              ended = elim rest.ended [
                | inl e ↦ inl (ap suc e)
                | inr (late, back) ↦ inr (omega (arith, late), back)
              ];
            },
          )
    ]

  -- The points of the prediction are the places of the flight after 1, 2, 3 and more steps, to a
  -- step that is not beyond the given number; that is the given number itself, or a step after the
  -- 201st at which the rocket is back within 5 of its start.
  pub predict_trajectory-orbit :
      (p v ep ev : Vector3 F) (steps : ℕ)
      → (n : ℕ) × Ends p steps 0 n
          (record { p = p; v = v; ep = ep; ev = ev })
          (predict_trajectory p v ep ev dt steps)
  unfolding predict_trajectory
  predict_trajectory-orbit p v ep ev steps =
      predict_from-Ends p steps 0 (record { p = p; v = v; ep = ep; ev = ev })
