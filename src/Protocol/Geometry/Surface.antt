-- ===== src/Protocol/Geometry/Surface.antt =====
-- The clamp of a position agrees with the surface radius.
use lodeen.Base.{◌≡◌, inl, inr, Bool-cases, if◌then◌else◌}
use lodeen.Base.Float.{Float, lit, flt}
use lodeen.Protocol.Geometry.{Vector3, norm, surface_radius, at_height, clamp_to_surface}

module _ {F : Type 0} ⦃fl : Float F⦄ where
  -- A position that is not at the centre is moved along its direction to `SurfaceRadius`; one that
  -- is (nearer than 0.01) stays.
  pub clamp_to_surface-surface_radius :
      (p : Vector3 F)
      → clamp_to_surface p
        ≡ (if flt (norm p) (lit 1 2) then p else at_height p (norm p) (surface_radius p))
  unfolding clamp_to_surface surface_radius
  clamp_to_surface-surface_radius p = elim (Bool-cases (flt (norm p) (lit 1 2))) [
    | inl near ↦ rw near
    | inr away ↦ rw away
  ]
