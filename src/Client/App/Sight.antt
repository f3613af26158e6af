-- ===== src/Client/App/Sight.antt =====
-- What the player points at: the searches of internal/client/app/input.go, and `tryPickup` of
-- pickup.go. The camera's position and the direction of sight are arguments.
pub mod Nearest
use lodeen.Base.Map.{Map}
use lodeen.Base.Float.{Float, ◌⊕◌, ◌⊖◌, ◌⊗◌, ◌⊘◌, lit, num, flt, sqrt32}
use lodeen.Base.{
  zero, suc, String, Bool, true, not, ◌&&◌, ◌||◌, List, [], ◌∷◌, Option, none, some, ◌==◌,
  if◌then◌else◌,
}
use lodeen.Client.Net
use lodeen.Client.Net.Actions
use lodeen.Protocol.Messages
use lodeen.Protocol.Geometry.{Vector3, origin, dist2}
use lodeen.Server.Nearest.{nearest}

-- `camera` is `a.camera.camera.Position`, in the sun's frame; `forward` is `a.flight.Forward()`.
pub record Gaze (F : Type 0) : Type 0 where
  pub camera : Vector3 F
  pub forward : Vector3 F

-- The loop variable under its identifier.
unfoldable pub key_by : {V : Type 0} → (V → String) → List V → Map V
key_by id [] = []
key_by id (v ∷ vs) = (id v, v) ∷ key_by id vs

-- `bestID`, empty where nothing was found.
unfoldable pub id_of : {V : Type 0} → Option (String × V) → String
id_of none = ""
id_of (some (id, _)) = id

-- `rider != "" && rider != me` is passed over.
abbrev pub is_free : String → String → Bool
is_free rider me = rider == "" || rider == me

module _ {F : Type 0} ⦃fl : Float F⦄ where
  -- `Position.X-ep.X`, and so on: the camera in the planet's frame.
  unfoldable pub geo_camera : Gaze F → Net.Client F → Vector3 F
  geo_camera g c = record {
    x = g.camera.x ⊖ c.earth_pos.x;
    y = g.camera.y ⊖ c.earth_pos.y;
    z = g.camera.z ⊖ c.earth_pos.z;
  }

  -- Not farther than the limit, and in front: at more than a hundredth from the camera, the cosine
  -- of the angle with the direction of sight is not below `min_cos`.
  unfoldable pub is_in_front : F → F → Vector3 F → Vector3 F → Vector3 F → Bool
  is_in_front limit2 min_cos cam fw p =
      let d2 = dist2 p cam in
      let d = sqrt32 d2 in
      let dot = ((p.x ⊖ cam.x) ⊗ fw.x ⊕ (p.y ⊖ cam.y) ⊗ fw.y ⊕ (p.z ⊖ cam.z) ⊗ fw.z) ⊘ d in
      not (flt limit2 d2) && not (flt (lit 1 2) d && flt dot min_cos)

  -- The nearest wanted object in front.
  unfoldable pub in_sight :
      {V : Type 0}
      → (V → Bool)
      → (V → String)
      → (V → Vector3 F)
      → F
      → F
      → Vector3 F
      → Vector3 F
      → List V
      → Option (String × V)
  unfolding is_in_front key_by
  in_sight wanted id place limit2 min_cos cam fw vs =
      (nearest (λ v. wanted v && is_in_front limit2 min_cos cam fw (place v)) place cam limit2
        (key_by id vs)).0

  -- The nearest wanted object, in any direction.
  unfoldable pub nearby :
      {V : Type 0}
      → (V → Bool)
      → (V → String)
      → (V → Vector3 F)
      → F
      → Vector3 F
      → List V
      → Option (String × V)
  unfolding key_by
  nearby wanted id place limit2 cam vs = (nearest wanted place cam limit2 (key_by id vs)).0

  unfoldable pub well_in_sight : Gaze F → Net.Client F → String
  unfolding in_sight id_of geo_camera
  well_in_sight g c = id_of (
      in_sight (λ _. true) (λ (w : Messages.Well F). w.id) (λ w. w.at) (num 36) (lit 5 1)
        (geo_camera g c) g.forward c.wells)

  unfoldable pub rocket_in_sight : Gaze F → Net.Client F → String
  unfolding in_sight id_of
  rocket_in_sight g c = id_of (
      in_sight (λ _. true) (λ (r : Messages.Rocket F). r.id) (λ r. r.at) (num 64) (lit 3 1) g.camera
        g.forward c.rockets)

  unfoldable pub factory_in_sight : Gaze F → Net.Client F → String
  unfolding in_sight id_of
  factory_in_sight g c = id_of (
      in_sight (λ _. true) (λ (f : Messages.Factory F). f.id) (λ f. f.at) (num 36) (lit 4 1)
        g.camera g.forward c.factories)

  -- With its place.
  unfoldable pub pink_mob_in_sight : Gaze F → Net.Client F → String × Vector3 F
  unfolding in_sight geo_camera
  pink_mob_in_sight g c =
      elim (in_sight (λ (m : Messages.Mob F). m.kind == "pink") (λ m. m.id) (λ m. m.at) (num 36)
        (lit 4 1) (geo_camera g c) g.forward c.mobs) [
          | none ↦ ("", origin)
          | some (id, m) ↦ (id, m.at)
        ]

  unfoldable pub house_in_sight : Gaze F → Net.Client F → String
  unfolding nearby id_of
  house_in_sight g c =
      id_of
        (nearby (λ _. true) (λ (h : Messages.House F). h.id) (λ h. h.at) (num 36) g.camera c.houses)

  unfoldable pub boat_nearby : Gaze F → Net.Client F → String
  unfolding nearby id_of
  boat_nearby g c = id_of (
      nearby (λ (b : Messages.Boat F). is_free b.rider_id c.player_id) (λ b. b.id) (λ b. b.at)
        (num 64) g.camera c.boats)

  unfoldable pub saddled_mammoth_nearby : Gaze F → Net.Client F → String
  unfolding nearby id_of
  saddled_mammoth_nearby g c = id_of (
      nearby (λ (m : Messages.Mammoth F). m.saddle && is_free m.rider_id c.player_id) (λ m. m.id)
        (λ m. m.at) (num 36) g.camera c.mammoths)

  unfoldable pub mammoth_in_reach : Gaze F → Net.Client F → String
  unfolding in_sight id_of
  mammoth_in_reach g c = id_of (
      in_sight (λ _. true) (λ (m : Messages.Mammoth F). m.id) (λ m. m.at) (num 25) (lit 4 1)
        g.camera g.forward c.mammoths)

  unfoldable pub seed_in_sight : Gaze F → Net.Client F → String
  unfolding in_sight id_of geo_camera
  seed_in_sight g c = id_of (
      in_sight (λ (r : Messages.Resource F). r.kind == "seed") (λ r. r.id) (λ r. r.at) (num 25)
        (lit 6 1) (geo_camera g c) g.forward c.resources)

  -- The loop of `tryPickup`, whose bound is a distance that is squared again.
  unfoldable pub closest :
      Vector3 F
      → List (Messages.Resource F)
      → Option (Messages.Resource F)
      → F
      → Option (Messages.Resource F)
  closest here [] best dist = best
  closest here (r ∷ rs) best dist =
      let d = dist2 r.at here in
      let nearer = flt d (dist ⊗ dist) in
      closest here rs (if nearer then some r else best) (if nearer then sqrt32 d else dist)

  -- Ask for the closest resource within 5 of the body.
  unfoldable pub try_pickup : Bool → Vector3 F → Net.Client F → Net.Client F
  unfolding closest geo_camera
  try_pickup written body c =
      let here = geo_camera (record { camera = body; forward = origin }) c in
      elim (closest here c.resources none (num 5)) [
        | none ↦ c
        | some r ↦ (Actions.pickup_item written r.id c).0
      ]
