-- ===== src/Client/App/Spears.antt =====
-- The spears that a player has thrown, and what they hit: internal/client/app/projectiles.go.
pub mod Fates
pub mod Reports
use lodeen.Base.Float.{Float, ◌⊗◌, ◌⊘◌, lit, num, flt}
use lodeen.Base.{ℕ, zero, suc, String, Bool, not, List, [], ◌∷◌, ◌==◌, if◌then◌else◌}
use lodeen.Client.Net
use lodeen.Client.Net.Actions
use lodeen.Client.Input.{Raylib}
use lodeen.Protocol.Geometry.{Vector3}
use lodeen.Protocol.Messages
use lodeen.Server.Time.{time_sub}
use lodeen.Client.Net.Interpolation.{seconds}

-- `projectile`
pub record Spear (F : Type 0) : Type 0 where
  pub at : Vector3 F
  pub dir : Vector3 F
  pub spawn : ℕ

-- What becomes of one spear: it is too old, it hits, or it flies on.
pub data Outcome (F : Type 0) : Type 0 where
  expires : Outcome F
  hits_mob : String → Outcome F
  hits_mammoth : String → Outcome F
  flies : Spear F → Outcome F

module _ {F : Type 0} where
  -- The message of an outcome, and the spears that go on before `rest`.
  unfoldable pub tell : Bool → Outcome F → Net.Client F → Net.Client F
  tell written expires c = c
  tell written (hits_mob id) c = (Actions.hit_mob written id c).0
  tell written (hits_mammoth id) c = (Actions.hit_mammoth written id c).0
  tell written (flies _) c = c

  unfoldable pub keep_flying : Outcome F → List (Spear F) → List (Spear F)
  keep_flying expires rest = rest
  keep_flying (hits_mob _) rest = rest
  keep_flying (hits_mammoth _) rest = rest
  keep_flying (flies p) rest = p ∷ rest

module _ {F : Type 0} ⦃fl : Float F⦄ ⦃rl : Raylib F⦄ where
  -- Whether the segment from `a` to `b` comes nearer than `r` to `c`.
  unfoldable pub seg_sphere_hit : Vector3 F → Vector3 F → Vector3 F → F → Bool
  seg_sphere_hit a b c r =
      let ab = rl.subtract b a in
      let ac = rl.subtract c a in
      let len2 = rl.dot_product ab ab in
      let start = rl.subtract a c in
      let t0 = rl.dot_product ac ab ⊘ len2 in
      let t = if flt t0 (num 0) then num 0 else if flt (num 1) t0 then num 1 else t0 in
      let d = rl.subtract (rl.add a (rl.scale ab t)) c in
      if flt len2 (lit 1 6)
      then flt (rl.dot_product start start) (r ⊗ r)
      else flt (rl.dot_product d d) (r ⊗ r)

  -- The first object whose sphere the flight from `prev` to `p` meets; the empty text is none.
  unfoldable pub first_hit :
      {V : Type 0} → (V → String) → (V → Vector3 F) → F → Vector3 F → Vector3 F → List V → String
  first_hit id place r prev p [] = ""
  first_hit id place r prev p (v ∷ vs) =
      let rest = first_hit id place r prev p vs in
      if seg_sphere_hit prev p (place v) r then id v else rest

  -- 1.5 seconds, 60 a second, radii of 2.5 + 0.5 and 3.0 + 0.5.
  unfoldable pub move_spear : ℕ → F → Net.Client F → Spear F → Outcome F
  unfolding first_hit seconds
  move_spear now dt c p =
      let at = rl.add p.at (rl.scale p.dir (num 60 ⊗ dt)) in
      let mob = first_hit (λ (m : Messages.Mob F). m.id) (λ m. m.at) (num 3) p.at at c.mobs in
      let mammoth =
        first_hit (λ (m : Messages.Mammoth F). m.id) (λ m. m.at) (lit 35 1) p.at at c.mammoths in
      if fl.wide.lt (fl.wide.lit 15 1) (seconds fl.wide (time_sub now p.spawn))
      then expires
      else if not (mob == "")
      then hits_mob mob
      else if not (mammoth == "")
      then hits_mammoth mammoth
      else flies (record p { at = at })

  -- The loop; `seen` is the client as the mobs and mammoths were read, before it.
  unfoldable pub update_spears :
      Bool → ℕ → F → Net.Client F → List (Spear F) → Net.Client F → List (Spear F) × Net.Client F
  unfolding move_spear tell keep_flying
  update_spears written now dt seen [] c = ([], c)
  update_spears written now dt seen (p ∷ ps) c =
      let outcome = move_spear now dt seen p in
      let rest = update_spears written now dt seen ps (tell written outcome c) in
      (keep_flying outcome (rest.0), rest.1)

  unfoldable pub update_projectiles :
      Bool → ℕ → F → List (Spear F) → Net.Client F → List (Spear F) × Net.Client F
  unfolding update_spears
  update_projectiles written now dt ps c = update_spears written now dt c ps c
