-- ===== src/Client/App/Spears/Fates.antt =====
-- What becomes of the thrown spears, told without the code's search, and the loop over them.
use lodeen.Base.Float.{Float, ◌⊗◌, lit, num}
use lodeen.Base.{
  ℕ, String, ◌==◌, ◌≡◌, ◌⊎◌, refl, Bool, true, false, List, [], ◌∷◌, map, inl, inr, All, Bool-cases,
}
use lodeen.Client.App.Spears.{
  Spear, Outcome, expires, hits_mob, hits_mammoth, flies, seg_sphere_hit, first_hit, move_spear,
  update_projectiles,
}
use lodeen.Client.App.Spears.Reports.{reports, flying, Wrote, update_projectiles-map}
use lodeen.Client.Input.{Raylib}
use lodeen.Client.Net
use lodeen.Client.Net.Interpolation.{seconds}
use lodeen.Protocol.Geometry.{Vector3}
use lodeen.Protocol.Messages.{Mob, Mammoth}
use lodeen.Server.Time.{time_sub}

module _ {F : Type 0} ⦃fl : Float F⦄ ⦃rl : Raylib F⦄ where
  module _ {V : Type 0} (id : V → String) (place : V → Vector3 F) (r : F)
      (from to : Vector3 F) where
    -- The flight meets the sphere of none.
    abbrev pub NoneMet : List V → Type 0
    NoneMet vs = All (λ v. seg_sphere_hit from to (place v) r ≡ false) vs

    -- `v` is the first whose sphere the flight meets.
    pub data FirstMet (v : V) : List V → Type 0 where
      here : {vs : List V} → seg_sphere_hit from to (place v) r ≡ true → FirstMet v (v ∷ vs)
      later :
          {u : V} {vs : List V}
          → seg_sphere_hit from to (place u) r ≡ false
          → FirstMet v vs
          → FirstMet v (u ∷ vs)

    -- Each has an identifier that is not empty.
    abbrev pub AreNamed : List V → Type 0
    AreNamed vs = All (λ v. (id v == "") ≡ false) vs

    first_hit-meets :
        (vs : List V)
        → AreNamed vs
        → (NoneMet vs × (first_hit id place r from to vs ≡ ""))
          ⊎ ((v : V) × FirstMet v vs
              × (first_hit id place r from to vs ≡ id v)
              × ((id v == "") ≡ false))
    unfolding first_hit
    first_hit-meets [] named = inl (tt, refl)
    first_hit-meets (u ∷ vs) named = elim (Bool-cases (seg_sphere_hit from to (place u) r)) [
      | inl met ↦ inr (u, here met, rw met refl, named.0)
      | inr missed ↦ elim (first_hit-meets vs (named.1)) [
        | inl (none_met, e) ↦ inl ((missed, none_met), rw missed e)
        | inr (v, first, e, has) ↦ inr (v, later missed first, rw missed e, has)
      ]
    ]

  -- Where a spear is after `dt` seconds, at 60 a second.
  abbrev pub moved : F → Spear F → Vector3 F
  moved dt p = rl.add p.at (rl.scale p.dir (num 60 ⊗ dt))

  abbrev pub is_old : ℕ → Spear F → Bool
  is_old now p = fl.wide.lt (fl.wide.lit 15 1) (seconds fl.wide (time_sub now p.spawn))

  module _ (now : ℕ) (dt : F) (seen : Net.Client F) where
    -- What may become of a spear: after more than 1.5 seconds it is gone; else the first mob within
    -- 3 of its flight is hit; where there is none, the first mammoth within 3.5; else it flies on.
    pub data Fate (p : Spear F) : Outcome F → Type 0 where
      too_old : is_old now p ≡ true → Fate p expires
      meets_mob :
          (m : Mob F)
          → is_old now p ≡ false
          → FirstMet (λ m. m.id) (λ m. m.at) (num 3) p.at (moved dt p) m seen.mobs
          → Fate p (hits_mob m.id)
      meets_mammoth :
          (m : Mammoth F)
          → is_old now p ≡ false
          → NoneMet (λ (m : Mob F). m.id) (λ m. m.at) (num 3) p.at (moved dt p) seen.mobs
          → FirstMet (λ m. m.id) (λ m. m.at) (lit 35 1) p.at (moved dt p) m seen.mammoths
          → Fate p (hits_mammoth m.id)
      goes_on :
          is_old now p ≡ false
          → NoneMet (λ (m : Mob F). m.id) (λ m. m.at) (num 3) p.at (moved dt p) seen.mobs
          → NoneMet (λ (m : Mammoth F). m.id) (λ m. m.at) (lit 35 1) p.at (moved dt p) seen.mammoths
          → Fate p (flies (record p { at = moved dt p }))

    pub data Fates : List (Spear F) → List (Outcome F) → Type 0 where
      no_more : Fates [] []
      and_then :
          {p : Spear F} {ps : List (Spear F)} {o : Outcome F} {os : List (Outcome F)}
          → Fate p o
          → Fates ps os
          → Fates (p ∷ ps) (o ∷ os)

    move_spear-Fate :
        (p : Spear F)
        → All (λ (m : Mob F). (m.id == "") ≡ false) seen.mobs
        → All (λ (m : Mammoth F). (m.id == "") ≡ false) seen.mammoths
        → Fate p (move_spear now dt seen p)
    unfolding move_spear
    move_spear-Fate p mobs mammoths = elim (Bool-cases (is_old now p)) [
      | inl old ↦ rw old (too_old old)
      | inr young ↦
          elim (first_hit-meets (λ m. m.id) (λ m. m.at) (num 3) p.at (moved dt p) seen.mobs mobs) [
            | inr (m, first, e, has) ↦ rw (young, e, has) (meets_mob m young first)
            | inl (no_mob, e) ↦
                elim (first_hit-meets (λ m. m.id) (λ m. m.at) (lit 35 1) p.at (moved dt p)
                  seen.mammoths mammoths) [
                    | inr (m, first, d, has) ↦
                        rw (young, e, d, has) (meets_mammoth m young no_mob first)
                    | inl (no_mammoth, d) ↦ rw (young, e, d) (goes_on young no_mob no_mammoth)
                  ]
          ]
    ]

    map-Fates :
        (ps : List (Spear F))
        → All (λ (m : Mob F). (m.id == "") ≡ false) seen.mobs
        → All (λ (m : Mammoth F). (m.id == "") ≡ false) seen.mammoths
        → Fates ps (map (move_spear now dt seen) ps)
    map-Fates [] mobs mammoths = no_more
    map-Fates (p ∷ ps) mobs mammoths =
        and_then (move_spear-Fate p mobs mammoths) (map-Fates ps mobs mammoths)

    -- Where every mob and mammoth has an identifier: of the thrown spears, in their order, those
    -- older than 1.5 seconds are gone; of the others, those whose flight in this frame comes within 3
    -- of a mob, by the test of `segSphereHit`, hit the first such mob and are gone; those that meet
    -- no mob but come within 3.5 of a mammoth hit the first such mammoth and are gone; and the rest
    -- stay, moved by their flight. The frames written are one for each spear that hits, in the same
    -- order, of what it hits. All are measured against the mobs and mammoths as they were before the
    -- loop. Every write succeeds; without a connection nothing is written.
    pub update_projectiles-reports :
        (ps : List (Spear F))
        → All (λ (m : Mob F). (m.id == "") ≡ false) seen.mobs
        → All (λ (m : Mammoth F). (m.id == "") ≡ false) seen.mammoths
        → (os : List (Outcome F)) × Fates ps os
          × ((update_projectiles true now dt ps seen).0 ≡ flying os)
          × Wrote seen (reports os) (update_projectiles true now dt ps seen).1
    update_projectiles-reports ps mobs mammoths =
        let done = update_projectiles-map now dt seen ps in
        (map (move_spear now dt seen) ps, map-Fates ps mobs mammoths, done.0, done.1)
