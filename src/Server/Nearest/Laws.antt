-- ===== src/Server/Nearest/Laws.antt =====
-- The search finds an entry of the map that no wanted entry is nearer than.
use lodeen.Base.{
  String, Bool, true, false, ◌≡◌, refl, [], ◌∷◌, Option, none, some, ◌&&◌, ◌⊎◌, inl, inr, arith,
  if◌then◌else◌, Bool-cases,
}
use lodeen.Base.Map.{Map, AllValues, Entry}
use lodeen.Base.Float.{Float, IsStrictOrder, flt}
use lodeen.Protocol.Geometry.{Vector3, dist2}
use lodeen.Server.Nearest.{nearest_from, nearest}

module _ {F : Type 0} ⦃fl : Float F⦄ {V : Type 0} where
  module _ (laws : IsStrictOrder F) (wanted : V → Bool) (place : V → Vector3 F)
      (here : Vector3 F) where
    -- No wanted entry is nearer than `d`.
    abbrev pub NoneNearer : F → Map V → Type 0
    NoneNearer d = AllValues (λ v. wanted v ≡ true → flt (dist2 (place v) here) d ≡ false)

    -- The distance found only falls.
    nearest_from-falls :
        (m : Map V) (best : Option (String × V)) (bd x : F)
        → flt x bd ≡ false
        → flt x (nearest_from wanted place here m best bd).1 ≡ false
    unfolding nearest_from
    nearest_from-falls [] best bd x h = h
    nearest_from-falls ((k, v) ∷ m) best bd x h =
        let d2 = dist2 (place v) here in
        let nearer = wanted v && flt d2 bd in
        nearest_from-falls m (if nearer then some (k, v) else best) (if nearer then d2 else bd) x
          (ground (arith, laws.flt_trans x d2 bd))

    nearest_from-NoneNearer :
        (m : Map V) (best : Option (String × V)) (bd : F)
        → NoneNearer (nearest_from wanted place here m best bd).1 m
    unfolding nearest_from
    nearest_from-NoneNearer [] best bd = tt
    nearest_from-NoneNearer ((k, v) ∷ m) best bd =
        let d2 = dist2 (place v) here in
        let nearer = wanted v && flt d2 bd in
        let best' : Option (String × V) = if nearer then some (k, v) else best in
        let bd' = if nearer then d2 else bd in
        (
          λ w. nearest_from-falls m best' bd' d2 (ground (arith, laws.flt_irrefl d2)),
          nearest_from-NoneNearer m best' bd',
        )

    -- What a search may end with, from `best` at the squared distance `bd`.
    abbrev pub Found : Map V → Option (String × V) → F → Option (String × V) × F → Type 0
    Found m best bd (r, d) =
        ((r ≡ best) × (d ≡ bd))
        ⊎ ((k : String) × (v : V) × (r ≡ some (k, v))
            × Entry k v m
            × (wanted v ≡ true)
            × (d ≡ dist2 (place v) here)
            × (flt d bd ≡ true))

    Found-closer :
        (k : String) (v : V) (m : Map V) (best : Option (String × V)) (bd : F)
        (out : Option (String × V) × F)
        → wanted v ≡ true
        → flt (dist2 (place v) here) bd ≡ true
        → Found m (some (k, v)) (dist2 (place v) here) out
        → Found ((k, v) ∷ m) best bd out
    Found-closer k v m best bd out w lt (inl (r, d)) =
        inr (k, v, r, inl (refl, refl), w, d, rw d lt)
    Found-closer k v m best bd out w lt (inr (k', v', r, e, w', d, l)) =
        inr (k', v', r, inr e, w', d, laws.flt_trans out.1 (dist2 (place v) here) bd l lt)

    Found-farther :
        (k : String) (v : V) (m : Map V) (best : Option (String × V)) (bd : F)
        (out : Option (String × V) × F)
        → Found m best bd out
        → Found ((k, v) ∷ m) best bd out
    Found-farther k v m best bd out (inl same) = inl same
    Found-farther k v m best bd out (inr (k', v', r, e, w, d, l)) = inr (k', v', r, inr e, w, d, l)

    nearest_from-Found :
        (m : Map V) (best : Option (String × V)) (bd : F)
        → Found m best bd (nearest_from wanted place here m best bd)
    unfolding nearest_from
    nearest_from-Found [] best bd = inl (refl, refl)
    nearest_from-Found ((k, v) ∷ m) best bd =
        let d2 = dist2 (place v) here in
        elim (Bool-cases (wanted v && flt d2 bd)) [
          | inl e ↦
              rw (e, nearest_from)
                (Found-closer k v m best bd (nearest_from wanted place here m (some (k, v)) d2)
                  (ground arith) (ground arith) (nearest_from-Found m (some (k, v)) d2))
          | inr e ↦
              rw (e, nearest_from)
                (Found-farther k v m best bd (nearest_from wanted place here m best bd)
                  (nearest_from-Found m best bd))
        ]

    -- A search within a radius ends with an entry of the map that is wanted and lies within the
    -- radius, or with nothing and the radius itself; no wanted entry is nearer than what it ends with.
    pub nearest-Found :
        (radius2 : F) (m : Map V)
        → Found m none radius2 (nearest wanted place here radius2 m)
          × NoneNearer (nearest wanted place here radius2 m).1 m
    unfolding nearest
    nearest-Found radius2 m =
        (nearest_from-Found m none radius2, nearest_from-NoneNearer m none radius2)
