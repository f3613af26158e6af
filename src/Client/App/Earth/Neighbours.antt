-- ===== src/Client/App/Earth/Neighbours.antt =====
-- The two entries of the history that the planet's place is taken from.
use lodeen.Base.Float.{Float}
use lodeen.Base.{
  ◌≡◌, refl, ap, true, false, List, [], ◌∷◌, ◌++◌, Option, none, some, ◌⊎◌, inl, inr, get_elem?,
  All, Bool-cases,
}
use lodeen.Client.App.Earth.{EarthSnap, tick64, surround, find_earth_surrounding}

module _ {F : Type 0} ⦃fl : Float F⦄ (t : fl.Wide) where
  -- The tick of an entry is after `t`.
  abbrev pub IsLater : EarthSnap F → Type 0
  IsLater s = fl.wide.le (tick64 fl.wide s.tick) t ≡ false

  -- `a` stands in the history with `b` behind it, all behind it are later, and it is not later
  -- itself unless it is the first.
  pub record Surrounds (hist : List (EarthSnap F)) (a : EarthSnap F) (b : Option (EarthSnap F))
      : Type 0 where
    pub before : List (EarthSnap F)
    pub behind : List (EarthSnap F)
    pub stands : hist ≡ before ++ a ∷ behind
    pub next : b ≡ get_elem? behind 0
    pub later : All IsLater behind
    pub reached : (fl.wide.le (tick64 fl.wide a.tick) t ≡ true) ⊎ (before ≡ [])

  Surrounds-cons :
      (s : EarthSnap F) (hist : List (EarthSnap F)) (a : EarthSnap F) (b : Option (EarthSnap F))
      (v : Surrounds hist a b)
      → fl.wide.le (tick64 fl.wide a.tick) t ≡ true
      → Surrounds (s ∷ hist) a b
  Surrounds-cons s hist a b v r = record {
    before = s ∷ v.before;
    behind = v.behind;
    stands = ap (◌∷◌ s) v.stands;
    next = v.next;
    later = v.later;
    reached = inl r;
  }

  -- What the loop returns, when it comes in with `found`.
  abbrev Result :
      List (EarthSnap F)
      → Option (EarthSnap F × Option (EarthSnap F))
      → Option (EarthSnap F × Option (EarthSnap F))
      → Type 0
  Result hist found out =
      ((out ≡ found) × All IsLater hist)
      ⊎ ((a : EarthSnap F) × (b : Option (EarthSnap F)) × (out ≡ some (a, b))
          × (fl.wide.le (tick64 fl.wide a.tick) t ≡ true)
          × Surrounds hist a b)

  surround-Result :
      (hist : List (EarthSnap F)) (found : Option (EarthSnap F × Option (EarthSnap F)))
      → Result hist found (surround t hist found)
  unfolding surround
  surround-Result [] found = inl (refl, tt)
  surround-Result (s ∷ hist) found = elim (Bool-cases (fl.wide.le (tick64 fl.wide s.tick) t)) [
    | inl here ↦ rw here (elim (surround-Result hist (some (s, get_elem? hist 0))) [
      | inl (e, rest) ↦ inr (
        s,
        get_elem? hist 0,
        e,
        here,
        record {
          before = [];
          behind = hist;
          stands = refl;
          next = refl;
          later = rest;
          reached = inl here;
        },
      )
      | inr (a, b, e, r, v) ↦ inr (a, b, e, r, Surrounds-cons s hist a b v r)
    ])
    | inr after ↦ rw after (elim (surround-Result hist found) [
      | inl (e, rest) ↦ inl (e, (refl, rest))
      | inr (a, b, e, r, v) ↦ inr (a, b, e, r, Surrounds-cons s hist a b v r)
    ])
  ]

  -- Of a history that is not empty the two entries are always found: one and the entry behind it,
  -- if any. All entries behind the first of the two are later than the shown tick, and it is not
  -- later itself unless it is the oldest of all.
  pub find_earth_surrounding-Surrounds :
      (s : EarthSnap F) (hist : List (EarthSnap F))
      → (a : EarthSnap F) × (b : Option (EarthSnap F)) × (find_earth_surrounding t (s ∷ hist)
          ≡ some (a, b))
        × Surrounds (s ∷ hist) a b
  unfolding find_earth_surrounding
  find_earth_surrounding-Surrounds s hist = elim (surround-Result (s ∷ hist) none) [
    | inl (e, rest) ↦ (
      s,
      get_elem? hist 0,
      rw (e, find_earth_surrounding) refl,
      record {
        before = [];
        behind = hist;
        stands = refl;
        next = refl;
        later = rest.1;
        reached = inr refl;
      },
    )
    | inr (a, b, e, r, v) ↦ (a, b, rw (e, find_earth_surrounding) refl, v)
  ]
