-- ===== src/Client/App/Sight/Nearest.antt =====
-- The object that a search of internal/client/app/input.go chooses.
use mathlib.Core.Path.{subst}
use lodeen.Base.Map.{Entry, AllValues}
use lodeen.Base.Float.{Float, flt, IsStrictOrder}
use lodeen.Base.{
  ◌≡◌, refl, sym, ap, ◌∙◌, String, Bool, true, false, ◌&&◌, List, [], ◌∷◌, none, some, ◌⊎◌, inl,
  inr, All, Bool-cases,
}
use lodeen.Client.App.Sight.{key_by, in_sight, is_in_front}
use lodeen.Protocol.Geometry.{Vector3, dist2}
use lodeen.Server.Nearest.{nearest}
use lodeen.Server.Nearest.Laws.{nearest-Found}

-- The value stands in the list.
abbrev pub IsListed : {V : Type 0} → V → List V → Type 0
IsListed v [] = ⊥
IsListed v (w ∷ vs) = (w ≡ v) ⊎ IsListed v vs

Entry-key_by :
    {V : Type 0} (id : V → String) (k : String) (v : V) (vs : List V)
    → Entry k v (key_by id vs)
    → IsListed v vs × (id v ≡ k)
unfolding key_by
Entry-key_by id k v [] e = absurd e
Entry-key_by id k v (w ∷ vs) (inl (p, q)) = (inl q, ap id (sym q) ∙ p)
Entry-key_by id k v (w ∷ vs) (inr e) = let rest = Entry-key_by id k v vs e in (inr (rest.0), rest.1)

-- A test that fails wherever another one holds fails together with it.
All-key_by :
    {V : Type 0} (may near : V → Bool) (id : V → String) (vs : List V)
    → AllValues (λ v. may v ≡ true → near v ≡ false) (key_by id vs)
    → All (λ v. (may v && near v) ≡ false) vs
unfolding key_by
All-key_by may near id [] h = tt
All-key_by may near id (v ∷ vs) h = (
  elim (Bool-cases (may v)) [ inl e ↦ rw e (h.0 e) | inr e ↦ rw e refl ],
  All-key_by may near id vs h.1,
)

module _ {F : Type 0} ⦃fl : Float F⦄ {V : Type 0} (laws : IsStrictOrder F) (wanted : V → Bool)
    (id : V → String) (place : V → Vector3 F) (limit2 min_cos : F) (cam fw : Vector3 F) where
  -- What a search may take: a wanted object that is in front.
  abbrev pub may_take : V → Bool
  may_take v = wanted v && is_in_front limit2 min_cos cam fw (place v)

  -- No object that a search may take is nearer than `d`.
  abbrev pub NothingNearer : F → List V → Type 0
  NothingNearer d = All (λ v. (may_take v && flt (dist2 (place v) cam) d) ≡ false)

  -- A search that finds nothing has no wanted object in front within its limit; one that finds an
  -- object gives the identifier of a listed, wanted object in front within the limit, and no other
  -- such object is nearer. The order of the distances is strict.
  pub in_sight-nearest :
      (vs : List V)
      → ((in_sight wanted id place limit2 min_cos cam fw vs ≡ none) × NothingNearer limit2 vs)
        ⊎ ((v : V) × (in_sight wanted id place limit2 min_cos cam fw vs ≡ some (id v, v))
            × IsListed v vs
            × (may_take v ≡ true)
            × (flt (dist2 (place v) cam) limit2 ≡ true)
            × NothingNearer (dist2 (place v) cam) vs)
  unfolding in_sight
  in_sight-nearest vs =
      let found = nearest-Found laws may_take place cam limit2 (key_by id vs) in
      let search = nearest may_take place cam limit2 (key_by id vs) in
      let least = All-key_by may_take (λ v. flt (dist2 (place v) cam) search.1) id vs (found.1) in
      elim (found.0) [
        | inl (e, d) ↦ inl (e, subst (λ x. NothingNearer x vs) d least)
        | inr (k, v, e, entry, may, d, near) ↦
            let listed = Entry-key_by id k v vs entry in
            inr (
              v,
              e ∙ ap (λ x. some (x, v)) (sym (listed.1)),
              listed.0,
              may,
              subst (λ x. flt x limit2 ≡ true) d near,
              subst (λ x. NothingNearer x vs) d least,
            )
      ]
