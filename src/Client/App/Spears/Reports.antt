-- ===== src/Client/App/Spears/Reports.antt =====
-- The loop over the thrown spears, by the outcome that `move_spear` gives each.
use mathlib.Core.List.{append-nil, append_assoc}
use lodeen.Base.Float.{Float}
use lodeen.Base.{
  ℕ, ◌≡◌, refl, sym, ap, ◌∙◌, arith, true, List, [], ◌∷◌, ◌++◌, map, Option, none, some,
}
use lodeen.Client.App.Spears.{
  Spear, Outcome, expires, hits_mob, hits_mammoth, flies, move_spear, tell, keep_flying,
  update_spears, update_projectiles,
}
use lodeen.Client.Input.{Raylib}
use lodeen.Client.Net.{Client}
use lodeen.Client.Net.Actions
use lodeen.Server.Dispatch.{Request}

-- Nothing written, and one part after another.
write-nil :
    {A : Type 0} (conn : Option (List A))
    → conn ≡ elim conn [ none ↦ none | some sent ↦ some (sent ++ []) ]
write-nil none = refl
write-nil (some sent) = ap some (sym (append-nil sent))

write-append :
    {A : Type 0} (conn : Option (List A)) (xs ys : List A)
    → elim (elim conn as (λ _. Option (List A)) [ none ↦ none | some sent ↦ some (sent ++ xs) ])
        as (λ _. Option (List A)) [ none ↦ none | some sent ↦ some (sent ++ ys) ]
      ≡ elim conn [ none ↦ none | some sent ↦ some (sent ++ (xs ++ ys)) ]
write-append none xs ys = refl
write-append (some sent) xs ys = ap some (append_assoc sent xs ys)

module _ {F : Type 0} where
  -- The message of an outcome, if any.
  abbrev pub reports : List (Outcome F) → List (Request F)
  reports [] = []
  reports (expires ∷ os) = reports os
  reports (hits_mob id ∷ os) = Request.hit_mob id ∷ reports os
  reports (hits_mammoth id ∷ os) = Request.hit_mammoth id ∷ reports os
  reports (flies _ ∷ os) = reports os

  abbrev pub flying : List (Outcome F) → List (Spear F)
  flying [] = []
  flying (expires ∷ os) = flying os
  flying (hits_mob _ ∷ os) = flying os
  flying (hits_mammoth _ ∷ os) = flying os
  flying (flies p ∷ os) = p ∷ flying os

  -- The frames of the open connection, with more behind them.
  abbrev pub Wrote : Client F → List (Request F) → Client F → Type 0
  Wrote c requests d = d.conn ≡ elim c.conn [ none ↦ none | some sent ↦ some (sent ++ requests) ]

  tell-Wrote : (o : Outcome F) (c : Client F) → Wrote c (reports (o ∷ [])) (tell true o c)
  unfolding tell Actions.hit_mob Actions.hit_mammoth Actions.send
  tell-Wrote expires c = write-nil c.conn
  tell-Wrote (hits_mob id) c = ground arith
  tell-Wrote (hits_mammoth id) c = ground arith
  tell-Wrote (flies p) c = write-nil c.conn

  reports-cons :
      (o : Outcome F) (os : List (Outcome F)) → reports (o ∷ os) ≡ reports (o ∷ []) ++ reports os
  reports-cons expires os = refl
  reports-cons (hits_mob id) os = refl
  reports-cons (hits_mammoth id) os = refl
  reports-cons (flies p) os = refl

  flying-cons :
      (o : Outcome F) (os : List (Outcome F)) → flying (o ∷ os) ≡ keep_flying o (flying os)
  unfolding keep_flying
  flying-cons expires os = refl
  flying-cons (hits_mob id) os = refl
  flying-cons (hits_mammoth id) os = refl
  flying-cons (flies p) os = refl

module _ {F : Type 0} ⦃fl : Float F⦄ ⦃rl : Raylib F⦄ (now : ℕ) (dt : F) (seen : Client F) where
  update_spears-Wrote :
      (ps : List (Spear F)) (c : Client F)
      → ((update_spears true now dt seen ps c).0 ≡ flying (map (move_spear now dt seen) ps))
        × Wrote c
            (reports (map (move_spear now dt seen) ps))
            (update_spears true now dt seen ps c).1
  unfolding update_spears
  update_spears-Wrote [] c = (refl, write-nil c.conn)
  update_spears-Wrote (p ∷ ps) c =
      let o = move_spear now dt seen p in
      let os = map (move_spear now dt seen) ps in
      let told = tell-Wrote o c in
      let (fly_on, wrote) = update_spears-Wrote ps (tell true o c) in
      (
        ap (keep_flying o) fly_on ∙ sym (flying-cons o os),
        wrote
            ∙ ap
                (λ (conn : Option (List (Request F))).
                  elim conn as (λ _. Option (List (Request F))) [
                    | none ↦ none
                    | some sent ↦ some (sent ++ reports os)
                  ])
                told
            ∙ write-append c.conn (reports (o ∷ [])) (reports os)
            ∙ ap
                (λ (rs : List (Request F)). elim c.conn as (λ _. Option (List (Request F))) [
                  | none ↦ none
                  | some sent ↦ some (sent ++ rs)
                ])
                (sym (reports-cons o os)),
      )

  pub update_projectiles-map :
      (ps : List (Spear F))
      → ((update_projectiles true now dt ps seen).0 ≡ flying (map (move_spear now dt seen) ps))
        × Wrote seen
            (reports (map (move_spear now dt seen) ps))
            (update_projectiles true now dt ps seen).1
  unfolding update_projectiles
  update_projectiles-map ps = update_spears-Wrote ps seen
