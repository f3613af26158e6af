-- ===== src/Server/Farm/Growth.antt =====
-- What the growing of the plants leaves alone: internal/server/net/farm.go, `tickResources`.
use lodeen.Base.{
  ℕ, ◌≡◌, ◌≢◌, refl, ◌∙◌, String, true, false, [], ◌∷◌, none, some, arith, eq_iff, ◌==◌,
  if◌then◌else◌, inl, inr, Bool-cases,
}
use lodeen.Base.Map.{
  Map, lookup, insert, erase, lookup-insert, lookup-erase, Entry, IsMap, Entry-lookup,
}
use lodeen.Base.Float.{Float, ◌⊕◌, ◌⊗◌, num, lit}
use lodeen.Protocol.Messages.{Resource}
use lodeen.Server.State.{Server}
use lodeen.Server.Time.{unix_milli}
use lodeen.Server.Farm.{lying, is_ripe, harvest, grow_all, tick_resources}

-- The identifier is none of the new ones.
abbrev pub IsOld : (String → String × String) → String → Type 0
IsOld ids j = (k : String) → ((ids k).0 ≢ j) × ((ids k).1 ≢ j)

module _ {F : Type 0} ⦃fl : Float F⦄ where
  lookup-harvest :
      (first second id j : String) (r : Resource F) (m : Map (Resource F))
      → first ≢ j
      → second ≢ j
      → lookup j (harvest first second r (erase id m)) ≡ (if id == j then none else lookup j m)
  unfolding harvest
  lookup-harvest first second id j r m n1 n2 =
      let p = r.at in
      let a = lying first "fruit" (record p { x = p.x ⊕ num 0 ⊗ lit 15 1 }) in
      let b = lying second "fruit" (record p { x = p.x ⊕ num 1 ⊗ lit 15 1 }) in
      ground (
        arith,
        lookup-insert second j b (insert first a (erase id m)),
        lookup-insert first j a (erase id m),
        lookup-erase id j m,
        eq_iff first j,
        eq_iff second j,
      )

  -- What is not ripe stays.
  grow_all-other :
      (now : ℕ) (ids : String → String × String) (j : String) (todo m : Map (Resource F))
      → IsOld ids j
      → ((r : Resource F) → Entry j r todo → is_ripe now r ≡ false)
      → lookup j (grow_all now ids todo m) ≡ lookup j m
  unfolding grow_all
  grow_all-other now ids j [] m old calm = refl
  grow_all-other now ids j ((id, r) ∷ todo) m old calm =
      let rest : (m' : Map (Resource F)) → lookup j (grow_all now ids todo m') ≡ lookup j m' =
        λ m'. grow_all-other now ids j todo m' old (λ r' e. calm r' (inr e)) in
      elim (Bool-cases (is_ripe now r)) [
        | inl ripe ↦
            let other : id ≢ j = λ e. ground (arith, calm r (inl (e, refl))) in
            rw (ripe) (
              rest (harvest (ids id).0 (ids id).1 r (erase id m))
              ∙ ground (
                arith,
                lookup-harvest (ids id).0 (ids id).1 id j r m (old id).0 (old id).1,
                eq_iff id j,
              ))
        | inr green ↦ rw (green) (rest m)
      ]

  -- What is gone stays away.
  grow_all-none :
      (now : ℕ) (ids : String → String × String) (j : String) (todo m : Map (Resource F))
      → IsOld ids j
      → lookup j m ≡ none
      → lookup j (grow_all now ids todo m) ≡ none
  unfolding grow_all
  grow_all-none now ids j [] m old e = e
  grow_all-none now ids j ((id, r) ∷ todo) m old e = elim (Bool-cases (is_ripe now r)) [
    | inl ripe ↦ rw (ripe) (
        grow_all-none now ids j todo (harvest (ids id).0 (ids id).1 r (erase id m)) old
          (ground (arith, lookup-harvest (ids id).0 (ids id).1 id j r m (old id).0 (old id).1)))
    | inr green ↦ rw (green) (grow_all-none now ids j todo m old e)
  ]

  -- A ripe plant goes.
  grow_all-ripe :
      (now : ℕ) (ids : String → String × String) (j : String) (v : Resource F)
      (todo m : Map (Resource F))
      → IsOld ids j
      → Entry j v todo
      → is_ripe now v ≡ true
      → lookup j (grow_all now ids todo m) ≡ none
  unfolding grow_all
  grow_all-ripe now ids j v [] m old e t = absurd e
  grow_all-ripe now ids j v ((id, r) ∷ todo) m old (inl (p, q)) t =
      let ripe : is_ripe now r ≡ true = rw (q) t in
      rw (ripe) (
        grow_all-none now ids j todo (harvest (ids id).0 (ids id).1 r (erase id m)) old (
          ground (
            arith,
            lookup-harvest (ids id).0 (ids id).1 id j r m (old id).0 (old id).1,
            eq_iff id j,
          )))
  grow_all-ripe now ids j v ((id, r) ∷ todo) m old (inr e) t =
      grow_all-ripe now ids j v todo
        (if is_ripe now r then harvest (ids id).0 (ids id).1 r (erase id m) else m) old e t

  -- A tick removes the old resource `j` when it is a watered seed whose time has come, and leaves
  -- it exactly as it was otherwise, whatever else ripens in the same tick. The new identifiers are
  -- not `j`.
  pub tick_resources-old :
      (now : ℕ) (ids : String → String × String) (j : String) (v : Resource F) (s : Server F)
      → IsMap s.resources
      → IsOld ids j
      → Entry j v s.resources
      → lookup j (tick_resources now ids s).resources
        ≡ (if is_ripe (unix_milli now) v then none else some v)
  unfolding tick_resources
  tick_resources-old now ids j v s wf old e =
      let known = Entry-lookup j v s.resources wf e in
      elim (Bool-cases (is_ripe (unix_milli now) v)) [
        | inl ripe ↦
            rw (ripe) (grow_all-ripe (unix_milli now) ids j v s.resources s.resources old e ripe)
        | inr green ↦ rw (green) (
            grow_all-other (unix_milli now) ids j s.resources s.resources old
              (λ r e'. ground (arith, green, known, Entry-lookup j r s.resources wf e'))
            ∙ known)
      ]
