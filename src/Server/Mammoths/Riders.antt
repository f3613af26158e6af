-- ===== src/Server/Mammoths/Riders.antt =====
-- Nobody rides two mammoths, and nobody is thrown off by another.
use lodeen.Base.{
  ◌≡◌, ◌≢◌, refl, String, [], ◌∷◌, Option, none, some, inl, inr, arith, eq_iff, ◌==◌, Option-cases,
  Bool-cases,
}
use lodeen.Base.Map.{Map, lookup, insert, lookup-insert, AllValues}
use lodeen.Base.Float.{Float}
use lodeen.Server.State.{Client, Server, Mammoth}
use lodeen.Server.Mammoths.{put_mammoth, dismount_first, mount, handle_ride_mammoth}

module _ {F : Type 0} where
  -- No mammoth of the map is ridden by the client.
  abbrev pub IsOnFoot : String → Map (Mammoth F) → Type 0
  IsOnFoot id = AllValues (λ m. m.rider_id ≢ id)

  -- The client rides one mammoth at most.
  abbrev pub RidesOne : String → Map (Mammoth F) → Type 0
  RidesOne id [] = Unit {0}
  RidesOne id ((_, m) ∷ mm) = (m.rider_id ≡ id → IsOnFoot id mm) × RidesOne id mm

  IsOnFoot-RidesOne : (id : String) (mm : Map (Mammoth F)) → IsOnFoot id mm → RidesOne id mm
  IsOnFoot-RidesOne id [] h = tt
  IsOnFoot-RidesOne id ((k, m) ∷ mm) h = (λ _. h.1, IsOnFoot-RidesOne id mm h.1)

  -- A search that finds nothing says that the client is on foot.
  dismount_first-none :
      (id : String) (mm : Map (Mammoth F)) → dismount_first id mm ≡ none → IsOnFoot id mm
  unfolding dismount_first
  dismount_first-none id [] e = tt
  dismount_first-none id ((k, m) ∷ mm) e =
      let rest : IsOnFoot id mm = elim (Option-cases (dismount_first id mm)) [
        | inl none' ↦ dismount_first-none id mm none'
        | inr (r, some') ↦ absurd (ground (arith, e, some'))
      ] in
      (ground (arith, e, eq_iff m.rider_id id), rest)

  -- The one that it finds was the only one.
  dismount_first-some :
      (id : String) (mm out : Map (Mammoth F))
      → id ≢ ""
      → RidesOne id mm
      → dismount_first id mm ≡ some out
      → IsOnFoot id out
  unfolding dismount_first
  dismount_first-some id [] out n h e = absurd (ground (arith, e))
  dismount_first-some id ((k, m) ∷ mm) out n h e = elim (Bool-cases (m.rider_id == id)) [
    | inl hit ↦
        let same : m.rider_id ≡ id = ground (arith, eq_iff m.rider_id id) in
        let rest : IsOnFoot id mm = h.0 same in
        let here : out ≡ (k, record m { rider_id = "" }) ∷ mm = ground (arith, e, hit) in
        rw (here) (λ q. n (ground (arith, q)), rest)
    | inr miss ↦ elim (Option-cases (dismount_first id mm)) [
      | inl none' ↦ absurd (ground (arith, e, miss, none'))
      | inr (r, some') ↦
          let here : out ≡ (k, m) ∷ r = ground (arith, e, miss, some') in
          rw (here) (ground (arith, eq_iff m.rider_id id), dismount_first-some id mm r n h.1 some')
    ]
  ]

  -- One new entry for a client on foot.
  insert-RidesOne :
      (id k : String) (m : Mammoth F) (mm : Map (Mammoth F))
      → IsOnFoot id mm
      → RidesOne id (insert k m mm)
  unfolding insert
  insert-RidesOne id k m [] h = (λ _. tt, tt)
  insert-RidesOne id k m ((j, a) ∷ mm) h = elim (Bool-cases (j == k)) [
    | inl hit ↦ rw (hit) (λ _. h.1, IsOnFoot-RidesOne id mm h.1)
    | inr miss ↦ rw (miss) (λ e. absurd (h.0 e), insert-RidesOne id k m mm h.1)
  ]

  -- Nobody else is thrown off.
  dismount_first-other :
      (id j : String) (m : Mammoth F) (mm out : Map (Mammoth F))
      → m.rider_id ≢ id
      → dismount_first id mm ≡ some out
      → lookup j mm ≡ some m
      → lookup j out ≡ some m
  unfolding dismount_first lookup
  dismount_first-other id j m [] out n e l = absurd (ground (arith, l))
  dismount_first-other id j m ((k, a) ∷ mm) out n e l = elim (Bool-cases (a.rider_id == id)) [
    | inl hit ↦ ground (arith, e, l, hit, eq_iff a.rider_id id)
    | inr miss ↦ elim (Option-cases (dismount_first id mm)) [
      | inl none' ↦ absurd (ground (arith, e, miss, none'))
      | inr (r, some') ↦
          let here : out ≡ (k, a) ∷ r = ground (arith, e, miss, some') in
          let rest : lookup j mm ≡ some m → lookup j r ≡ some m =
            dismount_first-other id j m mm r n some' in
          rw (here) (ground (arith, l, rest))
    ]
  ]

module _ {F : Type 0} ⦃fl : Float F⦄ where
  mount-RidesOne :
      (id : String) (o : Option (Mammoth F)) (s : Server F) (c : Client F)
      → IsOnFoot c.id s.mammoths
      → RidesOne c.id (mount id o s c).mammoths
  unfolding mount put_mammoth
  mount-RidesOne id none s c foot = IsOnFoot-RidesOne c.id s.mammoths foot
  mount-RidesOne id (some a) s c foot =
      let b : Mammoth F = record a { rider_id = c.id } in
      ground
        (arith, IsOnFoot-RidesOne c.id s.mammoths foot, insert-RidesOne c.id id b s.mammoths foot)

  mount-other :
      (id j : String) (m : Mammoth F) (o : Option (Mammoth F)) (s : Server F) (c : Client F)
      → lookup id s.mammoths ≡ o
      → lookup j s.mammoths ≡ some m
      → m.rider_id ≢ ""
      → lookup j (mount id o s c).mammoths ≡ some m
  unfolding mount put_mammoth
  mount-other id j m none s c e l n = l
  mount-other id j m (some a) s c e l n =
      let b : Mammoth F = record a { rider_id = c.id } in
      ground (arith, eq_iff id j, eq_iff a.rider_id "", lookup-insert id j b s.mammoths, e, l)

  -- A client that rides one mammoth at most still does so after `handleRideMammoth`, whatever
  -- mammoth it names.
  pub handle_ride_mammoth-RidesOne :
      (id : String) (s : Server F) (c : Client F)
      → c.id ≢ ""
      → RidesOne c.id s.mammoths
      → RidesOne c.id (handle_ride_mammoth id s c).mammoths
  unfolding handle_ride_mammoth
  handle_ride_mammoth-RidesOne id s c n h = elim (Option-cases (dismount_first c.id s.mammoths)) [
    | inl walking ↦
        let foot = dismount_first-none c.id s.mammoths walking in
        elim (Bool-cases (id == "")) [
          | inl unnamed ↦
              rw (walking, unnamed, handle_ride_mammoth) (IsOnFoot-RidesOne c.id s.mammoths foot)
          | inr named ↦
              rw (walking, named, handle_ride_mammoth)
                (mount-RidesOne id (lookup id s.mammoths) s c foot)
        ]
    | inr (mm, found) ↦
        rw (found, handle_ride_mammoth)
          (IsOnFoot-RidesOne c.id mm (dismount_first-some c.id s.mammoths mm n h found))
  ]

  -- A mammoth that another player rides does not change when a client mounts or gets off.
  pub handle_ride_mammoth-other :
      (id j : String) (m : Mammoth F) (s : Server F) (c : Client F)
      → lookup j s.mammoths ≡ some m
      → m.rider_id ≢ ""
      → m.rider_id ≢ c.id
      → lookup j (handle_ride_mammoth id s c).mammoths ≡ some m
  unfolding handle_ride_mammoth
  handle_ride_mammoth-other id j m s c l n n' =
      elim (Option-cases (dismount_first c.id s.mammoths)) [
        | inl walking ↦
            ground (arith, walking, l, mount-other id j m (lookup id s.mammoths) s c refl l n)
        | inr (mm, found) ↦
            ground (arith, found, dismount_first-other c.id j m s.mammoths mm n' found l)
      ]
