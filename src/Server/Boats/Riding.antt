-- ===== src/Server/Boats/Riding.antt =====
-- Who sits in which boat.
use lodeen.Base.{
  ◌≡◌, ◌≢◌, refl, String, [], ◌∷◌, Option, none, some, ◌⊎◌, inl, inr, arith, eq_iff, ◌==◌,
  Bool-cases,
}
use lodeen.Base.Map.{Map, lookup, insert, lookup-insert, map_values, lookup-map_values, AllValues}
use lodeen.Base.Float.{Float}
use lodeen.Protocol.Messages.{PlayerState}
use lodeen.Server.State.{Client, Server, Boat, Mammoth}
use lodeen.Server.Boats.{
  leave_boat, dismount, find_rider, board, leave_all, handle_enter_boat, float_boat, tick_boat,
  tick_boats,
}

module _ {F : Type 0} where
  -- The client sits in no boat.
  abbrev pub IsAshore : String → Map (Boat F) → Type 0
  IsAshore id = AllValues (λ b. b.rider_id ≢ id)

  -- The client sits in the boat `id` alone, or in none.
  abbrev pub SitsIn : String → String → Map (Boat F) → Type 0
  SitsIn id rider [] = Unit {0}
  SitsIn id rider ((k, b) ∷ m) = (b.rider_id ≡ rider → k ≡ id) × SitsIn id rider m

  -- A client with this identifier is registered.
  abbrev pub IsRegistered : String → Map (Client F) → Type 0
  IsRegistered id [] = ⊥
  IsRegistered id ((_, c) ∷ m) = (c.id ≡ id) ⊎ IsRegistered id m

  -- The rider is one of the clients, or there is none.
  abbrev pub HasRealRider : Map (Client F) → Boat F → Type 0
  HasRealRider clients b = (b.rider_id ≡ "") ⊎ IsRegistered b.rider_id clients

  find_rider-IsRegistered :
      (id : String) (m : Map (Client F)) (st : PlayerState F)
      → find_rider id m ≡ some st
      → IsRegistered id m
  unfolding find_rider
  find_rider-IsRegistered id [] st e = ground arith
  find_rider-IsRegistered id ((k, c) ∷ m) st e = elim (Bool-cases (c.id == id)) [
    | inl hit ↦ inl (ground (arith, eq_iff c.id id))
    | inr miss ↦ inr (find_rider-IsRegistered id m st (ground arith))
  ]

  leave_boat-IsAshore :
      (id : String) (m : Map (Boat F)) → id ≢ "" → IsAshore id (map_values (leave_boat id) m)
  unfolding map_values leave_boat
  leave_boat-IsAshore id [] n = tt
  leave_boat-IsAshore id ((k, b) ∷ m) n =
      (ground (arith, eq_iff b.rider_id id), leave_boat-IsAshore id m n)

  dismount-AllValues :
      (id : String) (m : Map (Mammoth F))
      → id ≢ ""
      → AllValues (λ a. a.rider_id ≢ id) (map_values (dismount id) m)
  unfolding map_values dismount
  dismount-AllValues id [] n = tt
  dismount-AllValues id ((k, a) ∷ m) n =
      (ground (arith, eq_iff a.rider_id id), dismount-AllValues id m n)

  IsAshore-SitsIn : (id rider : String) (m : Map (Boat F)) → IsAshore rider m → SitsIn id rider m
  IsAshore-SitsIn id rider [] h = tt
  IsAshore-SitsIn id rider ((k, b) ∷ m) h = (λ e. absurd (h.0 e), IsAshore-SitsIn id rider m h.1)

  insert-SitsIn :
      (id rider : String) (b : Boat F) (m : Map (Boat F))
      → IsAshore rider m
      → SitsIn id rider (insert id b m)
  unfolding insert
  insert-SitsIn id rider b [] h = (λ _. refl, tt)
  insert-SitsIn id rider b ((k, a) ∷ m) h = elim (Bool-cases (k == id)) [
    | inl hit ↦ rw (hit) (λ _. refl, IsAshore-SitsIn id rider m h.1)
    | inr miss ↦ rw (miss) (λ e. absurd (h.0 e), insert-SitsIn id rider b m h.1)
  ]

module _ {F : Type 0} ⦃fl : Float F⦄ where
  board-SitsIn :
      (id : String) (o : Option (Boat F)) (s : Server F) (c : Client F)
      → IsAshore c.id s.boats
      → SitsIn id c.id (board id o s c).boats × ((board id o s c).mammoths ≡ s.mammoths)
  unfolding board
  board-SitsIn id none s c h = (IsAshore-SitsIn id c.id s.boats h, refl)
  board-SitsIn id (some b) s c h = ground (
    arith,
    IsAshore-SitsIn id c.id s.boats h,
    insert-SitsIn id c.id (record b { rider_id = c.id }) s.boats h,
  )

  -- After a client asks to board, it sits in no other boat than the one that it named, and on no
  -- mammoth.
  pub handle_enter_boat-SitsIn :
      (id : String) (s : Server F) (c : Client F)
      → c.id ≢ ""
      → SitsIn id c.id (handle_enter_boat id s c).boats
        × AllValues (λ m. m.rider_id ≢ c.id) (handle_enter_boat id s c).mammoths
  unfolding handle_enter_boat leave_all
  handle_enter_boat-SitsIn id s c n =
      let s' = leave_all c.id s in
      let ashore : IsAshore c.id s'.boats = leave_boat-IsAshore c.id s.boats n in
      let foot = dismount-AllValues c.id s.mammoths n in
      let boarded = board-SitsIn id (lookup id s'.boats) s' c ashore in
      elim (Bool-cases (id == "")) [
        | inl unnamed ↦ rw (unnamed) (IsAshore-SitsIn id c.id s'.boats ashore, foot)
        | inr named ↦ rw (named) (boarded.0, rw (boarded.1) foot)
      ]

  board-other :
      (id j : String) (b : Boat F) (o : Option (Boat F)) (s : Server F) (c : Client F)
      → lookup id s.boats ≡ o
      → lookup j s.boats ≡ some b
      → b.rider_id ≢ ""
      → lookup j (board id o s c).boats ≡ some b
  unfolding board
  board-other id j b none s c e l n = l
  board-other id j b (some a) s c e l n = ground (
    arith,
    eq_iff id j,
    eq_iff a.rider_id "",
    lookup-insert id j (record a { rider_id = c.id }) s.boats,
    e,
    l,
  )

  -- A boat in which another player sits keeps its place and its rider, whoever asks to board what.
  pub handle_enter_boat-other :
      (id j : String) (b : Boat F) (s : Server F) (c : Client F)
      → lookup j s.boats ≡ some b
      → b.rider_id ≢ ""
      → b.rider_id ≢ c.id
      → lookup j (handle_enter_boat id s c).boats ≡ some b
  unfolding handle_enter_boat leave_all leave_boat board
  handle_enter_boat-other id j b s c l n n' =
      let s' = leave_all c.id s in
      let here : lookup j s'.boats ≡ some b =
        ground (arith, lookup-map_values (leave_boat c.id) j s.boats, l, eq_iff b.rider_id c.id) in
      ground (arith, here, board-other id j b (lookup id s'.boats) s' c refl here n)

  float_boat-HasRealRider :
      (clients : Map (Client F)) (b : Boat F) (o : Option (PlayerState F))
      → find_rider b.rider_id clients ≡ o
      → HasRealRider clients (float_boat o b)
  unfolding float_boat
  float_boat-HasRealRider clients b none e = inl refl
  float_boat-HasRealRider clients b (some st) e =
      let moved : (float_boat (some st) b).rider_id ≡ b.rider_id = ground arith in
      rw (moved) (inr (find_rider-IsRegistered b.rider_id clients st e))

  tick_boat-HasRealRider :
      (clients : Map (Client F)) (m : Map (Boat F))
      → AllValues (HasRealRider clients) (map_values (tick_boat clients) m)
  unfolding map_values tick_boat
  tick_boat-HasRealRider clients [] = tt
  tick_boat-HasRealRider clients ((k, b) ∷ m) =
      let rest = tick_boat-HasRealRider clients m in
      elim (Bool-cases (b.rider_id == "")) [
        | inl free ↦ rw (free) (inl (ground (arith, eq_iff b.rider_id "")), rest)
        | inr taken ↦
            rw (taken)
              (float_boat-HasRealRider clients b (find_rider b.rider_id clients) refl, rest)
      ]

  -- After a tick every boat is free or its rider is the identifier of a registered client, whoever
  -- sat in it before.
  pub tick_boats-HasRealRider :
      (s : Server F) → AllValues (HasRealRider (tick_boats s).clients) (tick_boats s).boats
  unfolding tick_boats
  tick_boats-HasRealRider s = tick_boat-HasRealRider s.clients s.boats
