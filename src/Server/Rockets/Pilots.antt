-- ===== src/Server/Rockets/Pilots.antt =====
-- Who pilots which rocket.
use lodeen.Base.{
  ◌≡◌, ◌≢◌, refl, String, true, false, [], ◌∷◌, Option, none, some, inl, inr, arith, eq_iff,
  Bool-cases,
}
use lodeen.Base.Map.{Map, lookup, lookup-insert, AllValues}
use lodeen.Base.Float.{Float}
use lodeen.Server.State.{Client, Server, Rocket}
use lodeen.Server.Rockets.{
  is_pilot, change_first, leave_rocket, handle_exit_rocket, board_rocket, handle_board_rocket,
}

module _ {F : Type 0} where
  -- The client pilots no rocket.
  abbrev pub IsGrounded : String → Map (Rocket F) → Type 0
  IsGrounded id = AllValues (λ r. is_pilot id r ≡ false)

  -- The client pilots one rocket at most.
  abbrev pub PilotsOne : String → Map (Rocket F) → Type 0
  PilotsOne id [] = Unit {0}
  PilotsOne id ((_, r) ∷ m) = (is_pilot id r ≡ true → IsGrounded id m) × PilotsOne id m

  change_first-IsGrounded :
      (id : String) (m : Map (Rocket F))
      → PilotsOne id m
      → IsGrounded id (change_first id leave_rocket m)
  unfolding change_first leave_rocket is_pilot
  change_first-IsGrounded id [] h = tt
  change_first-IsGrounded id ((k, r) ∷ m) h = elim (Bool-cases (is_pilot id r)) [
    | inl own ↦
        let free : is_pilot id (leave_rocket r) ≡ false = ground arith in rw (own) (free, h.0 own)
    | inr other ↦ rw (other) (other, change_first-IsGrounded id m h.1)
  ]

  -- A client that pilots one rocket at most pilots none after `handleExitRocket`.
  pub handle_exit_rocket-IsGrounded :
      (s : Server F) (c : Client F)
      → PilotsOne c.id s.rockets
      → IsGrounded c.id (handle_exit_rocket s c).rockets
  unfolding handle_exit_rocket
  handle_exit_rocket-IsGrounded s c h = change_first-IsGrounded c.id s.rockets h

module _ {F : Type 0} ⦃fl : Float F⦄ where
  board_rocket-other :
      (id j : String) (r : Rocket F) (o : Option (Rocket F)) (s : Server F) (c : Client F)
      → lookup id s.rockets ≡ o
      → lookup j s.rockets ≡ some r
      → r.piloted ≡ true
      → r.owner_id ≢ c.id
      → lookup j (board_rocket id o s c).rockets ≡ some r
  unfolding board_rocket
  board_rocket-other id j r none s c e l p n = l
  board_rocket-other id j r (some a) s c e l p n = ground (
    arith,
    eq_iff id j,
    eq_iff a.owner_id c.id,
    lookup-insert id j (record a { piloted = true; owner_id = c.id }) s.rockets,
    e,
    l,
  )

  -- A rocket that another player pilots keeps its pilot, whatever rocket a client boards.
  pub handle_board_rocket-other :
      (id j : String) (r : Rocket F) (s : Server F) (c : Client F)
      → lookup j s.rockets ≡ some r
      → r.piloted ≡ true
      → r.owner_id ≢ c.id
      → lookup j (handle_board_rocket id s c).rockets ≡ some r
  unfolding handle_board_rocket
  handle_board_rocket-other id j r s c l p n =
      board_rocket-other id j r (lookup id s.rockets) s c refl l p n
