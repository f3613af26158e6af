-- ===== src/Client/App/Playing/Flies.antt =====
-- That the flight controller is there.
use lodeen.Base.{Bool, true, false, Option, none, some, ◌≡◌, if◌then◌else◌}
use lodeen.Client.App.Pilot.{seat_answer}
use lodeen.Client.App.Playing.{proceed}
use lodeen.Client.App.State.{App}
use lodeen.Client.Input.{FlightController}

module _ {F Q : Type 0} where
  abbrev pub lacks : Option (FlightController F Q) → Bool
  lacks none = true
  lacks (some _) = false

  -- The flight controller is not nil.
  pub record Flies (a : App F Q) : Type 0 where
    pub has : lacks a.flight ≡ false

  pub record FliesOn (r : App F Q × Bool) : Type 0 where
    pub on : Flies r.0

  pub if-Flies : (test : Bool) (a b : App F Q) → Flies a → Flies b → Flies (if test then a else b)
  if-Flies true a b h k = h
  if-Flies false a b h k = k

  pub if-FliesOn :
      (test : Bool) (r s : App F Q × Bool) → FliesOn r → FliesOn s → FliesOn (if test then r else s)
  if-FliesOn true r s h k = h
  if-FliesOn false r s h k = k

  pub maybe-Flies :
      {A : Type 0} (o : Option A) (a : App F Q) (s : A → App F Q)
      → Flies a
      → ((x : A) → Flies (s x))
      → Flies (elim o [ none ↦ a | some x ↦ s x ])
  maybe-Flies none a s h k = h
  maybe-Flies (some x) a s h k = k x

  pub maybe-FliesOn :
      {A : Type 0} (o : Option A) (r : App F Q × Bool) (s : A → App F Q × Bool)
      → FliesOn r
      → ((x : A) → FliesOn (s x))
      → FliesOn (elim o [ none ↦ r | some x ↦ s x ])
  maybe-FliesOn none r s h k = h
  maybe-FliesOn (some x) r s h k = k x

  pub proceed-Flies :
      (r : App F Q × Bool) (rest : App F Q → App F Q)
      → FliesOn r
      → ((a : App F Q) → Flies a → Flies (rest a))
      → Flies (proceed r rest)
  unfolding proceed
  proceed-Flies (a, true) rest h k = h.on
  proceed-Flies (a, false) rest h k = k a h.on

  pub seat_answer-FliesOn : (r : App F Q × Bool) → FliesOn r → FliesOn (seat_answer r)
  unfolding seat_answer
  seat_answer-FliesOn (a, true) h = h
  seat_answer-FliesOn (a, false) h = record { on = record { has = h.on.has } }

  pub stays : (a : App F Q) (answer : Bool) → Flies a → FliesOn (a, answer)
  stays a answer h = record { on = h }
