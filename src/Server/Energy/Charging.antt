-- ===== src/Server/Energy/Charging.antt =====
-- Batteries stay within their limits, and when a tick is too short to charge them.
use lodeen.Base.{
  ℕ, ◌+◌, ◌/◌, ltb, ◌≤◌, ◌<◌, ◌≡◌, refl, String, true, [], ◌∷◌, Option, none, some, arith,
  if◌then◌else◌, inl, inr, ◌∙◌, Option-cases,
}
use lodeen.Base.Int.{ℤ, pos, negsuc, pos_part, neg_part, int_bound, int_add-pos}
use lodeen.Base.Map.{Map, AllValues, Entry, IsMap, Entry-AllValues, insert-AllValues, insert-same}
use lodeen.Base.Float.{Float, IsStrictOrder, num}
use lodeen.Protocol.Geometry.{Vector3}
use lodeen.Protocol.Messages.{Place}
use lodeen.Server.State.{Client, Server, Solar, Battery}
use lodeen.Server.Nearest.Laws.{nearest-Found}
use lodeen.Server.Client.{consume_item}
use lodeen.Server.Energy.{
  div_hundred, energy_per_panel, charge_battery, charge_nearest, charge_all, tick_energy,
  nearest_battery, handle_place_battery,
}

-- What a panel gives in a tick is an int64 that is not negative.
pub record IsGain (e : ℤ) : Type 0 where
  pub sign : neg_part e ≡ 0
  pub small : pos_part e < int_bound

-- A battery holds from 0 to 1000, and 1000 is its limit.
pub record IsBattery {F : Type 0} (b : Battery F) : Type 0 where
  pub limit : b.max_energy ≡ pos 1000
  pub sign : neg_part b.energy ≡ 0
  pub fits : pos_part b.energy ≤ 1000

pub pos_of_sign : (z : ℤ) → neg_part z ≡ 0 → z ≡ pos (pos_part z)
pos_of_sign (pos n) h = refl
pos_of_sign (negsuc n) h = absurd (omega arith)

-- The energy after a charge.
abbrev pub charged : ℕ → ℕ → ℕ
charged q n = if ltb 1000 (q + n / 100) then 1000 else q + n / 100

module _ {F : Type 0} ⦃fl : Float F⦄ where
  charge_battery-eq :
      (e : ℤ) (b : Battery F)
      → IsGain e
      → IsBattery b
      → charge_battery e b ≡ record b { energy = pos (charged (pos_part b.energy) (pos_part e)) }
  unfolding charge_battery div_hundred
  charge_battery-eq e b g h = ground (
    arith,
    g.sign,
    pos_of_sign e g.sign,
    pos_of_sign b.energy h.sign,
    h.limit,
    int_add-pos (pos_part b.energy) (pos_part e / 100) (omega arith),
  )

  charge_battery-IsBattery :
      (e : ℤ) (b : Battery F) → IsGain e → IsBattery b → IsBattery (charge_battery e b)
  charge_battery-IsBattery e b g h = rw (charge_battery-eq e b g h) (ground arith)

  -- A gain below 100 hundredths is lost.
  charge_battery-idle :
      (e : ℤ) (b : Battery F) → IsGain e → IsBattery b → pos_part e < 100 → charge_battery e b ≡ b
  charge_battery-idle e b g h small =
      charge_battery-eq e b g h ∙ ground (arith, pos_of_sign b.energy h.sign)

  pub nearest_battery-Entry :
      IsStrictOrder F
      → (here : Vector3 F) (m : Map (Battery F)) (k : String) (b : Battery F)
      → nearest_battery here m ≡ some (k, b)
      → Entry k b m
  unfolding nearest_battery
  nearest_battery-Entry laws here m k b e =
      elim ((nearest-Found laws (λ _. true) (λ b'. b'.at) here (num 100) m).0) [
        | inl (nothing, _) ↦ cc
        | inr (k', b', found, entry, _, _, _) ↦ ground (arith, entry)
      ]

  charge_nearest-IsBattery :
      (e : ℤ) (o : Option (String × Battery F)) (m : Map (Battery F))
      → IsGain e
      → ((k : String) (b : Battery F) → o ≡ some (k, b) → Entry k b m)
      → AllValues IsBattery m
      → AllValues IsBattery (charge_nearest e o m)
  unfolding charge_nearest
  charge_nearest-IsBattery e none m g from h = h
  charge_nearest-IsBattery e (some (k, b)) m g from h =
      insert-AllValues IsBattery k (charge_battery e b) m h
        (charge_battery-IsBattery e b g (Entry-AllValues IsBattery k b m h (from k b refl)))

  charge_all-IsBattery :
      IsStrictOrder F
      → (e : ℤ) (panels : Map (Solar F)) (m : Map (Battery F)) → IsGain e
      → AllValues IsBattery m
      → AllValues IsBattery (charge_all e panels m)
  unfolding charge_all
  charge_all-IsBattery laws e [] m g h = h
  charge_all-IsBattery laws e ((_, p) ∷ panels) m g h =
      charge_all-IsBattery laws e panels (charge_nearest e (nearest_battery p.at m) m) g (
        charge_nearest-IsBattery e (nearest_battery p.at m) m g (nearest_battery-Entry laws p.at m)
          h)

  -- A charging tick keeps every battery between 0 and its limit of 1000.
  pub tick_energy-IsBattery :
      IsStrictOrder F
      → (dt : F) (s : Server F) → IsGain (energy_per_panel dt)
      → AllValues IsBattery s.batteries
      → AllValues IsBattery (tick_energy dt s).batteries
  unfolding tick_energy
  tick_energy-IsBattery laws dt s g h =
      charge_all-IsBattery laws (energy_per_panel dt) s.solar s.batteries g h

  charge_nearest-idle :
      (e : ℤ) (o : Option (String × Battery F)) (m : Map (Battery F))
      → IsGain e
      → pos_part e < 100
      → ((k : String) (b : Battery F) → o ≡ some (k, b) → Entry k b m)
      → IsMap m
      → AllValues IsBattery m
      → charge_nearest e o m ≡ m
  unfolding charge_nearest
  charge_nearest-idle e none m g small from u h = refl
  charge_nearest-idle e (some (k, b)) m g small from u h =
      let entry = from k b refl in
      rw (charge_battery-idle e b g (Entry-AllValues IsBattery k b m h entry) small)
        (insert-same k b m u entry)

  charge_all-idle :
      IsStrictOrder F
      → (e : ℤ) (panels : Map (Solar F)) (m : Map (Battery F)) → IsGain e
      → pos_part e < 100
      → IsMap m
      → AllValues IsBattery m
      → charge_all e panels m ≡ m
  unfolding charge_all
  charge_all-idle laws e [] m g small u h = refl
  charge_all-idle laws e ((_, p) ∷ panels) m g small u h =
      rw
        (charge_nearest-idle e (nearest_battery p.at m) m g small
          (nearest_battery-Entry laws p.at m) u h)
        (charge_all-idle laws e panels m g small u h)

  -- When a panel gives less than one unit in a tick, the tick charges nothing: no panel ever adds
  -- anything at such a rate, however many ticks pass.
  pub tick_energy-idle :
      IsStrictOrder F
      → (dt : F) (s : Server F) → IsGain (energy_per_panel dt)
      → pos_part (energy_per_panel dt) < 100
      → IsMap s.batteries
      → AllValues IsBattery s.batteries
      → tick_energy dt s ≡ s
  unfolding tick_energy
  tick_energy-idle laws dt s g small u h =
      rw (charge_all-idle laws (energy_per_panel dt) s.solar s.batteries g small u h)

  -- A battery that is placed is empty, under its limit.
  pub handle_place_battery-IsBattery :
      (id : String) (p : Place F) (s : Server F) (c : Client F)
      → AllValues IsBattery s.batteries
      → AllValues IsBattery (handle_place_battery id p s c).0.batteries
  unfolding handle_place_battery
  handle_place_battery-IsBattery id p s c h = elim (Option-cases (consume_item "battery" c)) [
    | inl e ↦ rw (e, handle_place_battery) h
    | inr (d, e) ↦
        rw (e, handle_place_battery)
          (insert-AllValues IsBattery id _ s.batteries h
            (record { limit = refl; sign = refl; fits = omega arith }))
  ]
