-- ===== src/Server/Rockets/Phases.antt =====
-- What the phases of a tick and the handlers do to the fuel of a rocket.
use lodeen.Base.{
  ℕ, zero, suc, ◌≤◌, ◌≡◌, refl, String, Bool, true, false, [], ◌∷◌, Option, none, some, ◌⊎◌, inl,
  inr, arith, if◌then◌else◌, Bool-cases, not, Option-cases,
}
use lodeen.Base.Int.{pos, pos_part, ◌≤ℤ◌}
use lodeen.Base.Map.{Map, lookup, map_values, AllValues, insert-AllValues, lookup-AllValues}
use lodeen.Base.Float.{Float, ◌⊕◌, ◌⊖◌, ◌⊗◌, lit, num, flt, fle}
use lodeen.Protocol.Geometry.{Vector3, norm, clamp_to_surface, sun_pos, soi_earth}
use lodeen.Protocol.Messages.{RocketInput}
use lodeen.Server.State.{Client, Server, Rocket}
use lodeen.Server.Client.{consume_item}
use lodeen.Server.Rockets.{
  sub_vector, is_pilot, change_first, steer, new_rocket, handle_place_rocket, board_rocket,
  rest_on_sun, rest_on_earth, tick_free_rocket,
}
use lodeen.Server.Rockets.Orbit.{set_in_orbit, update_orbital_params}
use lodeen.Server.Rockets.Flight.{
  gravity_accel, apply_autopilot, steer_up_toward_target, burn, burn_fuel, consume_thrust,
  apply_atmospheric_drag, apply_speed_limit, collide_with_earth, collide_with_sun,
  update_rocket_frame, log_rocket_tick, accelerate, move_rocket, tick_piloted_rocket, tick_rocket,
}

module _ {F : Type 0} where
  -- The tank of a rocket is neither overdrawn nor overfull.
  abbrev pub IsFuelled : Rocket F → Type 0
  IsFuelled r = (pos 0 ≤ℤ r.fuel) × (r.fuel ≤ℤ r.max_fuel)

  -- Fuel and tank as before.
  abbrev Keeps : Rocket F → Rocket F → Type 0
  Keeps r q = (q.fuel ≡ r.fuel) × (q.max_fuel ≡ r.max_fuel)

  pub change_first-IsFuelled :
      (id : String) (f : Rocket F → Rocket F) (m : Map (Rocket F))
      → ((r : Rocket F) → IsFuelled r → IsFuelled (f r))
      → AllValues IsFuelled m
      → AllValues IsFuelled (change_first id f m)
  unfolding change_first
  change_first-IsFuelled id f [] g h = tt
  change_first-IsFuelled id f ((k, r) ∷ m) g h = elim (Bool-cases (is_pilot id r)) [
    | inl own ↦ rw (own) (g r h.0, h.1)
    | inr other ↦ rw (other) (h.0, change_first-IsFuelled id f m g h.1)
  ]

  Keeps-IsFuelled : (r q : Rocket F) → Keeps r q → IsFuelled r → IsFuelled q
  Keeps-IsFuelled r q k h = rw (k.0, k.1) h

  if-IsFuelled :
      (b : Bool) (r q : Rocket F) → IsFuelled r → IsFuelled q → IsFuelled (if b then q else r)
  if-IsFuelled b r q h k = ground (arith, h, k)

module _ {F : Type 0} ⦃fl : Float F⦄ where
  burn-le : (n : ℕ) (a : F) → (burn n a).0 ≤ n
  unfolding burn
  burn-le zero a = omega arith
  burn-le (suc n) a = ground (arith, burn-le n (a ⊖ num 1))

  -- The loop ends with nothing left, or with less than a unit to burn.
  pub burn-ends : (n : ℕ) (a : F) → ((burn n a).0 ≡ 0) ⊎ (fle (num 1) (burn n a).1 ≡ false)
  unfolding burn
  burn-ends zero a = inl refl
  burn-ends (suc n) a = ground (arith, burn-ends n (a ⊖ num 1))

  consume_thrust-IsFuelled :
      (dt : F) (r : Rocket F) → IsFuelled r → IsFuelled (consume_thrust dt r).0
  unfolding consume_thrust burn_fuel
  consume_thrust-IsFuelled dt r h =
      let accum : F =
        r.fuel_accum
        ⊕ num 5 ⊗ dt ⊗ (if flt r.thrust (num 0) then fl.ops.neg r.thrust else r.thrust) in
      ground (arith, burn-le (pos_part r.fuel) accum)

  tick_free_rocket-Keeps : (ep ev : Vector3 F) (r : Rocket F) → Keeps r (tick_free_rocket ep ev r)
  unfolding tick_free_rocket rest_on_sun rest_on_earth
  tick_free_rocket-Keeps ep ev r = ground arith

  apply_autopilot-Keeps :
      (p v : Vector3 F) (d : F) (r : Rocket F) → Keeps r (apply_autopilot p v d r)
  unfolding apply_autopilot
  apply_autopilot-Keeps p v d r = ground arith

  steer_up-Keeps : (dt : F) (r : Rocket F) → Keeps r (steer_up_toward_target dt r)
  unfolding steer_up_toward_target
  steer_up-Keeps dt r = ground arith

  drag-Keeps :
      (ev : Vector3 F) (d dt : F) (r : Rocket F) → Keeps r (apply_atmospheric_drag ev d dt r)
  unfolding apply_atmospheric_drag
  drag-Keeps ev d dt r = ground arith

  limit-Keeps : (ev : Vector3 F) (b : Bool) (r : Rocket F) → Keeps r (apply_speed_limit ev b r)
  unfolding apply_speed_limit
  limit-Keeps ev b r = ground arith

  earth-Keeps : (ep ev : Vector3 F) (r : Rocket F) → Keeps r (collide_with_earth ep ev r)
  unfolding collide_with_earth
  earth-Keeps ep ev r = ground arith

  sun-Keeps : (r : Rocket F) → Keeps r (collide_with_sun r)
  unfolding collide_with_sun
  sun-Keeps r = ground arith

  orbit-Keeps : (ep : Vector3 F) (b : Bool) (r : Rocket F) → Keeps r (update_orbital_params ep b r)
  unfolding update_orbital_params set_in_orbit
  orbit-Keeps ep b r = ground arith

  log-Keeps : (now : ℕ) (r : Rocket F) → Keeps r (log_rocket_tick now r)
  unfolding log_rocket_tick
  log-Keeps now r = ground arith

  accelerate-IsFuelled :
      (dt : F) (g : Vector3 F) (r : Rocket F) → IsFuelled r → IsFuelled (accelerate dt g r)
  unfolding accelerate
  accelerate-IsFuelled dt g r h = consume_thrust-IsFuelled dt r h

  -- The phases one after the other.
  tick_piloted_rocket-IsFuelled :
      (now : ℕ) (ep ev : Vector3 F) (dt : F) (r : Rocket F)
      → IsFuelled r
      → IsFuelled (tick_piloted_rocket now ep ev dt r)
  unfolding tick_piloted_rocket move_rocket update_rocket_frame
  tick_piloted_rocket-IsFuelled now ep ev dt r h =
      let rel_pos = sub_vector r.at ep in
      let rel_vel = sub_vector r.vel ev in
      let dist_earth = norm rel_pos in
      let from_sun = sub_vector r.at sun_pos in
      let is_earth = flt dist_earth soi_earth in
      let r0 = apply_autopilot rel_pos rel_vel dist_earth r in
      let r1 = steer_up_toward_target dt r0 in
      let g = gravity_accel rel_pos dist_earth (norm from_sun) is_earth from_sun in
      let r2 = accelerate dt g r1 in
      let r3 : Rocket F = if is_earth then apply_atmospheric_drag ev dist_earth dt r2 else r2 in
      let r4 = move_rocket dt (apply_speed_limit ev is_earth r3) in
      let r5 : Rocket F = if is_earth then collide_with_earth ep ev r4 else r4 in
      let r6 = collide_with_sun (update_rocket_frame ep is_earth (norm from_sun) r5) in
      let r7 = update_orbital_params ep is_earth r6 in
      let h0 = Keeps-IsFuelled r r0 (apply_autopilot-Keeps rel_pos rel_vel dist_earth r) h in
      let h1 = Keeps-IsFuelled r0 r1 (steer_up-Keeps dt r0) h0 in
      let h2 = accelerate-IsFuelled dt g r1 h1 in
      let q3 = apply_atmospheric_drag ev dist_earth dt r2 in
      let h3 =
        if-IsFuelled is_earth r2 q3 h2
          (Keeps-IsFuelled r2 q3 (drag-Keeps ev dist_earth dt r2) h2) in
      let q4 = apply_speed_limit ev is_earth r3 in
      let h4 : IsFuelled r4 = Keeps-IsFuelled r3 q4 (limit-Keeps ev is_earth r3) h3 in
      let q5 = collide_with_earth ep ev r4 in
      let h5 = if-IsFuelled is_earth r4 q5 h4 (Keeps-IsFuelled r4 q5 (earth-Keeps ep ev r4) h4) in
      let q6 = update_rocket_frame ep is_earth (norm from_sun) r5 in
      let h6 = Keeps-IsFuelled q6 r6 (sun-Keeps q6) h5 in
      let h7 = Keeps-IsFuelled r6 r7 (orbit-Keeps ep is_earth r6) h6 in
      Keeps-IsFuelled r7 (log_rocket_tick now r7) (log-Keeps now r7) h7

  tick_rocket-IsFuelled :
      (now : ℕ) (ep ev : Vector3 F) (dt : F) (r : Rocket F)
      → IsFuelled r
      → IsFuelled (tick_rocket now ep ev dt r)
  unfolding tick_rocket
  tick_rocket-IsFuelled now ep ev dt r h =
      if-IsFuelled (not r.piloted) (tick_piloted_rocket now ep ev dt r) (tick_free_rocket ep ev r)
        (tick_piloted_rocket-IsFuelled now ep ev dt r h)
        (Keeps-IsFuelled r (tick_free_rocket ep ev r) (tick_free_rocket-Keeps ep ev r) h)

  pub tick_all-IsFuelled :
      (now : ℕ) (ep ev : Vector3 F) (dt : F) (m : Map (Rocket F))
      → AllValues IsFuelled m
      → AllValues IsFuelled (map_values (tick_rocket now ep ev dt) m)
  unfolding map_values
  tick_all-IsFuelled now ep ev dt [] h = tt
  tick_all-IsFuelled now ep ev dt ((k, r) ∷ m) h =
      (tick_rocket-IsFuelled now ep ev dt r h.0, tick_all-IsFuelled now ep ev dt m h.1)

  pub steer-IsFuelled :
      (p : RocketInput F) (endless : Bool) (r : Rocket F)
      → IsFuelled r
      → IsFuelled (steer p endless r)
  unfolding steer
  steer-IsFuelled p endless r h = ground arith

  pub place-IsFuelled :
      (id : String) (p : Vector3 F) (s : Server F) (c : Client F)
      → AllValues IsFuelled s.rockets
      → AllValues IsFuelled (handle_place_rocket id p s c).0.rockets
  unfolding handle_place_rocket new_rocket
  place-IsFuelled id p s c h = elim (Option-cases (consume_item "rocket" c)) [
    | inl e ↦ rw (e, handle_place_rocket) h
    | inr (d, e) ↦
        let lp : Vector3 F = clamp_to_surface p in
        let new = new_rocket id lp (norm lp) s.world.earth_pos s.world.earth_vel in
        let full : IsFuelled new = ground arith in
        elim (Bool-cases (flt (norm lp) (lit 1 2))) [
          | inl tiny ↦ rw (e, tiny, handle_place_rocket) h
          | inr far ↦
              rw (e, far, handle_place_rocket) (insert-AllValues IsFuelled id new s.rockets h full)
        ]
  ]

  pub board-IsFuelled :
      (id : String) (o : Option (Rocket F)) (s : Server F) (c : Client F)
      → lookup id s.rockets ≡ o
      → AllValues IsFuelled s.rockets
      → AllValues IsFuelled (board_rocket id o s c).rockets
  unfolding board_rocket
  board-IsFuelled id none s c e h = h
  board-IsFuelled id (some r) s c e h =
      let q : Rocket F = record r { piloted = true; owner_id = c.id } in
      let fuelled : IsFuelled q = lookup-AllValues IsFuelled id r s.rockets h e in
      ground (arith, h, insert-AllValues IsFuelled id q s.rockets h fuelled)
