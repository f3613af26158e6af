-- ===== src/Client/Input/Laws.antt =====
-- What the camera and the body have to do with each other.
use mathlib.Core.Path.{subst}
use lodeen.Base.Float.{Float}
use lodeen.Base.{◌≡◌, sym, ap, ◌∙◌, arith, true}
use lodeen.Client.Input.{Raylib, Vector2, Keys, FlightController, creative, survival}
use lodeen.Protocol.Geometry.{Vector3}
use lodeen.Client.Input.Survival.{
  update_survival_look, update_survival, survival_up, commit, parallel_transport,
  project_to_tangent, init_rel_if_needed, sync_to_earth_frame, compute_survival_geom, walk_velocity,
  apply_walk_input, walk,
}
use lodeen.Client.Input.Flight.{update, switch_mode, land, take_off, update_in}

module _ {F : Type 0} ⦃fl : Float F⦄ ⦃rl : Raylib F⦄ where
  parallel_transport-pitch :
      (old_pos new_pos : Vector3 F) (p : F) (f : FlightController F rl.Quaternion)
      → parallel_transport old_pos new_pos (record f { pitch = p })
        ≡ record (parallel_transport old_pos new_pos f) { pitch = p }
  unfolding parallel_transport
  parallel_transport-pitch old_pos new_pos p f = ground arith

  commit-pitch :
      (old_pos rel rel_vel : Vector3 F) (p : F) (f : FlightController F rl.Quaternion)
      → commit old_pos rel rel_vel (record f { pitch = p })
        ≡ record (commit old_pos rel rel_vel f) { pitch = p }
  unfolding commit project_to_tangent survival_up parallel_transport
  commit-pitch old_pos rel rel_vel p f = ground arith

  init_rel_if_needed-pitch :
      (p : F) (f : FlightController F rl.Quaternion)
      → init_rel_if_needed (record f { pitch = p }) ≡ record (init_rel_if_needed f) { pitch = p }
  unfolding init_rel_if_needed
  init_rel_if_needed-pitch p f = ground arith

  walk-pitch :
      (dt p : F) (keys : Keys F) (old_pos : Vector3 F) (f : FlightController F rl.Quaternion)
      → walk dt keys old_pos (record f { pitch = p })
        ≡ record (walk dt keys old_pos f) { pitch = p }
  unfolding walk compute_survival_geom walk_velocity apply_walk_input
  walk-pitch dt p keys old_pos f = commit-pitch old_pos _ _ p f

  -- The pitch of the camera has no influence on the walk: with another pitch, a frame of walking
  -- ends in the same state but for that pitch, whatever the keys and the place.
  pub update_survival-pitch :
      (dt p : F) (keys : Keys F) (f : FlightController F rl.Quaternion)
      → update_survival dt keys (record f { pitch = p })
        ≡ record (update_survival dt keys f) { pitch = p }
  unfolding update_survival
  update_survival-pitch dt p keys f =
      ap (walk dt keys f.at) (init_rel_if_needed-pitch p f)
      ∙ walk-pitch dt p keys f.at (init_rel_if_needed f)

  -- The place and the velocity are those of the planet plus those in its frame.
  pub record IsInFrame (f : FlightController F rl.Quaternion) : Type 0 where
    pub walking : f.mode ≡ survival
    pub started : f.rel_init ≡ true
    pub placed : f.at ≡ rl.add f.earth_pos f.rel_pos
    pub moving : f.vel ≡ rl.add f.earth_vel f.rel_vel

  commit-IsInFrame :
      (old_pos rel rel_vel : Vector3 F) (f : FlightController F rl.Quaternion)
      → f.mode ≡ survival
      → f.rel_init ≡ true
      → IsInFrame (commit old_pos rel rel_vel f)
  unfolding commit parallel_transport project_to_tangent
  commit-IsInFrame old_pos rel rel_vel f m r = record {
    walking = ground arith;
    started = ground arith;
    placed = ground arith;
    moving = ground arith;
  }

  init_rel_if_needed-rel_init :
      (f : FlightController F rl.Quaternion)
      → ((init_rel_if_needed f).rel_init ≡ true) × ((init_rel_if_needed f).mode ≡ f.mode)
  unfolding init_rel_if_needed
  init_rel_if_needed-rel_init f = ground arith

  update_survival-IsInFrame :
      (dt : F) (keys : Keys F) (f : FlightController F rl.Quaternion)
      → f.mode ≡ survival
      → IsInFrame (update_survival dt keys f)
  unfolding update_survival walk
  update_survival-IsInFrame dt keys f m =
      let ready = init_rel_if_needed-rel_init f in
      commit-IsInFrame f.at _ _ (init_rel_if_needed f) (ready.1 ∙ m) (ready.0)

  sync_to_earth_frame-IsInFrame :
      (dt : F) (f : FlightController F rl.Quaternion)
      → f.mode ≡ survival
      → f.rel_init ≡ true
      → IsInFrame (sync_to_earth_frame dt f) × ((sync_to_earth_frame dt f).rel_pos ≡ f.rel_pos)
  unfolding sync_to_earth_frame
  sync_to_earth_frame-IsInFrame dt f m r = (
    record {
      walking = ground arith;
      started = ground arith;
      placed = ground arith;
      moving = ground arith;
    },
    ground arith,
  )

  update-survival :
      (dt : F) (mouse : Vector2 F) (keys : Keys F) (f : FlightController F rl.Quaternion)
      → f.mode ≡ survival
      → update dt mouse keys f ≡ update_survival dt keys (update_survival_look mouse f)
  unfolding update update_in
  update-survival dt mouse keys f m = ap (λ mode. update_in mode dt mouse keys f) m

  -- A walking body is carried by the planet: after a frame of walking its place and velocity are
  -- those of the planet plus those in the planet's frame, and when the planet has moved on, the
  -- synchronisation puts it there again and leaves the planet's frame as it was.
  pub update-IsInFrame :
      (dt later : F) (mouse : Vector2 F) (keys : Keys F) (f : FlightController F rl.Quaternion)
      (e v : Vector3 F)
      → f.mode ≡ survival
      → IsInFrame (update dt mouse keys f)
        × IsInFrame (
            sync_to_earth_frame later
              (record (update dt mouse keys f) { earth_pos = e; earth_vel = v }))
        × ((sync_to_earth_frame later
              (record (update dt mouse keys f) { earth_pos = e; earth_vel = v })).rel_pos
            ≡ (update dt mouse keys f).rel_pos)
  unfolding update_survival_look
  update-IsInFrame dt later mouse keys f e v m =
      let framed =
        subst IsInFrame (sym (update-survival dt mouse keys f m))
          (update_survival-IsInFrame dt keys (update_survival_look mouse f) m) in
      let moved : FlightController F rl.Quaternion = record (update dt mouse keys f) {
        earth_pos = e;
        earth_vel = v;
      } in
      let synced = sync_to_earth_frame-IsInFrame later moved framed.walking framed.started in
      (framed, synced.0, synced.1)

  -- From walking to free flight and back at once: where the subtraction undoes the addition without
  -- rounding, the place and the velocity in the planet's frame are as they were.
  pub switch_mode-back :
      (f : FlightController F rl.Quaternion)
      → f.mode ≡ survival
      → f.rel_init ≡ true
      → rl.subtract (rl.add f.earth_pos f.rel_pos) f.earth_pos ≡ f.rel_pos
      → rl.subtract (rl.add f.earth_vel f.rel_vel) f.earth_vel ≡ f.rel_vel
      → ((switch_mode survival (switch_mode creative f)).rel_pos ≡ f.rel_pos)
        × ((switch_mode survival (switch_mode creative f)).rel_vel ≡ f.rel_vel)
        × ((switch_mode survival (switch_mode creative f)).at ≡ rl.add f.earth_pos f.rel_pos)
        × ((switch_mode survival (switch_mode creative f)).mode ≡ survival)
  unfolding switch_mode land take_off
  switch_mode-back f m r exact_pos exact_vel = ground arith
