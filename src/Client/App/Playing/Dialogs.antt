-- ===== src/Client/App/Playing/Dialogs.antt =====
-- What a frame does while the dialog of a contract or of a factory is open.
use mathlib.Core.Path.{subst}
use lodeen.Base.Float.{Float}
use lodeen.Base.{
  ℕ, Bool, true, false, ◌||◌, Option, none, some, ◌≡◌, refl, sym, ◌∙◌, arith, ◌==◌, eq_refl,
  if◌then◌else◌,
}
use lodeen.Client.App.Frames.{sync_flight_bodies, hold, apply_ui_lock}
use lodeen.Client.App.Overlays.{
  Pressed, is_too_soon, update_contract, update_factory, update_dialog_overlays,
}
use lodeen.Client.App.Pilot.{update_rocket_mode}
use lodeen.Client.App.Playing.{FrameInputs, proceed, pass_windows, update_playing}
use lodeen.Client.App.Slots.{sync_inv_slots}
use lodeen.Client.App.State.{App}
use lodeen.Client.Input.{Raylib}

module _ {F Q : Type 0} where
  -- The same client and the same dialogs.
  pub record Alike (a b : App F Q) : Type 0 where
    pub nc : b.nc ≡ a.nc
    pub contract : b.show_contract ≡ a.show_contract
    pub factory : b.show_factory ≡ a.show_factory

  if-Alike :
      (test : Bool) (a b c : App F Q) → Alike a b → Alike a c → Alike a (if test then b else c)
  if-Alike true a b c h k = h
  if-Alike false a b c h k = k

  maybe-Alike :
      {A : Type 0} (o : Option A) (a b : App F Q) (s : A → App F Q)
      → Alike a b
      → ((x : A) → Alike a (s x))
      → Alike a (elim o [ none ↦ b | some x ↦ s x ])
  maybe-Alike none a b s h k = h
  maybe-Alike (some x) a b s h k = k x

  Alike-trans : (a b c : App F Q) → Alike a b → Alike b c → Alike a c
  Alike-trans a b c h k = record {
    nc = k.nc ∙ h.nc;
    contract = k.contract ∙ h.contract;
    factory = k.factory ∙ h.factory;
  }

  -- Only the client is the same.
  pub record Silent (a b : App F Q) : Type 0 where
    pub same : b.nc ≡ a.nc

  if-Silent :
      (test : Bool) (a b c : App F Q) → Silent a b → Silent a c → Silent a (if test then b else c)
  if-Silent true a b c h k = h
  if-Silent false a b c h k = k

  update_contract-Silent :
      (now : ℕ) (pressed : Pressed) (a : App F Q) → Silent a (update_contract now pressed a)
  unfolding update_contract
  update_contract-Silent now pressed a =
      if-Silent (is_too_soon now a.contract_opened_at) a a _ (record { same = refl })
        (if-Silent pressed.escape a _ a (record { same = refl }) (record { same = refl }))

  update_factory-Silent :
      (now : ℕ) (pressed : Pressed) (a : App F Q) → Silent a (update_factory now pressed a)
  unfolding update_factory
  update_factory-Silent now pressed a =
      if-Silent (is_too_soon now a.factory_opened_at) a a _ (record { same = refl })
        (if-Silent pressed.escape a _ a (record { same = refl }) (record { same = refl }))

  -- The frame ends with the dialog.
  ends-Silent :
      (contract factory : Bool) (a b c : App F Q) (rest : App F Q → App F Q)
      → (contract || factory) ≡ true
      → Silent a b
      → Silent a c
      → Silent a
          (proceed (if contract then (b, true) else if factory then (c, true) else (a, false)) rest)
  unfolding proceed
  ends-Silent true factory a b c rest shown h k = h
  ends-Silent false true a b c rest shown h k = k
  ends-Silent false false a b c rest shown h k = ground arith

  dialog-Silent :
      (now : ℕ) (pressed : Pressed) (a : App F Q) (rest : App F Q → App F Q)
      → (a.show_contract || a.show_factory) ≡ true
      → Silent a (proceed (update_dialog_overlays now pressed a) rest)
  unfolding update_dialog_overlays
  dialog-Silent now pressed a rest shown =
      ends-Silent a.show_contract a.show_factory a _ _ rest shown
        (update_contract-Silent now pressed a) (update_factory-Silent now pressed a)

  Silent-Alike : (a b c : App F Q) → Alike a b → Silent b c → Silent a c
  Silent-Alike a b c h k = record { same = k.same ∙ h.nc }

  maybe-passes :
      {A : Type 0} (o : Option A) (test : Bool) (a : App F Q) (s : A → App F Q × Bool)
      → test ≡ true
      → elim o as (λ _. App F Q × Bool) [
        | none ↦ (a, false)
        | some x ↦ if test then (a, false) else s x
      ]
        ≡ (a, false)
  maybe-passes none test a s e = refl
  maybe-passes (some x) true a s e = refl
  maybe-passes (some x) false a s e = ground arith

  proceed-Silent :
      (r : App F Q × Bool) (a b : App F Q) (rest : App F Q → App F Q)
      → r ≡ (b, false)
      → Silent a (rest b)
      → Silent a (proceed r rest)
  unfolding proceed
  proceed-Silent r a b rest e h = subst (λ r. Silent a (proceed r rest)) (sym e) h

module _ {F : Type 0} ⦃fl : Float F⦄ ⦃rl : Raylib F⦄ where
  sync_flight_bodies-Alike : (dt : F) (a : App F rl.Quaternion) → Alike a (sync_flight_bodies dt a)
  unfolding sync_flight_bodies
  sync_flight_bodies-Alike dt a =
      maybe-Alike a.flight a a _ (record { nc = refl; contract = refl; factory = refl })
        (λ f. record { nc = refl; contract = refl; factory = refl })

  apply_ui_lock-Alike :
      (chat_open : Bool) (a : App F rl.Quaternion) → Alike a (apply_ui_lock chat_open a)
  unfolding apply_ui_lock hold
  apply_ui_lock-Alike chat_open a =
      let any_ui =
        a.show_inventory || a.show_craft || a.show_contract || a.show_factory || chat_open in
      let freed : App F rl.Quaternion = record a { flight_locked = false } in
      let same : Alike a freed = record { nc = refl; contract = refl; factory = refl } in
      maybe-Alike a.flight a freed (λ f. if any_ui then hold f a else freed) same
        (λ f.
          if-Alike any_ui a (hold f a) freed (record { nc = refl; contract = refl; factory = refl })
            same)

  -- Who sits in no rocket passes by the seat.
  update_rocket_mode-passes :
      (i : FrameInputs F) (a : App F rl.Quaternion)
      → a.rocket_id ≡ ""
      → update_rocket_mode i.written i.now i.dt i.mouse i.seat a ≡ (a, false)
  unfolding update_rocket_mode
  update_rocket_mode-passes i a e =
      maybe-passes a.flight (a.rocket_id == "") a _ (rw e (eq_refl ""))

  -- While the dialog of a contract or of a factory is open and the player sits in no rocket,
  -- `updatePlaying` changes nothing of the network's client: it sends nothing, and the position that
  -- the state loop reports stays as it was, whatever is pressed. The dialog's own buttons are handled
  -- by its drawing, which is no part of `updatePlaying`.
  pub update_playing-Silent :
      (i : FrameInputs F) (a : App F rl.Quaternion)
      → a.rocket_id ≡ ""
      → (a.show_contract || a.show_factory) ≡ true
      → Silent a (update_playing i a)
  unfolding update_playing pass_windows
  update_playing-Silent i a e shown =
      let sorted : App F rl.Quaternion = record a {
        inv_slots = sync_inv_slots a.nc.inventory a.inv_slots;
      } in
      let moved = sync_flight_bodies i.dt sorted in
      let held = apply_ui_lock moved.chat.is_open moved in
      let alike : Alike a held =
        Alike-trans a moved held
          (Alike-trans a sorted moved (record { nc = refl; contract = refl; factory = refl })
            (sync_flight_bodies-Alike i.dt sorted))
          (apply_ui_lock-Alike moved.chat.is_open moved) in
      let open_dialog : (held.show_contract || held.show_factory) ≡ true =
        rw (alike.contract, alike.factory) shown in
      proceed-Silent _ a sorted _ (update_rocket_mode-passes i sorted e)
        (Silent-Alike a held _ alike (dialog-Silent i.now i.pressed held _ open_dialog))
