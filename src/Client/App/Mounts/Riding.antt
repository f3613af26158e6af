-- ===== src/Client/App/Mounts/Riding.antt =====
-- Riding, the boat, and the item in the hand: what the client holds and what it has told the server.
use mathlib.Core.Path.{subst}
use lodeen.Base.Float.{Float}
use lodeen.Base.{
  ◌≡◌, refl, sym, ap, arith, String, Bool, true, false, not, ◌||◌, Option, none, some, ◌==◌, eq_iff,
  if◌then◌else◌,
}
use lodeen.Client.App.Mounts.{mount_nearby, press_mount, handle_mount_key, sync_held_item}
use lodeen.Client.App.Sight.{boat_nearby, saddled_mammoth_nearby}
use lodeen.Client.App.Slots.{held_item}
use lodeen.Client.App.State.{App, gaze}
use lodeen.Client.Input.{Raylib, FlightController}

module _ {F : Type 0} ⦃fl : Float F⦄ ⦃rl : Raylib F⦄ where
  -- The controller rides or sits in a boat just when the game has a mammoth or a boat for it, and
  -- never both.
  pub record RidesAs (f : FlightController F rl.Quaternion) (mammoth boat : String) : Type 0 where
    pub rides : f.riding ≡ not (mammoth == "")
    pub sits : f.in_boat ≡ not (boat == "")
    pub one : (mammoth == "" || boat == "") ≡ true

  abbrev pub IsMounted : App F rl.Quaternion → Type 0
  IsMounted a = elim a.flight [ none ↦ Unit {0} | some f ↦ RidesAs f a.riding_id a.boat_id ]

  RidesAs-ride :
      (f : FlightController F rl.Quaternion) (mammoth old boat : String)
      → (mammoth == "") ≡ false
      → (boat == "") ≡ true
      → RidesAs f old boat
      → RidesAs (record f { riding = true }) mammoth boat
  RidesAs-ride f mammoth old boat h k v = record {
    rides = rw h refl;
    sits = v.sits;
    one = rw k (ground arith);
  }

  RidesAs-sit :
      (f : FlightController F rl.Quaternion) (mammoth boat old : String)
      → (boat == "") ≡ false
      → (mammoth == "") ≡ true
      → RidesAs f mammoth old
      → RidesAs (record f { in_boat = true }) mammoth boat
  RidesAs-sit f mammoth boat old h k v = record {
    rides = v.rides;
    sits = rw h refl;
    one = rw k refl;
  }

  RidesAs-off :
      (f : FlightController F rl.Quaternion) (mammoth boat : String)
      → RidesAs f mammoth boat
      → RidesAs (record f { riding = false }) "" boat
  RidesAs-off f mammoth boat v = record { rides = refl; sits = v.sits; one = refl }

  RidesAs-out :
      (f : FlightController F rl.Quaternion) (mammoth boat : String)
      → (mammoth == "") ≡ true
      → RidesAs f mammoth boat
      → RidesAs (record f { in_boat = false }) mammoth ""
  RidesAs-out f mammoth boat h v = record { rides = v.rides; sits = refl; one = rw h refl }

  if-IsMounted :
      (test : Bool) (a b : App F rl.Quaternion)
      → (test ≡ true → IsMounted a)
      → (test ≡ false → IsMounted b)
      → IsMounted (if test then a else b)
  if-IsMounted true a b h k = h refl
  if-IsMounted false a b h k = k refl

  press_mount-IsMounted :
      (written : Bool) (f : FlightController F rl.Quaternion) (a : App F rl.Quaternion)
      → RidesAs f a.riding_id a.boat_id
      → IsMounted a
      → IsMounted (press_mount written f a)
  unfolding press_mount mount_nearby
  press_mount-IsMounted written f a v m =
      if-IsMounted (not (a.riding_id == "")) _ _ (λ riding. RidesAs-off f a.riding_id a.boat_id v)
        (λ walking.
          if-IsMounted (not (a.boat_id == "")) _ _
            (λ sitting. RidesAs-out f a.riding_id a.boat_id (ground arith) v)
            (λ standing.
              if-IsMounted (not (saddled_mammoth_nearby (gaze a f) a.nc == "")) _ _
                (λ mammoth. RidesAs-ride f _ a.riding_id a.boat_id (ground arith) (ground arith) v)
                (λ none_near.
                  if-IsMounted (not (boat_nearby (gaze a f) a.nc == "")) _ _
                    (λ boat. RidesAs-sit f a.riding_id _ a.boat_id (ground arith) (ground arith) v)
                    (λ nothing. m))))

  IsMounted-RidesAs :
      (f : FlightController F rl.Quaternion) (a : App F rl.Quaternion)
      → a.flight ≡ some f
      → IsMounted a
      → RidesAs f a.riding_id a.boat_id
  IsMounted-RidesAs f a e m =
      subst
        (λ (o : Option (FlightController F rl.Quaternion)). elim o as (λ _. Type 0) [
          | none ↦ Unit {0}
          | some g ↦ RidesAs g a.riding_id a.boat_id
        ])
        e m

  pressed_key :
      (pressed written : Bool) (f : FlightController F rl.Quaternion) (a : App F rl.Quaternion)
      → a.flight ≡ some f
      → handle_mount_key pressed written a ≡ (if pressed then press_mount written f a else a)
  unfolding handle_mount_key
  pressed_key pressed written f a e =
      ap
        (λ (o : Option (FlightController F rl.Quaternion)). elim o as (λ _. App F rl.Quaternion) [
          | none ↦ a
          | some g ↦ if pressed then press_mount written g a else a
        ])
        e

  -- With a flight controller: if it rides or sits just as the game's mammoth and boat say, and not
  -- both, so it does after the key E, whatever is near and whether or not the frame is written.
  pub handle_mount_key-IsMounted :
      (pressed written : Bool) (f : FlightController F rl.Quaternion) (a : App F rl.Quaternion)
      → a.flight ≡ some f
      → IsMounted a
      → IsMounted (handle_mount_key pressed written a)
  handle_mount_key-IsMounted true written f a e m =
      subst IsMounted (sym (pressed_key true written f a e))
        (press_mount-IsMounted written f a (IsMounted-RidesAs f a e m) m)
  handle_mount_key-IsMounted false written f a e m =
      subst IsMounted (sym (pressed_key false written f a e)) m

  -- The server is told of the item in the hand once: after the synchronisation the item told last is
  -- the one in the hand, and to synchronise again changes nothing and writes nothing.
  pub sync_held_item_twice :
      (written again : Bool) (a : App F rl.Quaternion)
      → ((sync_held_item written a).last_sent_held ≡ held_item a.selected_slot a.inv_slots)
        × (sync_held_item again (sync_held_item written a) ≡ sync_held_item written a)
  unfolding sync_held_item
  sync_held_item_twice written again a = ground (
    arith,
    eq_iff (held_item a.selected_slot a.inv_slots) a.last_sent_held,
    eq_iff (held_item a.selected_slot a.inv_slots) (held_item a.selected_slot a.inv_slots),
  )
