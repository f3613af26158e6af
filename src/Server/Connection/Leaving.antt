-- ===== src/Server/Connection/Leaving.antt =====
-- What a client leaves behind when its connection ends.
use lodeen.Base.{◌≡◌, ◌≢◌, ap, ◌∙◌, String, [], ◌∷◌, none, some, arith, eq_iff}
use mathlib.Core.Option
use lodeen.Base.Map.{Map, AllValues, lookup, lookup-erase, map_values, lookup-map_values}
use lodeen.Base.Float.{Float}
use lodeen.Server.State.{Server, Rocket}
use lodeen.Server.Connection.{release_rocket, unregister_client}

module _ {F : Type 0} ⦃fl : Float F⦄ where
  abbrev pub IsNotOwnedBy : String → Rocket F → Type 0
  IsNotOwnedBy id r = r.owner_id ≢ id

  release_rocket-IsNotOwnedBy :
      (id : String) (r : Rocket F) → id ≢ "" → IsNotOwnedBy id (release_rocket id r)
  unfolding release_rocket
  release_rocket-IsNotOwnedBy id r ne = ground (arith, eq_iff r.owner_id id)

  released :
      (id : String) (m : Map (Rocket F))
      → id ≢ ""
      → AllValues (IsNotOwnedBy id) (map_values (release_rocket id) m)
  unfolding map_values
  released id [] ne = tt
  released id ((k, r) ∷ m) ne = (release_rocket-IsNotOwnedBy id r ne, released id m ne)

  release_rocket-other : (id : String) (r : Rocket F) → r.owner_id ≢ id → release_rocket id r ≡ r
  unfolding release_rocket
  release_rocket-other id r ne = ground (arith, eq_iff r.owner_id id)

  -- After a client has left it is not in the registry, and no rocket names it as its owner.
  pub unregister_client-releases :
      (id : String) (s : Server F)
      → id ≢ ""
      → (lookup id (unregister_client id s).clients ≡ none)
        × AllValues (IsNotOwnedBy id) (unregister_client id s).rockets
  unfolding unregister_client
  unregister_client-releases id s ne =
      (ground (arith, lookup-erase id id s.clients, eq_iff id id), released id s.rockets ne)

  -- The rocket of anybody else does not change when a client leaves.
  pub unregister_client-other :
      (id k : String) (r : Rocket F) (s : Server F)
      → lookup k s.rockets ≡ some r
      → r.owner_id ≢ id
      → lookup k (unregister_client id s).rockets ≡ some r
  unfolding unregister_client
  unregister_client-other id k r s e other =
      lookup-map_values (release_rocket id) k s.rockets
      ∙ ap (Option.map (release_rocket id)) e
      ∙ ap some (release_rocket-other id r other)
