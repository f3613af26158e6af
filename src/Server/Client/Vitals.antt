-- ===== src/Server/Client/Vitals.antt =====
-- Hunger stays in its range.
use lodeen.Base.{◌≡◌, false, arith}
use lodeen.Base.Float.{Float, HasOrderedConstants, num, flt}
use lodeen.Server.Client.{add_hunger}
use lodeen.Server.State.{Client}

module _ {F : Type 0} ⦃fl : Float F⦄ where
  -- Hunger is neither above 100 nor below 0 after every change.
  pub add_hunger-range :
      HasOrderedConstants F
      → (delta : F) (c : Client F)
      → (flt (num 100) (add_hunger delta c).hunger ≡ false)
        × (flt (add_hunger delta c).hunger (num 0) ≡ false)
  unfolding add_hunger
  add_hunger-range laws delta c = ground (
    arith,
    laws.num_order 100 100 (omega arith),
    laws.num_order 0 100 (omega arith),
    laws.num_order 0 0 (omega arith),
  )
