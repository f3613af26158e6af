-- ===== src/Server/Mammoths/Taming.antt =====
-- A mammoth is tamed for a fruit, and the rollback leaves nothing behind.
use lodeen.Base.{◌≡◌, refl, String, true, false, arith, eq_iff, Option-cases, inl, inr}
use lodeen.Base.Int.{pos, ◌≤ℤ◌}
use lodeen.Base.Map.{lookup, insert, lookup-insert}
use lodeen.Base.Float.{Float}
use lodeen.Server.State.{Client, Server}
use lodeen.Server.Client.{quantity}
use lodeen.Server.Client.Inventory.{consume_item-none}
use lodeen.Server.Mammoths.{put_mammoth, tame, handle_tame_mammoth}

module _ {F : Type 0} ⦃fl : Float F⦄ where
  -- Without a fruit, taming changes no mammoth and not the client: the mammoth that was tamed for
  -- the time being is as wild as before.
  pub handle_tame_mammoth-refused :
      (id j : String) (s : Server F) (c : Client F)
      → quantity "fruit" c.inventory ≤ℤ pos 0
      → (lookup j (handle_tame_mammoth id s c).0.mammoths ≡ lookup j s.mammoths)
        × ((handle_tame_mammoth id s c).1 ≡ c)
  unfolding handle_tame_mammoth tame put_mammoth
  handle_tame_mammoth-refused id j s c q =
      let poor = consume_item-none "fruit" c q in
      elim (Option-cases (lookup id s.mammoths)) [
        | inl e ↦ rw (e) (refl, refl)
        | inr (m, e) ↦ ground (
          arith,
          e,
          poor,
          eq_iff id j,
          eq_iff id id,
          lookup-insert id j (record m { tamed = true }) s.mammoths,
          lookup-insert id j (record m { tamed = false })
              (insert id (record m { tamed = true }) s.mammoths),
        )
      ]
