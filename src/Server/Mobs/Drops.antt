-- ===== src/Server/Mobs/Drops.antt =====
-- What a collector carried lies on the ground when it dies, item for item.
use lodeen.Base.{
  ℕ, zero, suc, ◌+◌, ◌≤◌, ◌≡◌, ◌≢◌, refl, String, false, [], ◌∷◌, none, some, arith, eq_iff, ◌==◌,
  if◌then◌else◌,
}
use mathlib.Core.Path.{subst}
use lodeen.Base.Int.{ℤ, pos, pos_part, int_sub-pos}
use lodeen.Base.Map.{Map, lookup, insert, lookup-insert, erase, lookup-erase, IsMap}
use lodeen.Base.Float.{Float, lit}
use lodeen.Protocol.Geometry.{Vector3, is_beyond}
use lodeen.Protocol.Messages.{Resource}
use lodeen.Server.State.{Client, Server, Mob}
use lodeen.Server.Client.{quantity, state_of}
use lodeen.Server.Client.Inventory.{consume_item-some}
use lodeen.Server.Crafting.Exchange.{stock, quantity-cons}
use lodeen.Server.Farm.{lying}
use lodeen.Server.Mobs.{
  Fresh, KillDrop, scattered_around, spawn_items, spawn_collector_drop, spawn_drop, apply_hit_mob,
  handle_hit_mob,
}

quantity-missing : (k : String) (m : Map ℤ) → lookup k m ≡ none → quantity k m ≡ pos 0
unfolding quantity
quantity-missing k m e = ground (arith, e)

stock-nil : (k : String) → stock k [] ≡ 0
unfolding quantity lookup
stock-nil k = refl

spawned :
    (other kind : String) (n before one all : ℕ)
    → one ≡ before + (if kind == other then 1 else 0)
    → all ≡ one + (if kind == other then n else 0)
    → all ≡ before + (if kind == other then suc n else 0)
spawned other kind n before one all p q = ground (arith, p, q)

module _ {F : Type 0} where
  -- How many things of a kind lie on the ground.
  unfoldable pub count_kind : String → Map (Resource F) → ℕ
  count_kind kind [] = 0
  count_kind kind ((_, r) ∷ m) =
      let rest = count_kind kind m in if r.kind == kind then suc rest else rest

  -- From the number `i` on, the identifiers stand nowhere on the ground and differ.
  pub record IsFresh (fresh : ℕ → Fresh F) (i : ℕ) (m : Map (Resource F)) : Type 0 where
    pub unused : (j : ℕ) → i ≤ j → lookup (fresh j).id m ≡ none
    pub different : (j k : ℕ) → j ≢ k → (fresh j).id ≢ (fresh k).id

  count_kind-insert :
      (kind id : String) (r : Resource F) (m : Map (Resource F))
      → lookup id m ≡ none
      → count_kind kind (insert id r m) ≡ count_kind kind m + (if r.kind == kind then 1 else 0)
  unfolding count_kind insert lookup
  count_kind-insert kind id r [] e = ground arith
  count_kind-insert kind id r ((j, a) ∷ m) e =
      ground (arith, e, count_kind-insert kind id r m, eq_iff j id)

  insert-IsFresh :
      (fresh : ℕ → Fresh F) (i : ℕ) (r : Resource F) (m : Map (Resource F))
      → IsFresh fresh i m
      → IsFresh fresh (i + 1) (insert (fresh i).id r m)
  insert-IsFresh fresh i r m h = record {
    unused = λ j le. ground (
      arith,
      lookup-insert (fresh i).id (fresh j).id r m,
      eq_iff (fresh i).id (fresh j).id,
      h.unused j (omega (arith, le)),
      h.different i j (λ e. omega (arith, e, le)),
    );
    different = h.different;
  }

module _ {F : Type 0} ⦃fl : Float F⦄ where
  spawn_items-count :
      (fresh : ℕ → Fresh F) (kind other : String) (p : Vector3 F) (r : F) (n i : ℕ)
      (m : Map (Resource F))
      → IsFresh fresh i m
      → IsFresh fresh (i + n) (spawn_items fresh kind p r n i m)
        × (count_kind other (spawn_items fresh kind p r n i m)
            ≡ count_kind other m + (if kind == other then n else 0))
  unfolding spawn_items
  spawn_items-count fresh kind other p r zero i m h =
      let same : i ≡ i + 0 = omega arith in (subst (λ x. IsFresh fresh x m) same h, ground arith)
  spawn_items-count fresh kind other p r (suc n) i m h =
      let f = fresh i in
      let a = lying f.id kind (scattered_around p r f.angle f.radius) in
      let rest =
        spawn_items-count fresh kind other p r n (i + 1) (insert f.id a m)
          (insert-IsFresh fresh i a m h) in
      let same : i + 1 + n ≡ i + suc n = omega arith in
      (
        subst (λ x. IsFresh fresh x (spawn_items fresh kind p r n (i + 1) (insert f.id a m))) same
            rest.0,
        spawned other kind n (count_kind other m) (count_kind other (insert f.id a m))
            (count_kind other (spawn_items fresh kind p r n (i + 1) (insert f.id a m)))
            (ground (arith, count_kind-insert other f.id a m (h.unused i (omega arith)))) rest.1,
      )

  collector_drop-count :
      (fresh : ℕ → Fresh F) (kind : String) (p : Vector3 F) (inv : Map ℤ) (i : ℕ)
      (m : Map (Resource F))
      → IsMap inv
      → IsFresh fresh i m
      → count_kind kind (spawn_collector_drop fresh p inv i m) ≡ count_kind kind m + stock kind inv
  unfolding spawn_collector_drop
  collector_drop-count fresh kind p [] i m wf h = omega (arith, stock-nil kind)
  collector_drop-count fresh kind p ((k, n) ∷ inv) i m wf h =
      let m' = spawn_items fresh k p (lit 25 1) (pos_part n) i m in
      let fallen = spawn_items-count fresh k kind p (lit 25 1) (pos_part n) i m h in
      let rest = collector_drop-count fresh kind p inv (i + pos_part n) m' wf.1 fallen.0 in
      ground (
        arith,
        rest,
        fallen.1,
        quantity-cons k kind n inv,
        quantity-missing k inv wf.0,
        eq_iff k kind,
      )

  -- The branch of the kill.
  apply_hit_mob-kills :
      (fresh : ℕ → Fresh F) (mob_id : String) (m : Mob F) (n : ℕ) (s : Server F) (c : Client F)
      → m.hp ≡ pos 1
      → is_beyond m.at (state_of c).at 10000 ≡ false
      → quantity "spear" c.inventory ≡ pos (suc n)
      → (apply_hit_mob fresh mob_id (some m) s c).0 ≡ record s {
        mobs = erase mob_id s.mobs;
        resources =
            spawn_drop fresh
              (record { at = m.at; kind = m.kind; mob_inv = m.inventory })
              s.resources;
      }
  unfolding apply_hit_mob
  apply_hit_mob-kills fresh mob_id m n s c hp near q =
      ground (arith, hp, near, consume_item-some "spear" n c q, int_sub-pos 1 1 (omega arith))

  -- A client with a spear that hits a collector with one hit point, in reach: the collector is gone,
  -- and of every kind there lie as many more things on the ground as it carried of that kind. The
  -- new identifiers are new.
  pub handle_hit_mob-drops :
      (fresh : ℕ → Fresh F) (mob_id kind : String) (m : Mob F) (n : ℕ) (s : Server F) (c : Client F)
      → lookup mob_id s.mobs ≡ some m
      → m.kind ≡ "collector"
      → m.hp ≡ pos 1
      → is_beyond m.at (state_of c).at 10000 ≡ false
      → quantity "spear" c.inventory ≡ pos (suc n)
      → IsMap m.inventory
      → IsFresh fresh 0 s.resources
      → let after : Server F = (handle_hit_mob fresh mob_id s c).0 in
        (lookup mob_id after.mobs ≡ none)
        × (count_kind kind after.resources ≡ count_kind kind s.resources + stock kind m.inventory)
  unfolding handle_hit_mob spawn_drop
  handle_hit_mob-drops fresh mob_id kind m n s c known collector hp near q wf new =
      let drop : KillDrop F = record { at = m.at; kind = m.kind; mob_inv = m.inventory } in
      let killed : (handle_hit_mob fresh mob_id s c).0
          ≡ record s { mobs = erase mob_id s.mobs; resources = spawn_drop fresh drop s.resources } =
        rw (known, handle_hit_mob) (apply_hit_mob-kills fresh mob_id m n s c hp near q) in
      let fallen : spawn_drop fresh drop s.resources
          ≡ spawn_collector_drop fresh m.at m.inventory 0 s.resources =
        ground (
          arith,
          collector,
          eq_iff m.kind "hostile",
          eq_iff m.kind "collector",
          eq_iff "collector" "hostile",
        ) in
      rw (killed, fallen)
        (
          ground (arith, lookup-erase mob_id mob_id s.mobs, eq_iff mob_id mob_id),
          collector_drop-count fresh kind m.at m.inventory 0 s.resources wf new,
        )
