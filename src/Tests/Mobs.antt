-- ===== src/Tests/Mobs.antt =====
-- Runs with mobs and spears, and of the eating.
use lodeen.Base.{
  ℕ, zero, suc, ap, Bool, ◌+◌, ◌<◌, ◌≡◌, ◌≢◌, refl, String, true, false, [], ◌∷◌, none, some, inr,
  arith,
}
use lodeen.Base.Int.{int_bound, ℤ, pos, ◌+ℤ◌, ◌-ℤ◌, ◌*ℤ◌}
use lodeen.Base.Map.{Map, lookup, insert, AllValues, IsMap}
use lodeen.Base.Float.{num, flt}
use lodeen.Protocol.Geometry.{dist2, is_beyond}
use lodeen.Server.State.{Client, Server, Mob}
use lodeen.Server.Client.{quantity, state_of, send_inventory}
use lodeen.Server.Crafting.Exchange.{stock, IsStock, IsRecipe}
use lodeen.Server.Hunger.{portions, auto_eat}
use lodeen.Server.Hunger.Eating.{IsLarder, IsFed, auto_eat-IsFed}
use lodeen.Server.Mobs.{Fresh, handle_accept_contract, handle_hit_mob}
use lodeen.Server.Mobs.Contracts.{price, Paid, handle_accept_contract-hires}
use lodeen.Server.Mobs.Pink.{pink_gather_deliver}
use lodeen.Server.Mobs.Pink.Delivery.{pink_gather_deliver-delivers}
use lodeen.Server.Mobs.Drops.{count_kind, IsFresh, handle_hit_mob-drops}
use lodeen.Server.Projectiles.{tick_projectiles}
use lodeen.Server.Projectiles.Hits.{IsAlive, HasHitPoints, tick_projectiles-IsAlive}
use lodeen.Tests.Sample.{int_float, point, empty_server, player}

abbrev eater : Client ℤ
eater = record (player "p1" (("fruit", pos 2) ∷ ("spear", pos 12) ∷ [])) { hunger = pos 5 }

eater-IsLarder : IsLarder eater
unfolding quantity lookup
eater-IsLarder = (omega arith, omega arith)

eater-portions : portions eater < 3
unfolding portions quantity lookup
eater-portions = omega arith

auto_eat-IsFed_example : (d : Client ℤ) × (auto_eat 3 eater ≡ some d) × IsFed d
auto_eat-IsFed_example = auto_eat-IsFed 3 eater eater-IsLarder eater-portions

abbrev pink : Mob ℤ
pink = record {
  id = "x1";
  at = point 1 1 1;
  hp = pos 10;
  max_hp = pos 10;
  kind = "pink";
  last_attack_at = 0;
  angered = false;
  inventory = [];
  contract = "";
  owner_id = "";
  delivered_at = 0;
}

abbrev hired : Mob ℤ
hired = record pink { id = "x2"; contract = "guard"; owner_id = "p2" }

abbrev collector : Mob ℤ
collector = record pink {
  id = "x3";
  hp = pos 1;
  kind = "collector";
  inventory = ("stone", pos 2) ∷ ("wood", pos 1) ∷ [];
}

abbrev wilds : Server ℤ
wilds = record empty_server {
  clients = ("p1", eater) ∷ [];
  mobs = ("x1", pink) ∷ ("x2", hired) ∷ ("x3", collector) ∷ [];
  projectiles =
      (
        "s1",
        record {
          id = "s1";
          at = point 0 0 1;
          dir = point 0 0 0;
          speed = pos 12;
          owner_mob_id = "x3";
          target_id = "p1";
          spawn_at = 0;
        },
      )
      ∷ [];
}

pink-there : lookup "x1" wilds.mobs ≡ some pink
unfolding lookup
pink-there = refl

eater_spears : quantity (price "guard").0 eater.inventory ≡ pos 12
unfolding quantity lookup
eater_spears = refl

handle_accept_contract-hires_example :
    (out : Map ℤ) × (handle_accept_contract "x1" "guard" wilds eater ≡ (
      record wilds {
        mobs = insert "x1" (record pink { contract = "guard"; owner_id = "p1" }) wilds.mobs;
      },
      send_inventory (record eater { inventory = out }),
    ))
    × Paid "guard" 12 eater out
handle_accept_contract-hires_example =
    handle_accept_contract-hires "x1" "guard" pink 12 wilds eater (inr refl) pink-there refl refl
      eater_spears (omega arith) (omega arith)

abbrev gatherer : Mob ℤ
gatherer = record pink {
  inventory = ("stone", pos 3) ∷ ("fruit", pos 1) ∷ [];
  contract = "gather4";
  owner_id = "p1";
}

owner-there : lookup gatherer.owner_id wilds.clients ≡ some eater
unfolding lookup
owner-there = refl

owner-near : flt (num 16) (dist2 (state_of eater).at gatherer.at) ≡ false
unfolding dist2 state_of ◌+ℤ◌ ◌-ℤ◌ ◌*ℤ◌
owner-near = refl

gatherer-IsRecipe : IsRecipe gatherer.inventory
unfolding lookup
gatherer-IsRecipe = (refl, refl, (refl, refl, tt))

eater-IsStock : IsStock eater.inventory
unfolding quantity lookup
eater-IsStock k = ground arith

eater-room : (k : String) → stock k eater.inventory + stock k gatherer.inventory < int_bound
unfolding quantity lookup
eater-room k = ground arith

pink_gather_deliver-delivers_example :
    let after = pink_gather_deliver (pos 1) gatherer wilds in
    ((out : Client ℤ) × (lookup "p1" after.1.clients ≡ some out)
      × ((k : String)
          → quantity k out.inventory ≡ pos (stock k eater.inventory + stock k gatherer.inventory)))
    × (after.0 ≡ record gatherer { inventory = []; contract = ""; owner_id = "" })
pink_gather_deliver-delivers_example =
    pink_gather_deliver-delivers (pos 1) gatherer eater wilds owner-there owner-near
      gatherer-IsRecipe eater-IsStock eater-room

collector-there : lookup "x3" wilds.mobs ≡ some collector
unfolding lookup
collector-there = refl

collector-near : is_beyond collector.at (state_of eater).at 10000 ≡ false
unfolding is_beyond state_of ◌+ℤ◌ ◌-ℤ◌ ◌*ℤ◌
collector-near = refl

collector-IsMap : IsMap collector.inventory
unfolding lookup
collector-IsMap = (refl, (refl, tt))

abbrev names : ℕ → String
names zero = ""
names (suc n) = String.◌∷◌ "x" (names n)

abbrev new_things : ℕ → Fresh ℤ
new_things n = record { id = names n; angle = pos 0; radius = pos 0 }

abbrev tail : String → String
tail String.[] = ""
tail (String.◌∷◌ _ s) = s

abbrev is_empty : String → Bool
is_empty String.[] = true
is_empty (String.◌∷◌ _ s) = false

names-differ : (j k : ℕ) → j ≢ k → names j ≢ names k
names-differ zero zero n e = n refl
names-differ zero (suc k) n e = let no : true ≡ false = ap is_empty e in ground (arith, no)
names-differ (suc j) zero n e = let no : false ≡ true = ap is_empty e in ground (arith, no)
names-differ (suc j) (suc k) n e = names-differ j k (λ q. n (ap suc q)) (ap tail e)

new_things-IsFresh : IsFresh new_things 0 wilds.resources
unfolding lookup
new_things-IsFresh = record { unused = λ j le. refl; different = names-differ }

handle_hit_mob-drops_example :
    let after : Server ℤ = (handle_hit_mob new_things "x3" wilds eater).0 in
    (lookup "x3" after.mobs ≡ none)
    × (count_kind "stone" after.resources
        ≡ count_kind "stone" wilds.resources + stock "stone" collector.inventory)
handle_hit_mob-drops_example =
    handle_hit_mob-drops new_things "x3" "stone" collector 11 wilds eater collector-there refl refl
      collector-near eater_spears collector-IsMap new_things-IsFresh

wilds-HasHitPoints : AllValues HasHitPoints wilds.clients
wilds-HasHitPoints = ((omega arith, omega arith), tt)

wilds-IsAlive : AllValues IsAlive wilds.mobs
wilds-IsAlive = (omega arith, (omega arith, (omega arith, tt)))

tick_projectiles-IsAlive_example :
    let after : Server ℤ = tick_projectiles (λ _. new_things) 5 (pos 1) wilds in
    AllValues HasHitPoints after.clients × AllValues IsAlive after.mobs
tick_projectiles-IsAlive_example =
    tick_projectiles-IsAlive (λ _. new_things) 5 (pos 1) wilds wilds-HasHitPoints wilds-IsAlive
