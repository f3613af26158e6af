-- ===== src/Server/Mammoths/Breeding.antt =====
-- Young mammoths: internal/server/net/mammoths_breeding.go.
pub mod Births
use lodeen.Base.{
  ℕ, ◌*◌, String, Bool, true, false, [], ◌∷◌, Option, none, some, ◌&&◌, ◌||◌, not, ◌==◌, eqb,
  if◌then◌else◌,
}
use lodeen.Base.Int.{ℤ, pos, ltb_ℤ, leb_ℤ}
use lodeen.Base.Map.{Map, insert, map_values}
use lodeen.Base.Float.{Float, ◌⊕◌, ◌⊘◌, num, fle}
use lodeen.Protocol.Geometry.{dist2}
use lodeen.Server.State.{Server, Mammoth}
use lodeen.Server.Time.{time_sub, second}

-- `babyGrowTime`
abbrev pub baby_grow_time : ℕ
baby_grow_time = 60 * second

-- `breedingMinFed`
abbrev pub breeding_min_fed : ℤ
breeding_min_fed = pos 4

module _ {F : Type 0} where
  unfoldable pub grow_up : ℕ → Mammoth F → Mammoth F
  grow_up now m =
      if not m.baby || eqb m.born_at 0
      then m
      else if leb_ℤ (pos baby_grow_time) (time_sub now m.born_at)
      then record m { baby = false }
      else m

  -- A candidate of the sex.
  unfoldable pub is_candidate : String → Mammoth F → Bool
  is_candidate sex m =
      not (not m.tamed || m.baby || ltb_ℤ m.fed_count breeding_min_fed) && m.sex == sex

  -- One of the two lists; each stands in the order of the map.
  unfoldable pub collect_candidates : String → Map (Mammoth F) → Map (Mammoth F)
  unfolding is_candidate
  collect_candidates sex [] = []
  collect_candidates sex ((k, m) ∷ all) =
      let rest = collect_candidates sex all in if is_candidate sex m then (k, m) ∷ rest else rest

module _ {F : Type 0} ⦃fl : Float F⦄ where
  unfoldable pub mammoths_are_close : Mammoth F → Mammoth F → Bool
  mammoths_are_close a b = fle (dist2 a.at b.at) (num 25)

  -- The loop over the females.
  unfoldable pub find_female : Mammoth F → Map (Mammoth F) → Option (String × Mammoth F)
  unfolding mammoths_are_close
  find_female male [] = none
  find_female male ((k, m) ∷ females) =
      let rest = find_female male females in if mammoths_are_close male m then some (k, m) else rest

  -- The loop over the males around it.
  unfoldable pub find_pair :
      Map (Mammoth F) → Map (Mammoth F) → Option ((String × Mammoth F) × (String × Mammoth F))
  unfolding find_female
  find_pair [] females = none
  find_pair ((k, m) ∷ males) females =
      let rest = find_pair males females in
      elim (find_female m females) [ none ↦ rest | some f ↦ some ((k, m), f) ]

  -- A tame baby between its parents.
  unfoldable pub baby_of : ℕ → String → Bool → Mammoth F → Mammoth F → Mammoth F
  baby_of now id girl a b = record {
    id = id;
    at = record {
      x = (a.at.x ⊕ b.at.x) ⊘ num 2;
      y = (a.at.y ⊕ b.at.y) ⊘ num 2;
      z = (a.at.z ⊕ b.at.z) ⊘ num 2;
    };
    hp = pos 1;
    tamed = true;
    sex = if girl then "f" else "m";
    fed_count = pos 0;
    baby = true;
    leashed_to = "";
    saddle = false;
    rider_id = "";
    mate_id = "";
    together_since = 0;
    born_at = now;
  }

  -- The parents are hungry again. Each is written back under its key.
  unfoldable pub birth_mammoth :
      ℕ
      → String
      → Bool
      → String × Mammoth F
      → String × Mammoth F
      → Map (Mammoth F)
      → Map (Mammoth F)
  unfolding baby_of
  birth_mammoth now id girl (k, male) (j, female) all =
      insert j (record female { fed_count = pos 0 })
        (insert k (record male { fed_count = pos 0 })
          (insert id (baby_of now id girl male female) all))

  -- `id` is the new identifier and `girl` whether `mrand.Intn(2)` is 0.
  unfoldable pub tick_breeding : ℕ → String → Bool → Server F → Server F
  unfolding grow_up collect_candidates find_pair birth_mammoth
  tick_breeding now id girl s =
      let all = map_values (grow_up now) s.mammoths in
      elim (find_pair (collect_candidates "m" all) (collect_candidates "f" all)) [
        | none ↦ record s { mammoths = all }
        | some (male, female) ↦ record s { mammoths = birth_mammoth now id girl male female all }
      ]
