-- ===== src/Server/Mammoths/Breeding/Births.antt =====
-- When a mammoth is born.
use lodeen.Base.{
  ℕ, ◌≡◌, refl, sym, String, Bool, true, false, [], ◌∷◌, Option, none, some, inl, inr, arith, ◌==◌,
  if◌then◌else◌, Bool-cases, Option-cases,
}
use mathlib.Core.Path.{subst}
use lodeen.Base.Int.{pos}
use lodeen.Base.Map.{Map, lookup, insert, lookup-insert, map_values, Entry}
use lodeen.Base.Float.{Float}
use lodeen.Server.State.{Server, Mammoth}
use lodeen.Server.Mammoths.Breeding.{
  grow_up, is_candidate, collect_candidates, mammoths_are_close, find_female, find_pair, baby_of,
  birth_mammoth, tick_breeding,
}

module _ {F : Type 0} where
  -- The candidates are entries of the map.
  collect_candidates-Entry :
      (sex k : String) (a : Mammoth F) (m : Map (Mammoth F))
      → Entry k a (collect_candidates sex m)
      → Entry k a m × (is_candidate sex a ≡ true)
  unfolding collect_candidates
  collect_candidates-Entry sex k a [] e = absurd e
  collect_candidates-Entry sex k a ((j, b) ∷ m) e = elim (Bool-cases (is_candidate sex b)) [
    | inl hit ↦
        let step : collect_candidates sex ((j, b) ∷ m) ≡ (j, b) ∷ collect_candidates sex m =
          ground (arith, hit) in
        let e' : Entry k a ((j, b) ∷ collect_candidates sex m) = subst (Entry k a) step e in
        elim e' [
          | inl (p, q) ↦ (inl (p, q), ground (arith, hit, q))
          | inr r ↦ let rest = collect_candidates-Entry sex k a m r in (inr rest.0, rest.1)
        ]
    | inr miss ↦
        let step : collect_candidates sex ((j, b) ∷ m) ≡ collect_candidates sex m =
          ground (arith, miss) in
        let r : Entry k a (collect_candidates sex m) = subst (Entry k a) step e in
        let rest = collect_candidates-Entry sex k a m r in (inr rest.0, rest.1)
  ]

  Entry-collect_candidates :
      (sex k : String) (a : Mammoth F) (m : Map (Mammoth F))
      → Entry k a m
      → is_candidate sex a ≡ true
      → Entry k a (collect_candidates sex m)
  unfolding collect_candidates
  Entry-collect_candidates sex k a [] e t = absurd e
  Entry-collect_candidates sex k a ((j, b) ∷ m) (inl (p, q)) t =
      let hit : is_candidate sex b ≡ true = rw (q) t in rw (hit) (inl (p, q))
  Entry-collect_candidates sex k a ((j, b) ∷ m) (inr e) t =
      let rest = Entry-collect_candidates sex k a m e t in
      elim (Bool-cases (is_candidate sex b)) [
        | inl hit ↦ rw (hit) (inr rest)
        | inr miss ↦ rw (miss) rest
      ]

module _ {F : Type 0} ⦃fl : Float F⦄ where
  find_female-some :
      (a b : Mammoth F) (j : String) (females : Map (Mammoth F))
      → find_female a females ≡ some (j, b)
      → Entry j b females × (mammoths_are_close a b ≡ true)
  unfolding find_female
  find_female-some a b j [] e = absurd (ground (arith, e))
  find_female-some a b j ((i, f) ∷ females) e = elim (Bool-cases (mammoths_are_close a f)) [
    | inl hit ↦
        let p : i ≡ j = ground (arith, e, hit) in
        let q : f ≡ b = ground (arith, e, hit) in (inl (p, q), rw (sym q) hit)
    | inr miss ↦
        let rest = find_female-some a b j females (ground (arith, e, miss)) in (inr rest.0, rest.1)
  ]

  find_female-none :
      (a b : Mammoth F) (j : String) (females : Map (Mammoth F))
      → find_female a females ≡ none
      → Entry j b females
      → mammoths_are_close a b ≡ false
  unfolding find_female
  find_female-none a b j [] e h = absurd h
  find_female-none a b j ((i, f) ∷ females) e (inl (p, q)) = rw (sym q) (ground (arith, e))
  find_female-none a b j ((i, f) ∷ females) e (inr h) =
      find_female-none a b j females (ground (arith, e)) h

  find_pair-some :
      (k j : String) (a b : Mammoth F) (males females : Map (Mammoth F))
      → find_pair males females ≡ some ((k, a), (j, b))
      → Entry k a males × Entry j b females × (mammoths_are_close a b ≡ true)
  unfolding find_pair
  find_pair-some k j a b [] females e = absurd (ground (arith, e))
  find_pair-some k j a b ((i, m) ∷ males) females e = elim (Option-cases (find_female m females)) [
    | inl none' ↦
        let rest = find_pair-some k j a b males females (ground (arith, e, none')) in
        (inr rest.0, rest.1, rest.2)
    | inr ((i', f), found) ↦
        let p : i ≡ k = ground (arith, e, found) in
        let q : m ≡ a = ground (arith, e, found) in
        let found' : find_female a females ≡ some (j, b) = rw (sym q) (ground (arith, e, found)) in
        let rest = find_female-some a b j females found' in (inl (p, q), rest.0, rest.1)
  ]

  find_pair-none :
      (k j : String) (a b : Mammoth F) (males females : Map (Mammoth F))
      → find_pair males females ≡ none
      → Entry k a males
      → Entry j b females
      → mammoths_are_close a b ≡ false
  unfolding find_pair
  find_pair-none k j a b [] females e h h' = absurd h
  find_pair-none k j a b ((i, m) ∷ males) females e (inl (p, q)) h' =
      elim (Option-cases (find_female m females)) [
        | inl none' ↦ rw (sym q) (find_female-none m b j females none' h')
        | inr (f, found) ↦ absurd (ground (arith, e, found))
      ]
  find_pair-none k j a b ((i, m) ∷ males) females e (inr h) h' =
      elim (Option-cases (find_female m females)) [
        | inl none' ↦ find_pair-none k j a b males females (ground (arith, e, none')) h h'
        | inr (f, found) ↦ absurd (ground (arith, e, found))
      ]

  -- What the map holds after a birth, for a key `i`.
  abbrev pub after_birth :
      ℕ
      → String
      → Bool
      → String × Mammoth F
      → String × Mammoth F
      → String
      → Map (Mammoth F)
      → Option (Mammoth F)
  after_birth now id girl (k, a) (j, b) i all =
      if j == i
      then some (record b { fed_count = pos 0 })
      else if k == i
      then some (record a { fed_count = pos 0 })
      else if id == i
      then some (baby_of now id girl a b)
      else lookup i all

  -- A pair of which a baby may be born: a tame grown male and a tame grown female of the map, each
  -- fed at least four times, close to each other.
  abbrev pub IsPair : Map (Mammoth F) → String × Mammoth F → String × Mammoth F → Type 0
  IsPair all (k, a) (j, b) =
      Entry k a all
      × (is_candidate "m" a ≡ true)
      × Entry j b all
      × (is_candidate "f" b ≡ true)
      × (mammoths_are_close a b ≡ true)

  found-IsPair :
      (all : Map (Mammoth F)) (male female : String × Mammoth F)
      → find_pair (collect_candidates "m" all) (collect_candidates "f" all) ≡ some (male, female)
      → IsPair all male female
  found-IsPair all (k, a) (j, b) e =
      let found =
        find_pair-some k j a b (collect_candidates "m" all) (collect_candidates "f" all) e in
      let father = collect_candidates-Entry "m" k a all found.0 in
      let mother = collect_candidates-Entry "f" j b all found.1 in
      (father.0, father.1, mother.0, mother.1, found.2)

  missed-IsPair :
      (all : Map (Mammoth F)) (male female : String × Mammoth F)
      → find_pair (collect_candidates "m" all) (collect_candidates "f" all) ≡ none
      → ¬ IsPair all male female
  missed-IsPair all (k, a) (j, b) e (h, t, h', t', near) =
      let far =
        find_pair-none k j a b (collect_candidates "m" all) (collect_candidates "f" all) e
          (Entry-collect_candidates "m" k a all h t) (Entry-collect_candidates "f" j b all h' t') in
      ground (arith, far, near)

  lookup-birth_mammoth :
      (now : ℕ) (id : String) (girl : Bool) (father mother : String × Mammoth F) (i : String)
      (all : Map (Mammoth F))
      → lookup i (birth_mammoth now id girl father mother all)
        ≡ after_birth now id girl father mother i all
  unfolding birth_mammoth
  lookup-birth_mammoth now id girl (k, a) (j, b) i all =
      let baby = baby_of now id girl a b in
      let a' : Mammoth F = record a { fed_count = pos 0 } in
      let b' : Mammoth F = record b { fed_count = pos 0 } in
      ground (
        arith,
        lookup-insert j i b' (insert k a' (insert id baby all)),
        lookup-insert k i a' (insert id baby all),
        lookup-insert id i baby all,
      )

  -- Where there is a pair, once the young have grown up, a tick makes a baby of one pair: its two
  -- parents are hungry again, and no other mammoth changes.
  pub tick_breeding-births :
      (now : ℕ) (id : String) (girl : Bool) (s : Server F) (male female : String × Mammoth F)
      → IsPair (map_values (grow_up now) s.mammoths) male female
      → (father mother : String × Mammoth F) × IsPair
          (map_values (grow_up now) s.mammoths)
          father
          mother
        × ((i : String)
            → lookup i (tick_breeding now id girl s).mammoths
              ≡ after_birth now id girl father mother i (map_values (grow_up now) s.mammoths))
  unfolding tick_breeding
  tick_breeding-births now id girl s male female pair =
      let all = map_values (grow_up now) s.mammoths in
      elim (Option-cases (find_pair (collect_candidates "m" all) (collect_candidates "f" all))) [
        | inl missed ↦ absurd (missed-IsPair all male female missed pair)
        | inr ((father, mother), e) ↦ (
          father,
          mother,
          found-IsPair all father mother e,
          λ i. rw (e, tick_breeding) (lookup-birth_mammoth now id girl father mother i all),
        )
      ]

  -- Where there is no pair, the young grow up and nothing else changes.
  pub tick_breeding-barren :
      (now : ℕ) (id : String) (girl : Bool) (s : Server F)
      → ((male female : String × Mammoth F)
          → ¬ IsPair (map_values (grow_up now) s.mammoths) male female)
      → tick_breeding now id girl s ≡ record s { mammoths = map_values (grow_up now) s.mammoths }
  unfolding tick_breeding
  tick_breeding-barren now id girl s none_fit =
      let all = map_values (grow_up now) s.mammoths in
      elim (Option-cases (find_pair (collect_candidates "m" all) (collect_candidates "f" all))) [
        | inl missed ↦ rw (missed, tick_breeding) refl
        | inr ((father, mother), e) ↦
            absurd (none_fit father mother (found-IsPair all father mother e))
      ]
