-- ===== src/Base/Map.antt =====
-- Go's `map[string]V` as an association list. A `range` visits the entries in the order of the
-- list: Go leaves the order open, and the theorems hold for every list.
use lodeen.Base.Tests.{if◌then◌else◌}
use Prim.Native.String.{String}
use lodeen.Base.Cases.{Bool-cases}
use mathlib.Core.Path.{◌≡◌, refl, subst}
use mathlib.Core.Logic.{◌⊎◌, inl, inr}
use mathlib.Core.Option
use mathlib.Core.Option.{Option, none, some}
use mathlib.Core.List.{List, [], ◌∷◌}
use native.Mathlib.Omega.{arith}
use text.Mathlib.Text.{◌==◌}
use text.Mathlib.TextEquality.{eq_iff}

abbrev pub Map {ℓ} : Type ℓ → Type ℓ
Map V = List (String × V)

module _ {ℓ} {V : Type ℓ} where
  -- `value, ok := entries[key]`
  unfoldable pub lookup : String → Map V → Option V
  lookup key [] = none
  lookup key ((name, value) ∷ entries) = if name == key then some value else lookup key entries

  -- `delete(entries, key)`
  unfoldable pub erase : String → Map V → Map V
  erase key [] = []
  erase key ((name, value) ∷ entries) =
      let rest = erase key entries in if name == key then rest else (name, value) ∷ rest

  -- `entries[key] = new`
  unfoldable pub insert : String → V → Map V → Map V
  insert key new [] = (key, new) ∷ []
  insert key new ((name, value) ∷ entries) =
      let rest = insert key new entries in
      if name == key then (key, new) ∷ entries else (name, value) ∷ rest

  pub lookup-erase :
      (k j : String) (m : Map V) → lookup j (erase k m) ≡ (if k == j then none else lookup j m)
  unfolding lookup erase
  lookup-erase k j [] = ground arith
  lookup-erase k j ((name, value) ∷ m) =
      ground (arith, lookup-erase k j m, eq_iff name j, eq_iff k j, eq_iff name k)

  -- What a key holds after a write.
  pub lookup-insert :
      (written read : String) (new : V) (entries : Map V)
      → lookup read (insert written new entries)
        ≡ (if written == read then some new else lookup read entries)
  unfolding lookup insert
  lookup-insert written read new [] = refl
  lookup-insert written read new ((name, value) ∷ entries) = ground (
    arith,
    lookup-insert written read new entries,
    eq_iff name read,
    eq_iff name written,
    eq_iff written read,
  )

  -- Every value satisfies `P`.
  abbrev pub AllValues {κ} : (V → Type κ) → Map V → Type κ
  AllValues P [] = Unit {κ}
  AllValues P ((k, v) ∷ m) = P v × AllValues P m

  pub lookup-AllValues {κ} :
      (P : V → Type κ) (k : String) (v : V) (m : Map V) → AllValues P m → lookup k m ≡ some v → P v
  unfolding lookup
  lookup-AllValues P k v [] h e = cc
  lookup-AllValues P k v ((j, w) ∷ m) h e = elim (Bool-cases (j == k)) [
    | inl hit ↦ let same : w ≡ v = ground arith in subst P same h.0
    | inr miss ↦ lookup-AllValues P k v m h.1 (ground arith)
  ]

-- A loop that changes each object that the map points to.
unfoldable pub map_values : {V W : Type 0} → (V → W) → Map V → Map W
map_values f [] = []
map_values f ((k, v) ∷ m) = (k, f v) ∷ map_values f m

pub lookup-map_values :
    {V W : Type 0} (f : V → W) (k : String) (m : Map V)
    → lookup k (map_values f m) ≡ Option.map f (lookup k m)
unfolding map_values lookup
lookup-map_values f k [] = refl
lookup-map_values f k ((j, v) ∷ m) = elim (Bool-cases (j == k)) [
  | inl hit ↦ rw (hit, lookup)
  | inr miss ↦ rw (miss, lookup) (lookup-map_values f k m)
]

-- The entry stands in the map.
abbrev pub Entry : {V : Type 0} → String → V → Map V → Type 0
Entry k v [] = ⊥
Entry k v ((j, w) ∷ m) = ((j ≡ k) × (w ≡ v)) ⊎ Entry k v m

-- No key stands twice.
abbrev pub IsMap : {V : Type 0} → Map V → Type 0
IsMap [] = Unit {0}
IsMap ((k, v) ∷ m) = (lookup k m ≡ none) × IsMap m

module _ {V : Type 0} where
  pub Entry-AllValues :
      (P : V → Type 0) (k : String) (v : V) (m : Map V) → AllValues P m → Entry k v m → P v
  Entry-AllValues P k v [] h e = absurd e
  Entry-AllValues P k v ((j, w) ∷ m) h (inl (_, e)) = subst P e h.0
  Entry-AllValues P k v ((j, w) ∷ m) h (inr e) = Entry-AllValues P k v m h.1 e

  pub insert-AllValues :
      (P : V → Type 0) (k : String) (v : V) (m : Map V)
      → AllValues P m
      → P v
      → AllValues P (insert k v m)
  unfolding insert
  insert-AllValues P k v [] h p = (p, tt)
  insert-AllValues P k v ((j, w) ∷ m) h p = ground (arith, insert-AllValues P k v m h.1 p)

  pub erase-AllValues :
      (P : V → Type 0) (k : String) (m : Map V) → AllValues P m → AllValues P (erase k m)
  unfolding erase
  erase-AllValues P k [] h = tt
  erase-AllValues P k ((j, w) ∷ m) h = ground (arith, erase-AllValues P k m h.1)

  pub insert-IsMap : (k : String) (v : V) (m : Map V) → IsMap m → IsMap (insert k v m)
  unfolding insert lookup
  insert-IsMap k v [] h = (refl, tt)
  insert-IsMap k v ((j, w) ∷ m) h =
      ground (arith, insert-IsMap k v m h.1, lookup-insert k j v m, eq_iff k j, eq_iff j k)

  pub Entry-lookup : (k : String) (v : V) (m : Map V) → IsMap m → Entry k v m → lookup k m ≡ some v
  unfolding lookup
  Entry-lookup k v [] h e = absurd e
  Entry-lookup k v ((j, w) ∷ m) h (inl (p, q)) = ground (arith, eq_iff j k)
  Entry-lookup k v ((j, w) ∷ m) h (inr e) = ground (arith, eq_iff j k, Entry-lookup k v m h.1 e)

  -- To write an entry back changes nothing.
  pub insert-same : (k : String) (v : V) (m : Map V) → IsMap m → Entry k v m → insert k v m ≡ m
  unfolding insert
  insert-same k v [] h e = absurd e
  insert-same k v ((j, w) ∷ m) h (inl (p, q)) = ground (arith, eq_iff j k)
  insert-same k v ((j, w) ∷ m) h (inr e) =
      ground (arith, eq_iff j k, Entry-lookup k v m h.1 e, insert-same k v m h.1 e)
