-- ===== src/Server/Crafting/Exchange.antt =====
-- What a recipe takes and gives, item by item.
use lodeen.Base.{
  ℕ, zero, suc, ◌+◌, ◌-◌, ◌≤◌, ◌<◌, ◌≡◌, refl, ◌∙◌, String, Bool, true, false, [], ◌∷◌, none, arith,
  eq_iff, ◌==◌, if◌then◌else◌,
}
use lodeen.Base.Int.{
  ℤ, pos, negsuc, pos_part, neg_part, int_add, int_bound, int_add-pos, int_sub-pos,
}
use lodeen.Base.Map.{Map, insert, erase, lookup}
use lodeen.Server.Client.{quantity}
use lodeen.Server.Client.Inventory.{quantity-insert, quantity-erase}
use lodeen.Server.Crafting.{covers, spend_item, spend, gain}

-- How many of an item there are, as a number that is not negative.
abbrev pub stock : String → Map ℤ → ℕ
stock k m = pos_part (quantity k m)

-- Every quantity is a number from 0 up, below 2^63.
abbrev pub IsStock : Map ℤ → Type 0
IsStock m = (k : String) → (quantity k m ≡ pos (stock k m)) × (stock k m < int_bound)

-- A recipe names an item once, and needs or makes a number of it that is not negative.
abbrev pub IsRecipe : Map ℤ → Type 0
IsRecipe [] = Unit {0}
IsRecipe ((k, n) ∷ m) = (lookup k m ≡ none) × (neg_part n ≡ 0) × IsRecipe m

-- A test that lets no item go of which something is left.
abbrev pub OnlyWhenGone : (ℤ → Bool) → Type 0
OnlyWhenGone used_up = (n : ℕ) → used_up (pos (suc n)) ≡ false

pub quantity-cons :
    (k j : String) (n : ℤ) (m : Map ℤ)
    → quantity j ((k, n) ∷ m) ≡ (if k == j then n else quantity j m)
unfolding quantity lookup
quantity-cons k j n m = ground arith

quantity-spend_item :
    (used_up : ℤ → Bool) (k j : String) (n : ℕ) (inv : Map ℤ)
    → OnlyWhenGone used_up
    → IsStock inv
    → n ≤ stock k inv
    → quantity j (spend_item used_up k (pos n) inv)
      ≡ (if k == j then pos (stock k inv - n) else quantity j inv)
unfolding spend_item
quantity-spend_item used_up k j n inv only st h =
    rw ((st k).0, int_sub-pos (stock k inv) n (st k).1 h) (split (stock k inv - n))
  where
    split :
        (left : ℕ)
        → quantity j (
            if used_up (pos left)
            then erase k (insert k (pos left) inv)
            else insert k (pos left) inv)
          ≡ (if k == j then pos left else quantity j inv)
    split zero =
        ground (arith, quantity-insert k j (pos 0) inv, quantity-erase k j (insert k (pos 0) inv))
    split (suc m) = ground (arith, only m, quantity-insert k j (pos (suc m)) inv)

spend_item-IsStock :
    (used_up : ℤ → Bool) (k : String) (n : ℕ) (inv : Map ℤ)
    → OnlyWhenGone used_up
    → IsStock inv
    → n ≤ stock k inv
    → IsStock (spend_item used_up k (pos n) inv)
spend_item-IsStock used_up k n inv only st h j =
    ground (arith, quantity-spend_item used_up k j n inv only st h, st j, st k)

-- The check of the later items does not see that an item was taken which they do not name.
covers-other :
    (k : String) (inv inv' : Map ℤ) (need : Map ℤ)
    → ((j : String) → (k ≡ j → ⊥) → quantity j inv' ≡ quantity j inv)
    → lookup k need ≡ none
    → covers inv' need ≡ covers inv need
unfolding covers lookup
covers-other k inv inv' [] same h = refl
covers-other k inv inv' ((i, n) ∷ need) same h =
    ground (arith, eq_iff i k, same i, covers-other k inv inv' need same)

quantity-nil : (j : String) → quantity j [] ≡ pos 0
unfolding quantity lookup
quantity-nil j = refl

pub quantity-missing : (k : String) (m : Map ℤ) → lookup k m ≡ none → quantity k m ≡ pos 0
unfolding quantity
quantity-missing k m h = rw (h, quantity)

covers-head :
    (k : String) (n : ℕ) (need inv : Map ℤ)
    → IsStock inv
    → covers inv ((k, pos n) ∷ need) ≡ true
    → (n ≤ stock k inv) × (covers inv need ≡ true)
unfolding covers
covers-head k n need inv st c = ground (arith, st k)

-- The later items are still covered when the first has been taken.
covers-tail :
    (used_up : ℤ → Bool) (k : String) (n : ℕ) (need inv : Map ℤ)
    → OnlyWhenGone used_up
    → IsStock inv
    → lookup k need ≡ none
    → covers inv ((k, pos n) ∷ need) ≡ true
    → covers (spend_item used_up k (pos n) inv) need ≡ true
covers-tail used_up k n need inv only st h c =
    let (enough, later) = covers-head k n need inv st c in
    covers-other k inv (spend_item used_up k (pos n) inv) need
      (λ j ne. ground (arith, eq_iff k j, ne, quantity-spend_item used_up k j n inv only st enough))
      h
    ∙ later

-- A recipe that is covered takes what it needs of each item, and nothing else.
pub quantity-spend :
    (used_up : ℤ → Bool) (need inv : Map ℤ) (j : String)
    → OnlyWhenGone used_up
    → IsRecipe need
    → IsStock inv
    → covers inv need ≡ true
    → (stock j need ≤ stock j inv)
      × (quantity j (spend used_up need inv) ≡ pos (stock j inv - stock j need))
unfolding spend
quantity-spend used_up [] inv j only r st c = ground (arith, quantity-nil j, st j)
quantity-spend used_up ((k, negsuc n) ∷ need) inv j only r st c = absurd (omega arith)
quantity-spend used_up ((k, pos n) ∷ need) inv j only r st c =
    let (enough, later) = covers-head k n need inv st c in
    let later_st = spend_item-IsStock used_up k n inv only st enough in
    ground (
      arith,
      quantity-cons k j (pos n) need,
      quantity-missing k need r.0,
      eq_iff k j,
      quantity-spend_item used_up k j n inv only st enough,
      quantity-spend used_up need (spend_item used_up k (pos n) inv) j only r.2 later_st
          (covers-tail used_up k n need inv only st r.0 c),
    )

pub quantity-gain_item :
    (k j : String) (n : ℕ) (inv : Map ℤ)
    → IsStock inv
    → stock k inv + n < int_bound
    → quantity j (insert k (int_add (quantity k inv) (pos n)) inv)
      ≡ (if k == j then pos (stock k inv + n) else quantity j inv)
quantity-gain_item k j n inv st h =
    rw ((st k).0, int_add-pos (stock k inv) n h) (quantity-insert k j (pos (stock k inv + n)) inv)

-- What `gain` adds.
pub quantity-gain :
    (made inv : Map ℤ) (j : String)
    → IsRecipe made
    → IsStock inv
    → ((k : String) → stock k inv + stock k made < int_bound)
    → quantity j (gain made inv) ≡ pos (stock j inv + stock j made)
unfolding gain
quantity-gain [] inv j r st room = ground (arith, quantity-nil j, st j)
quantity-gain ((k, negsuc n) ∷ made) inv j r st room = absurd (omega arith)
quantity-gain ((k, pos n) ∷ made) inv j r st room =
    let added : ℕ = stock k inv + n in
    let fits : added < int_bound =
      ground (arith, room k, quantity-cons k k (pos n) made, eq_iff k k) in
    let next : Map ℤ = insert k (int_add (quantity k inv) (pos n)) inv in
    let step = λ (i : String). quantity-gain_item k i n inv st fits in
    let later : IsStock next = λ i. ground (arith, step i, st i) in
    let later_room : (i : String) → stock i next + stock i made < int_bound = λ i. ground (
      arith,
      step i,
      room i,
      quantity-cons k i (pos n) made,
      quantity-missing k made r.0,
      eq_iff k i,
    ) in
    ground (
      arith,
      quantity-cons k j (pos n) made,
      quantity-missing k made r.0,
      eq_iff k j,
      step j,
      quantity-gain made next j r.2 later later_room,
    )
