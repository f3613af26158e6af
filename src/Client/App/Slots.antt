-- ===== src/Client/App/Slots.antt =====
-- The slots of the inventory window: `syncInvSlots` and `heldItem` of
-- internal/client/app/inventory.go. An empty slot is the empty text; a window has 256.
pub mod Tidy
use lodeen.Base.Map.{Map}
use lodeen.Base.{
  ℕ, zero, suc, String, Bool, false, not, ◌&&◌, ◌||◌, List, [], ◌∷◌, Option, none, some, ◌==◌,
  get_elem?, if◌then◌else◌,
}
use lodeen.Base.Int.{ℤ, pos, leb_ℤ}
use lodeen.Server.Client.{quantity}

-- `present[t]`
unfoldable pub is_present : String → List String → Bool
is_present t [] = false
is_present t (s ∷ present) = s == t || is_present t present

-- The types that lie in slots at first.
unfoldable pub types_in : List String → List String
types_in [] = []
types_in (s ∷ slots) = let rest = types_in slots in if s == "" then rest else s ∷ rest

-- Into the first empty slot; `none` when there is none.
unfoldable pub place_first : String → List String → Option (List String)
place_first t [] = none
place_first t (s ∷ slots) =
    let rest = place_first t slots in
    if s == ""
    then some (t ∷ slots)
    else elim rest [ none ↦ none | some placed ↦ some (s ∷ placed) ]

-- The loop over the inventory, with the types that are present by now.
unfoldable pub place_new : Map ℤ → List String → List String → List String
unfolding is_present place_first
place_new [] present slots = slots
place_new ((t, n) ∷ inv) present slots =
    if leb_ℤ n (pos 0) || is_present t present
    then place_new inv present slots
    else elim (place_first t slots) [
      | none ↦ place_new inv present slots
      | some placed ↦ place_new inv (t ∷ present) placed
    ]

-- `t != "" && inv[t] <= 0`
unfoldable pub is_gone : Map ℤ → String → Bool
unfolding quantity
is_gone inv t = not (t == "") && leb_ℤ (quantity t inv) (pos 0)

-- The loop that empties slots.
unfoldable pub clear_gone : Map ℤ → List String → List String
unfolding is_gone
clear_gone inv [] = []
clear_gone inv (t ∷ slots) = (if is_gone inv t then "" else t) ∷ clear_gone inv slots

unfoldable pub sync_inv_slots : Map ℤ → List String → List String
unfolding types_in place_new clear_gone
sync_inv_slots inv slots = clear_gone inv (place_new inv (types_in slots) slots)

-- The item of the selected slot.
unfoldable pub held_item : ℕ → List String → String
held_item selected slots = elim (get_elem? slots selected) [ none ↦ "" | some t ↦ t ]
