-- ===== src/Client/App/Slots/Tidy.antt =====
-- What lies in the slots after they are synchronised with the inventory.
use mathlib.Core.Path.{subst}
use lodeen.Base.Map.{Map}
use lodeen.Base.{
  ◌≡◌, refl, sym, arith, String, Bool, true, false, not, ◌||◌, List, [], ◌∷◌, some, inl, inr, ◌==◌,
  eq_iff, if◌then◌else◌, All, Bool-cases, Option-cases,
}
use lodeen.Base.Int.{ℤ, pos, leb_ℤ}
use lodeen.Client.App.Slots.{
  is_present, types_in, place_first, place_new, is_gone, clear_gone, sync_inv_slots,
}

-- No type lies in two slots.
abbrev pub IsOnce : List String → Type 0
IsOnce [] = Unit {0}
IsOnce (s ∷ slots) = ((s == "" || not (is_present s slots)) ≡ true) × IsOnce slots

-- Every slot that is not empty holds a type of which the inventory has some.
abbrev pub AllHeld : Map ℤ → List String → Type 0
AllHeld inv = All (λ t. is_gone inv t ≡ false)

-- A type that is not empty and lies in a slot is among the present ones.
Covers : List String → List String → Type 0
Covers present slots =
    (t : String) → (t == "") ≡ false → is_present t slots ≡ true → is_present t present ≡ true

types_in-Covers : (slots : List String) → Covers (types_in slots) slots
unfolding Covers types_in is_present
types_in-Covers [] t e h = h
types_in-Covers (s ∷ slots) t e h =
    ground (arith, types_in-Covers slots t e, eq_iff s t, eq_iff s "", eq_iff t "")

place_first-present :
    (t u : String) (slots placed : List String)
    → place_first t slots ≡ some placed
    → (u == "") ≡ false
    → is_present u placed ≡ (t == u || is_present u slots)
unfolding place_first is_present
place_first-present t u [] placed e h = cc
place_first-present t u (s ∷ slots) placed e h = elim (Option-cases (place_first t slots)) [
  | inl full ↦ ground (arith, eq_iff s "", eq_iff u "", eq_iff s u)
  | inr (rest, r) ↦
      let more = place_first-present t u slots rest r h in
      ground (arith, more, eq_iff s "", eq_iff u "", eq_iff s u)
]

place_first-IsOnce :
    (t : String) (slots placed : List String)
    → place_first t slots ≡ some placed
    → (t == "") ≡ false
    → is_present t slots ≡ false
    → IsOnce slots
    → IsOnce placed
unfolding place_first is_present
place_first-IsOnce t [] placed e f h o = cc
place_first-IsOnce t (s ∷ slots) placed e f h o = elim (Option-cases (place_first t slots)) [
  | inl full ↦ ground (arith, eq_iff s "", eq_iff t "", eq_iff s t)
  | inr (rest, r) ↦
      let once = place_first-IsOnce t slots rest r f (ground arith) o.1 in
      ground (
        arith,
        once,
        place_first-present t s slots rest r,
        eq_iff s "",
        eq_iff t "",
        eq_iff s t,
        eq_iff t s,
      )
]

cleared :
    (inv : Map ℤ) (t : String) (gone : Bool)
    → is_gone inv t ≡ gone
    → is_gone inv (if gone then "" else t) ≡ false
unfolding is_gone
cleared inv t true e = refl
cleared inv t false e = e

clear_gone-AllHeld : (inv : Map ℤ) (slots : List String) → AllHeld inv (clear_gone inv slots)
unfolding clear_gone
clear_gone-AllHeld inv [] = tt
clear_gone-AllHeld inv (t ∷ slots) =
    (cleared inv t (is_gone inv t) refl, clear_gone-AllHeld inv slots)

clear_gone-present :
    (inv : Map ℤ) (u : String) (slots : List String)
    → (u == "") ≡ false
    → is_present u (clear_gone inv slots) ≡ true
    → is_present u slots ≡ true
unfolding clear_gone is_present
clear_gone-present inv u [] f h = h
clear_gone-present inv u (t ∷ slots) f h =
    let rest = clear_gone-present inv u slots f in
    elim (Bool-cases (is_gone inv t)) [
      | inl gone ↦ ground (arith, rest, eq_iff "" u, eq_iff u "")
      | inr kept ↦ ground (arith, rest)
    ]

clear_gone-IsOnce :
    (inv : Map ℤ) (slots : List String) → IsOnce slots → IsOnce (clear_gone inv slots)
unfolding clear_gone
clear_gone-IsOnce inv [] o = tt
clear_gone-IsOnce inv (t ∷ slots) o =
    let rest = clear_gone-IsOnce inv slots o.1 in
    elim (Bool-cases (is_gone inv t)) [
      | inl gone ↦ rw gone (refl, rest)
      | inr kept ↦ rw kept (ground (arith, clear_gone-present inv t slots), rest)
    ]

place_first-empty :
    (slots placed : List String) → place_first "" slots ≡ some placed → placed ≡ slots
unfolding place_first
place_first-empty [] placed e = cc
place_first-empty (s ∷ slots) placed e = elim (Option-cases (place_first "" slots)) [
  | inl full ↦ ground (arith, eq_iff s "")
  | inr (rest, r) ↦ ground (arith, eq_iff s "", place_first-empty slots rest r)
]

Covers-more :
    (t : String) (present slots : List String) → Covers present slots → Covers (t ∷ present) slots
unfolding Covers is_present
Covers-more t present slots c u e h = ground (arith, c u e h)

Covers-placed :
    (t : String) (present slots placed : List String)
    → place_first t slots ≡ some placed
    → Covers present slots
    → Covers (t ∷ present) placed
unfolding Covers is_present
Covers-placed t present slots placed e c u f h =
    ground (arith, c u f, place_first-present t u slots placed e f)

-- The types that are not present yet.
not-present :
    (t : String) (present slots : List String)
    → Covers present slots
    → (t == "") ≡ false
    → is_present t present ≡ false
    → is_present t slots ≡ false
unfolding Covers
not-present t present slots c f h = ground (arith, c t f)

placed-IsOnce :
    (t : String) (present slots placed : List String)
    → place_first t slots ≡ some placed
    → Covers present slots
    → is_present t present ≡ false
    → IsOnce slots
    → IsOnce placed
placed-IsOnce t present slots placed e c h o = elim (Bool-cases (t == "")) [
  | inl empty ↦
      let t_empty : t ≡ "" = ground (arith, eq_iff t "") in
      let same =
        place_first-empty slots placed (subst (λ x. place_first x slots ≡ some placed) t_empty e) in
      subst IsOnce (sym same) o
  | inr named ↦ place_first-IsOnce t slots placed e named (not-present t present slots c named h) o
]

place_new-IsOnce :
    (inv : Map ℤ) (present slots : List String)
    → Covers present slots
    → IsOnce slots
    → IsOnce (place_new inv present slots)
unfolding place_new
place_new-IsOnce [] present slots c o = o
place_new-IsOnce ((t, n) ∷ inv) present slots c o =
    elim (Bool-cases (leb_ℤ n (pos 0) || is_present t present)) [
      | inl skips ↦ rw skips (place_new-IsOnce inv present slots c o)
      | inr new ↦
          let h : is_present t present ≡ false = ground arith in
          rw new (elim (Option-cases (place_first t slots)) [
            | inl full ↦ rw full (place_new-IsOnce inv present slots c o)
            | inr (placed, e) ↦ rw e (
                place_new-IsOnce inv (t ∷ present) placed (Covers-placed t present slots placed e c)
                  (placed-IsOnce t present slots placed e c h o))
          ])
    ]

-- After the slots are synchronised with the inventory every slot is empty or holds a type that the
-- inventory has some of; and no type lies in two slots, if none did before.
pub sync_inv_slots-IsOnce :
    (inv : Map ℤ) (slots : List String)
    → IsOnce slots
    → IsOnce (sync_inv_slots inv slots) × AllHeld inv (sync_inv_slots inv slots)
unfolding sync_inv_slots
sync_inv_slots-IsOnce inv slots o =
    let placed = place_new inv (types_in slots) slots in
    (
      clear_gone-IsOnce inv placed
          (place_new-IsOnce inv (types_in slots) slots (types_in-Covers slots) o),
      clear_gone-AllHeld inv placed,
    )
