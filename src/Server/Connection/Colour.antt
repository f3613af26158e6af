-- ===== src/Server/Connection/Colour.antt =====
-- A colour is `#` and six hexadecimal digits in lower case, or nothing.
use lodeen.Base.{
  ℕ, ◌≤◌, ◌≡◌, ◌≢◌, refl, true, List, [], ◌∷◌, map, ◌⊎◌, inl, inr, arith, All, length,
}
use lodeen.Base.Float.{Float}
use lodeen.Protocol.Messages.{Hello, PlayerState}
use lodeen.Server.Client.{state_of, set_color_hex, set_state}
use lodeen.Server.Connection.{is_hex, all_hex, to_lower, sanitize_color_hex, perform_hello}
use lodeen.Server.Items.{handle_state}
use lodeen.Server.Snapshot.{show_player}
use lodeen.Server.State.{Client}

-- A byte that may stand in a stored colour.
abbrev pub IsLowerHex : ℕ → Type 0
IsLowerHex c = ((b'0' ≤ c) × (c ≤ b'9')) ⊎ ((b'a' ≤ c) × (c ≤ b'f'))

abbrev pub IsHex : ℕ → Type 0
IsHex c = is_hex c ≡ true

-- Nothing, or `#` and six digits in lower case.
abbrev pub IsClean : List ℕ → Type 0
IsClean s = (s ≡ []) ⊎ ((cs : List ℕ) × (s ≡ b'#' ∷ cs) × (length cs ≡ 6) × All IsLowerHex cs)

all_hex-All : (cs : List ℕ) → all_hex cs ≡ true → All IsHex cs
unfolding all_hex
all_hex-All [] h = tt
all_hex-All (c ∷ cs) h = ground (arith, all_hex-All cs)

All-all_hex : (cs : List ℕ) → All IsHex cs → all_hex cs ≡ true
unfolding all_hex
All-all_hex [] h = refl
All-all_hex (c ∷ cs) h = ground (arith, All-all_hex cs h.1)

to_lower-IsLowerHex : (c : ℕ) → IsHex c → IsLowerHex (to_lower c)
unfolding is_hex to_lower
to_lower-IsLowerHex c h = ground arith

map-IsLowerHex : (cs : List ℕ) → All IsHex cs → All IsLowerHex (map to_lower cs)
map-IsLowerHex [] h = tt
map-IsLowerHex (c ∷ cs) h = (to_lower-IsLowerHex c h.0, map-IsLowerHex cs h.1)

IsLowerHex-fixed : (c : ℕ) → IsLowerHex c → IsHex c × (to_lower c ≡ c)
unfolding is_hex to_lower
IsLowerHex-fixed c h = ground arith

map-to_lower-fixed : (cs : List ℕ) → All IsLowerHex cs → All IsHex cs × (map to_lower cs ≡ cs)
map-to_lower-fixed [] h = (tt, refl)
map-to_lower-fixed (c ∷ cs) h = ground (arith, IsLowerHex-fixed c h.0, map-to_lower-fixed cs h.1)

length-map : (f : ℕ → ℕ) (cs : List ℕ) → length (map f cs) ≡ length cs
length-map f [] = refl
length-map f (c ∷ cs) = omega (arith, length-map f cs)

to_lower-hash : to_lower b'#' ≡ b'#'
unfolding to_lower
to_lower-hash = refl

-- `#` and six hexadecimal digits are accepted, in lower case.
pub sanitize_color_hex-accepts :
    (cs : List ℕ)
    → length cs ≡ 6
    → All IsHex cs
    → sanitize_color_hex (b'#' ∷ cs) ≡ b'#' ∷ map to_lower cs
unfolding sanitize_color_hex
sanitize_color_hex-accepts cs l h = ground (arith, All-all_hex cs h, to_lower-hash)

-- What is accepted is `#` and six hexadecimal digits.
pub sanitize_color_hex-only :
    (s : List ℕ)
    → sanitize_color_hex s ≢ []
    → (cs : List ℕ) × (s ≡ b'#' ∷ cs) × (length cs ≡ 6) × All IsHex cs
unfolding sanitize_color_hex
sanitize_color_hex-only [] ne = absurd (ne refl)
sanitize_color_hex-only (c ∷ s) ne =
    (s, ground (arith, ne), ground (arith, ne), ground (arith, ne, all_hex-All s))

IsClean-fixed : (s : List ℕ) → IsClean s → sanitize_color_hex s ≡ s
unfolding sanitize_color_hex
IsClean-fixed s (inl e) = rw e
IsClean-fixed s (inr (cs, e, l, h)) = rw e (
    ground
      (arith, map-to_lower-fixed cs h, All-all_hex cs (map-to_lower-fixed cs h).0, to_lower-hash))

-- What is left of a colour is `#` and six digits in lower case, or nothing.
pub sanitize_color_hex-IsClean : (s : List ℕ) → IsClean (sanitize_color_hex s)
unfolding sanitize_color_hex
sanitize_color_hex-IsClean [] = inl refl
sanitize_color_hex-IsClean (c ∷ s) =
    ground (arith, to_lower-hash, length-map to_lower s, map-IsLowerHex s, all_hex-All s)

-- To sanitize what is stored again changes nothing.
sanitize_color_hex_idempotent :
    (s : List ℕ) → sanitize_color_hex (sanitize_color_hex s) ≡ sanitize_color_hex s
sanitize_color_hex_idempotent s =
    IsClean-fixed (sanitize_color_hex s) (sanitize_color_hex-IsClean s)

module _ {F : Type 0} ⦃fl : Float F⦄ where
  -- Whatever a client sends as its hello and then as its state, the colour that the server stores
  -- and shows of it is `#` and six digits in lower case, or nothing.
  pub perform_hello-IsClean :
      (h : Hello) (st : PlayerState F) (c : Client F)
      → IsClean (perform_hello h c).color_hex
        × IsClean (show_player (perform_hello h c)).color_hex
        × IsClean (show_player (handle_state st (perform_hello h c))).color_hex
        × IsClean (handle_state st (perform_hello h c)).state.color_hex
  unfolding perform_hello set_color_hex set_state show_player state_of handle_state
  perform_hello-IsClean h st c =
      let clean = sanitize_color_hex-IsClean h.color_hex in (clean, clean, clean, clean)
