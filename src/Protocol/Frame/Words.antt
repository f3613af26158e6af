-- ===== src/Protocol/Frame/Words.antt =====
-- The header of a frame: four bytes that give back the length.
use lodeen.Base.{ℕ, ◌<◌, ◌≡◌, refl, ap, List, [], ◌∷◌, ◌++◌, arith, length, take, drop, All}
use lodeen.Protocol.Frame.{put_uint32, uint32}

abbrev pub IsByte : ℕ → Type 0
IsByte b = b < 256

pub length-put_uint32 : (v : ℕ) → length (put_uint32 v) ≡ 4
unfolding put_uint32
length-put_uint32 v = refl

pub put_uint32-IsByte : (v : ℕ) → All IsByte (put_uint32 v)
unfolding put_uint32
put_uint32-IsByte v = omega arith

-- A length below 2^32 survives.
pub uint32-put_uint32 : (v : ℕ) → v < 4294967296 → uint32 (put_uint32 v) ≡ v
unfolding put_uint32 uint32
uint32-put_uint32 v h = omega arith

-- Four bytes are what their number is written as.
pub put_uint32-uint32 :
    (a b c d : ℕ)
    → All IsByte (a ∷ b ∷ c ∷ d ∷ [])
    → put_uint32 (uint32 (a ∷ b ∷ c ∷ d ∷ [])) ≡ a ∷ b ∷ c ∷ d ∷ []
unfolding put_uint32 uint32
put_uint32-uint32 a b c d h = ground arith

pub take-append_self {ℓ} : {A : Type ℓ} (xs ys : List A) → take (length xs) (xs ++ ys) ≡ xs
take-append_self [] ys = refl
take-append_self (x ∷ xs) ys = ap (◌∷◌ x) (take-append_self xs ys)

pub drop-append_self {ℓ} : {A : Type ℓ} (xs ys : List A) → drop (length xs) (xs ++ ys) ≡ ys
drop-append_self [] ys = refl
drop-append_self (x ∷ xs) ys = drop-append_self xs ys
