-- ===== src/Client/App/Factory.antt =====
-- How the factory's window writes a number: `itoa` of internal/client/app/factory.go.
pub mod Digits
use lodeen.Base.{ℕ, zero, suc, ◌-◌, ◌/◌, ◌%◌, List, [], ◌∷◌, ltb, if◌then◌else◌}
use lodeen.Base.Int.{ℤ, pos, negsuc, int_bound}
use Prim.Native.Char.{Char}

-- `byte('0' + d)` for a digit `d`.
unfoldable pub digit : ℕ → Char
digit zero = "0"
digit (suc zero) = "1"
digit (suc (suc zero)) = "2"
digit (suc (suc (suc zero))) = "3"
digit (suc (suc (suc (suc zero)))) = "4"
digit (suc (suc (suc (suc (suc zero))))) = "5"
digit (suc (suc (suc (suc (suc (suc zero)))))) = "6"
digit (suc (suc (suc (suc (suc (suc (suc zero))))))) = "7"
digit (suc (suc (suc (suc (suc (suc (suc (suc zero)))))))) = "8"
digit _ = "9"

-- The loop that fills the buffer from its end, in front of `written`; `room` is what is left of its
-- 20 bytes.
unfoldable pub fill : ℕ → ℕ → List Char → List Char
unfolding digit
fill zero n written = written
fill (suc room) n written =
    let rest = fill room (n / 10) (digit (n % 10) ∷ written) in if ltb 0 n then rest else written

-- The least int is its own negation, so that the loop is not entered for it.
unfoldable pub itoa : ℤ → List Char
unfolding fill
itoa (pos zero) = "0" ∷ []
itoa (pos (suc n)) = fill 20 (suc n) []
itoa (negsuc n) = "-" ∷ (if ltb n (int_bound - 1) then fill 20 (suc n) [] else [])
