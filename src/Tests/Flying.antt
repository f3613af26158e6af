-- ===== src/Tests/Flying.antt =====
-- A flight from the ground into free flight and back, at concrete inputs. The floats are hundredths,
-- fine enough to tell 89 degrees from 90.
use lodeen.Base.{if◌then◌else◌}
use lodeen.Base.Int.{ℤ, pos, negsuc, leb_ℤ}
use lodeen.Base.Float.{Float}
use lodeen.Tests.Energy.{hundredth_ops, hundredths}
use lodeen.Tests.GameSample.{int_raylib}

-- An arc sine: exact at -1, 0 and 1.
abbrev steep : ℤ → ℤ
steep s = if leb_ℤ (pos 100) s then pos 157 else if leb_ℤ s (negsuc 99) then negsuc 156 else s

instance abbrev fine : Float ℤ
fine = record hundredths { wide = record hundredth_ops { asin = steep } }
