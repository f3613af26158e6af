-- ===== src/Server/Time.antt =====
-- Go's `time.Time` as nanoseconds since its zero value, and `time.Duration`.
use lodeen.Base.{ℕ, ◌-◌, ◌*◌, ◌/◌, ◌≤◌, ◌<◌, ◌≡◌, arith, if◌then◌else◌}
use lodeen.Base.Int.{ℤ, pos, negsuc, sub_ℕ, ltb_ℤ, int_bound}

-- `t.Sub(u)`, which stops at the least and the greatest duration.
unfoldable pub time_sub : ℕ → ℕ → ℤ
time_sub t u =
    let d = sub_ℕ t u in
    if ltb_ℤ (pos (int_bound - 1)) d
    then pos (int_bound - 1)
    else if ltb_ℤ d (negsuc (int_bound - 1))
    then negsuc (int_bound - 1)
    else d

abbrev pub millisecond : ℕ
millisecond = 1000000

abbrev pub second : ℕ
second = 1000000000

-- The seconds from year 1 to 1970.
abbrev pub unix_epoch : ℕ
unix_epoch = 62135596800

-- `t.UnixMilli()`; a time before 1970, which no clock here shows, counts as 1970.
unfoldable pub unix_milli : ℕ → ℕ
unix_milli t = (t - unix_epoch * second) / millisecond

-- Within some 292 years the difference of two times in order is exact.
pub time_sub-eq : (t u : ℕ) → u ≤ t → t - u < int_bound → time_sub t u ≡ pos (t - u)
unfolding time_sub
time_sub-eq t u h k = ground arith

pub unix_milli_mono : (t u : ℕ) → t ≤ u → unix_milli t ≤ unix_milli u
unfolding unix_milli
unix_milli_mono t u h = omega arith
