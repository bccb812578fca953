-- ===== src/Time.antt =====
-- time.Time and time.Duration, as far as the source uses them.
-- A `Time` is the nanoseconds since Go's zero time, so that `IsZero` is a test for 0 and the times
-- before the year 1 are left out. A `Duration` is an int64 of nanoseconds, here an integer.
use internal_jwt_handling.Base.{ℕ, ◌+◌, ◌-◌, ◌*◌, Bool, false, min, leb, ltb, nat_eq, if◌then◌else◌}
use internal_jwt_handling.Base.Int.{ℤ, pos, negsuc, pos_part, neg_part}

abbrev pub Time : Type 0
Time = ℕ

abbrev pub Duration : Type 0
Duration = ℤ

abbrev pub zero_time : Time
zero_time = 0

abbrev pub is_zero : Time → Bool
is_zero t = nat_eq t zero_time

abbrev pub millisecond : ℕ
millisecond = 1000000

abbrev pub second : ℕ
second = 1000000000

abbrev pub minute : ℕ
minute = 60 * second

-- `t.Before(u)` and `t.After(u)`.
abbrev pub before : Time → Time → Bool
before t u = ltb t u

abbrev pub after : Time → Time → Bool
after t u = ltb u t

-- `t.Add(d)`; a sum before the zero time, which no caller reaches, would be cut there.
abbrev pub add : Time → Duration → Time
add t d = t + pos_part d - neg_part d

-- The greatest int64.
abbrev pub max_duration : ℕ
max_duration = 9223372036854775807

-- `t.Sub(u)`, which saturates at the ends of int64.
abbrev pub sub : Time → Time → Duration
sub t u = if leb u t then pos (min (t - u) max_duration) else negsuc (min (u - t - 1) max_duration)

-- `d == 0`
abbrev pub is_zero_duration : Duration → Bool
is_zero_duration (pos n) = nat_eq n 0
is_zero_duration (negsuc n) = false
