-- ===== src/GoTime.antt =====
-- The parts of Go's `time` package that the program uses: instants, as nanoseconds from the zero
-- time (January 1 of year 1, UTC), and `IsZero`. UTC() changes no instant.
use fngo.Prelude.{zero, Bool, true, false, ◌/◌, ◌+◌}
use fngo.Prelude.Int.{ℤ, pos, negsuc, ◌-ℤ◌}

abbrev pub Time : Type 0
Time = ℤ

abbrev pub zero_time : Time
zero_time = pos 0

-- t.IsZero()
abbrev pub is_zero : Time → Bool
is_zero (pos zero) = true
is_zero _ = false

-- t.Unix(): the seconds from 1970, rounded down
unfoldable pub unix : Time → ℤ
unix (pos n) = pos (n / 1000000000) -ℤ pos 62135596800
unix (negsuc n) = pos 0 -ℤ pos (n / 1000000000 + 62135596801)
