-- ===== src/Backoff.antt =====
-- internal/backoff/backoff.go. Durations are nanoseconds in an `int64`.
pub mod Bounds
use fngo.Prelude.{ℕ, zero, suc, if◌then◌else◌}
use fngo.Prelude.Int.{ℤ, pos, negsuc, ◌+ℤ◌, ltb_ℤ, leb_ℤ, wrap64}

abbrev pub Duration : Type 0
Duration = ℤ

abbrev pub millisecond : ℕ
millisecond = 1000000

abbrev pub second : ℕ
second = 1000000000

-- a setting that is not positive gives way to its default
abbrev pub positive_or : Duration → Duration → Duration
positive_or d default_delay = if leb_ℤ d (pos 0) then default_delay else d

-- a maximum below the minimum is raised to it
abbrev pub at_least : Duration → Duration → Duration
at_least lo hi = if ltb_ℤ hi lo then lo else hi

unfoldable pub min_of : Duration → Duration
min_of lo = positive_or lo (pos 100000000)

unfoldable pub max_of : Duration → Duration → Duration
unfolding min_of
max_of lo hi = at_least (min_of lo) (positive_or hi (pos 5000000000))

-- delay *= 2, in an int64
double : Duration → Duration
double d = wrap64 (d +ℤ d)

-- the loop, with the rounds left
doubling : ℕ → Duration → Duration → Duration
unfolding double
doubling zero delay hi = delay
doubling (suc n) delay hi =
    let next = double delay in let rest = doubling n next hi in if leb_ℤ hi next then hi else rest

rounds : ℤ → ℕ
rounds (pos n) = n
rounds (negsuc n) = 0

unfoldable pub exponential : ℤ → Duration → Duration → Duration
unfolding doubling rounds
exponential attempt lo hi =
    if leb_ℤ attempt (pos 0)
    then min_of lo
    else doubling (rounds attempt) (min_of lo) (max_of lo hi)
