-- ===== src/Tests/Delays.antt =====
-- internal/backoff/backoff.go at concrete settings.
use fngo.Prelude.{◌*◌, ◌^◌, ◌≡◌, arith, min}
use fngo.Prelude.Int.{pos, pos_part, ◌≤ℤ◌, ◌<ℤ◌}
use fngo.Backoff.{exponential, min_of, max_of}
use fngo.Backoff.Bounds.{exponential-eq-min, exponential_mono, exponential_overflow}

exponential-eq-min_example :
    exponential (pos 3) (pos 100) (pos 1000)
    ≡ pos (min (pos_part (min_of (pos 100)) * 2 ^ 3) (pos_part (max_of (pos 100) (pos 1000))))
unfolding max_of
exponential-eq-min_example = exponential-eq-min 3 (pos 100) (pos 1000) (omega arith)

exponential_mono_example :
    (exponential (pos 1) (pos 100) (pos 1000) ≤ℤ exponential (pos 2) (pos 100) (pos 1000))
    × (pos 0 <ℤ exponential (pos 1) (pos 100) (pos 1000))
    × (min_of (pos 100) ≤ℤ exponential (pos 1) (pos 100) (pos 1000))
    × (exponential (pos 1) (pos 100) (pos 1000) ≤ℤ max_of (pos 100) (pos 1000))
unfolding max_of
exponential_mono_example = exponential_mono 1 2 (pos 100) (pos 1000) (omega arith) (omega arith)

exponential_overflow_example : exponential (pos 1) (pos 5000000000000000000) (pos 0) <ℤ pos 0
exponential_overflow_example =
    exponential_overflow 5000000000000000000 (pos 0) (omega arith) (omega arith) (omega arith)
