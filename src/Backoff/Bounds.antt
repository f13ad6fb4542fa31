-- ===== src/Backoff/Bounds.antt =====
-- What `exponential` returns: a closed form, its range and its growth, and where `int64` overflows.
use native.Mathlib.Nat.{pow-suc, one-le-pow, mul-le-mul_left, pow-le-pow_right}
use fngo.Prelude.{
  ℕ, zero, suc, ◌+◌, ◌-◌, ◌*◌, ◌^◌, ◌≤◌, ◌<◌, min, ◌≡◌, refl, ap, arith, inl, inr, Bool-cases, leb,
}
use fngo.Prelude.Int.{pos, negsuc, pos_part, ◌≤ℤ◌, ◌<ℤ◌, wrap64-pos, wrap64-over, +ℤ-pos}
use fngo.Backoff.{Duration, min_of, max_of, double, doubling, exponential}

double-pos : (d : ℕ) → d < 2 ^ 62 → double (pos d) ≡ pos (d + d)
unfolding double
double-pos d h = rw +ℤ-pos (wrap64-pos (d + d) (omega arith))

double-over : (d : ℕ) → 2 ^ 62 ≤ d → d < 2 ^ 63 → double (pos d) ≡ negsuc (2 ^ 64 - 1 - (d + d))
unfolding double
double-over d h k = rw +ℤ-pos (wrap64-over (d + d) (omega arith) (omega arith))

twice_pow : (d n : ℕ) → (d + d) * 2 ^ n ≡ d * 2 ^ suc n
twice_pow d n = rw (pow-suc 2 n) (grind arith)

double-le-pow : (d n : ℕ) → d + d ≤ d * 2 ^ suc n
double-le-pow d n = rw (← twice_pow d n) (grind (arith, one-le-pow n 2))

doubling-eq-min :
    (n d hi : ℕ) → d ≤ hi → hi < 2 ^ 62 → doubling n (pos d) (pos hi) ≡ pos (min (d * 2 ^ n) hi)
unfolding doubling
doubling-eq-min zero d hi h k = ap pos (omega arith)
doubling-eq-min (suc n) d hi h k =
    rw (double-pos d (omega arith)) (elim (Bool-cases (leb hi (d + d))) [
      | inl past ↦ ground (arith, double-le-pow d n)
      | inr below ↦ ground (arith, doubling-eq-min n (d + d) hi, twice_pow d n)
    ])

min_of-nonneg : (lo : Duration) → min_of lo ≡ pos (pos_part (min_of lo))
unfolding min_of
min_of-nonneg lo = ground arith

max_of-nonneg : (lo hi : Duration) → max_of lo hi ≡ pos (pos_part (max_of lo hi))
unfolding max_of
max_of-nonneg lo hi = ground arith

pub min_of-pos : (lo : Duration) → 0 < pos_part (min_of lo)
unfolding min_of
min_of-pos lo = ground arith

pub min_of-le-max_of : (lo hi : Duration) → pos_part (min_of lo) ≤ pos_part (max_of lo hi)
unfolding max_of
min_of-le-max_of lo hi = ground arith

exponential-eq-doubling :
    (n : ℕ) (lo hi : Duration) → exponential (pos n) lo hi ≡ doubling n (min_of lo) (max_of lo hi)
unfolding exponential
exponential-eq-doubling zero lo hi = refl
exponential-eq-doubling (suc n) lo hi = ground arith

-- For a maximum below 2 ^ 62 ns, the delay of attempt n is the minimum times 2 ^ n, capped at the
-- maximum, the two being the settings after their defaults.
pub exponential-eq-min :
    (n : ℕ) (lo hi : Duration)
    → pos_part (max_of lo hi) < 2 ^ 62
    → exponential (pos n) lo hi ≡ pos (min (pos_part (min_of lo) * 2 ^ n) (pos_part (max_of lo hi)))
exponential-eq-min n lo hi h =
    rw (exponential-eq-doubling, min_of-nonneg lo, max_of-nonneg lo hi)
      (doubling-eq-min n _ _ (min_of-le-max_of lo hi) h)

min-pow_mono : (a b m n : ℕ) → m ≤ n → min (a * 2 ^ m) b ≤ min (a * 2 ^ n) b
min-pow_mono a b m n h = omega (arith, mul-le-mul_left a (pow-le-pow_right {n = 2} (omega arith) h))

pow-bounds :
    (a b n : ℕ)
    → 0 < a
    → a ≤ b
    → (0 < min (a * 2 ^ n) b) × (a ≤ min (a * 2 ^ n) b) × (min (a * 2 ^ n) b ≤ b)
pow-bounds a b n h k =
    let grows : a * 1 ≤ a * 2 ^ n = mul-le-mul_left a (one-le-pow n 2 (omega arith)) in omega arith

-- For a maximum below 2 ^ 62 ns, a later attempt never waits less, and every delay is positive and
-- lies between the minimum and the maximum, the two being the settings after their defaults.
pub exponential_mono :
    (m n : ℕ) (lo hi : Duration)
    → m ≤ n
    → pos_part (max_of lo hi) < 2 ^ 62
    → (exponential (pos m) lo hi ≤ℤ exponential (pos n) lo hi)
      × (pos 0 <ℤ exponential (pos m) lo hi)
      × (min_of lo ≤ℤ exponential (pos m) lo hi)
      × (exponential (pos m) lo hi ≤ℤ max_of lo hi)
exponential_mono m n lo hi h k =
    rw
      (
        exponential-eq-min m lo hi k,
        exponential-eq-min n lo hi k,
        min_of-nonneg lo,
        max_of-nonneg lo hi,
      )
      (omega (
        arith,
        min-pow_mono (pos_part (min_of lo)) (pos_part (max_of lo hi)) m n h,
        pow-bounds _ _ m (min_of-pos lo) (min_of-le-max_of lo hi),
      ))

min_of-large : (lo : ℕ) → 2 ^ 62 ≤ lo → min_of (pos lo) ≡ pos lo
unfolding min_of
min_of-large lo h = ground arith

max_of-large :
    (lo : ℕ) (hi : Duration)
    → 2 ^ 62 ≤ lo
    → lo < 2 ^ 63
    → pos_part hi < 2 ^ 63
    → (m : ℕ) × (max_of (pos lo) hi ≡ pos m) × (m < 2 ^ 63)
unfolding max_of min_of
max_of-large lo hi h k l = (pos_part (max_of (pos lo) hi), max_of-nonneg (pos lo) hi, ground arith)

-- From a minimum of 2 ^ 62 ns on, and whatever the maximum is (both within an int64), the first
-- doubling wraps around: attempt 1 returns a negative delay.
pub exponential_overflow :
    (lo : ℕ) (hi : Duration)
    → 2 ^ 62 ≤ lo
    → lo < 2 ^ 63
    → pos_part hi < 2 ^ 63
    → exponential (pos 1) (pos lo) hi <ℤ pos 0
unfolding doubling
exponential_overflow lo hi h k l =
    let (m, e, b) = max_of-large lo hi h k l in
    rw (exponential-eq-doubling, min_of-large lo h, e)
      (rw (double-over lo h k, doubling) (ground arith))
