-- ===== src/Round.antt =====
-- internal/round/size.go: the size of an rbd image for a requested size. uint64 is a number below
-- 2 ^ 64, and the conversion of one to float64 keeps 53 significant bits, rounding half to even.
-- A float64 that holds an integer is that integer; its quotient by a power of two is exact, so that
-- the ceiling of the quotient is the quotient of integers rounded up.
pub mod Bounds
mod Examples
use ceph_provider.Prelude.{
  refl, ◌≡◌, ℕ, zero, suc, ◌+◌, ◌-◌, ◌*◌, ◌/◌, ◌%◌, ◌^◌, ltb, ◌==◌, if◌then◌else◌, ◌||◌, ◌&&◌, Bool,
}
use ceph_provider.Prelude.Words.{two_64, mul_64}

abbrev pub gib : ℕ
gib = 1024 * 1024 * 1024

abbrev pub mib : ℕ
mib = 1024 * 1024

-- The multiple of `unit` that is nearest to `n`; of two, the one that is even in units.
unfoldable pub nearest : ℕ → ℕ → ℕ
nearest unit n =
    let q = n / unit in
    let r = n % unit in
    if ltb unit (2 * r) || (2 * r == unit && q % 2 == 1) then (q + 1) * unit else q * unit

-- Below 2 ^ (53 + k) a float64 has the multiples of 2 ^ k, so each step doubles the unit: `k` is the
-- number of doublings left, and 11 of them reach 2 ^ 64.
unfoldable pub to_float_from : ℕ → ℕ → ℕ → ℕ
unfolding nearest
to_float_from zero unit n = nearest unit n
to_float_from (suc k) unit n =
    let rest = to_float_from k (2 * unit) n in
    if ltb n (2 ^ 53 * unit) then nearest unit n else rest

-- float64(n)
unfoldable pub float64 : ℕ → ℕ
unfolding to_float_from
float64 n = to_float_from 11 1 n

-- uint64(math.Ceil(x / unit)), for a quotient that a uint64 holds
unfoldable pub ceil_div : ℕ → ℕ → ℕ
ceil_div x unit = (x + (unit - 1)) / unit

unfoldable pub off_bytes : ℕ → ℕ
unfolding float64 ceil_div
off_bytes bytes =
    let float_bytes = float64 bytes in
    if ltb float_bytes gib
    then mul_64 (ceil_div float_bytes mib) mib
    else mul_64 (ceil_div float_bytes gib) gib
