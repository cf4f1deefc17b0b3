-- ===== src/Limits/Bursts.antt =====
-- What internal/limits/calc.go gives for each limit.
use ceph_provider.Prelude.{ℕ, ◌*◌, ◌<◌, ◌%◌, ◌≡◌, refl, some, arith, lookup, insert}
use ceph_provider.Prelude.Words.{two_63, two_64}
use ceph_provider.Api.{
  iops_limit, iops_burst_limit, read_iops_limit, write_iops_limit, bps_limit, bps_burst_limit,
  read_iops_burst_limit, write_iops_burst_limit, write_bps_limit, read_bps_limit,
  read_bps_burst_limit, write_bps_burst_limit,
}
use ceph_provider.Limits.{calculate}

-- Where no product overflows an int64, the total, the read and the write limit of a class are its
-- own value, and each burst limit is that value times the burst factor.
pub calculate_exact :
    (iops tps factor duration : ℕ)
    → iops < two_63
    → tps < two_63
    → factor * iops < two_63
    → factor * tps < two_63
    → let limits = calculate iops tps factor duration in
      (lookup iops_limit limits ≡ some iops)
      × (lookup read_iops_limit limits ≡ some iops)
      × (lookup write_iops_limit limits ≡ some iops)
      × (lookup iops_burst_limit limits ≡ some (factor * iops))
      × (lookup read_iops_burst_limit limits ≡ some (factor * iops))
      × (lookup write_iops_burst_limit limits ≡ some (factor * iops))
      × (lookup bps_limit limits ≡ some tps)
      × (lookup read_bps_limit limits ≡ some tps)
      × (lookup write_bps_limit limits ≡ some tps)
      × (lookup bps_burst_limit limits ≡ some (factor * tps))
      × (lookup read_bps_burst_limit limits ≡ some (factor * tps))
      × (lookup write_bps_burst_limit limits ≡ some (factor * tps))
unfolding calculate lookup insert
calculate_exact iops tps factor duration a b c d =
    rw (scaled iops a, scaled tps b)
      (rw (fits (factor * iops) c, fits (factor * tps) d)
        (refl, refl, refl, refl, refl, refl, refl, refl, refl, refl, refl, refl))
  where
    scaled : (n : ℕ) → n < two_63 → (n * 1) % two_64 ≡ n
    scaled n h = omega arith

    fits : (n : ℕ) → n < two_63 → n % two_64 ≡ n
    fits n h = omega arith
