-- ===== src/Limits/Examples.antt =====
-- The limits of a small class.
use ceph_provider.Prelude.{◌≡◌, some, lookup, arith}
use ceph_provider.Api.{
  iops_limit, read_iops_limit, write_iops_limit, iops_burst_limit, read_iops_burst_limit,
  write_iops_burst_limit, bps_limit, read_bps_limit, write_bps_limit, bps_burst_limit,
  read_bps_burst_limit, write_bps_burst_limit,
}
use ceph_provider.Limits.{calculate}
use ceph_provider.Limits.Bursts.{calculate_exact}

calculate_exact_example :
    let limits = calculate 100 2000 10 15 in
    (lookup iops_limit limits ≡ some 100)
    × (lookup read_iops_limit limits ≡ some 100)
    × (lookup write_iops_limit limits ≡ some 100)
    × (lookup iops_burst_limit limits ≡ some 1000)
    × (lookup read_iops_burst_limit limits ≡ some 1000)
    × (lookup write_iops_burst_limit limits ≡ some 1000)
    × (lookup bps_limit limits ≡ some 2000)
    × (lookup read_bps_limit limits ≡ some 2000)
    × (lookup write_bps_limit limits ≡ some 2000)
    × (lookup bps_burst_limit limits ≡ some 20000)
    × (lookup read_bps_burst_limit limits ≡ some 20000)
    × (lookup write_bps_burst_limit limits ≡ some 20000)
calculate_exact_example =
    calculate_exact 100 2000 10 15 (omega arith) (omega arith) (omega arith) (omega arith)
