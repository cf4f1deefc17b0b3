-- ===== src/Limits.antt =====
-- internal/limits/calc.go: the limits of an image, int64 arithmetic with wrap-around.

pub mod Bursts
mod Examples
use ceph_provider.Prelude.{ℕ, [], insert}
use ceph_provider.Prelude.Words.{mul_64}
use ceph_provider.Api.{
  Limits, iops_limit, iops_burst_limit, iops_burst_duration_limit, read_iops_limit,
  read_iops_burst_limit, write_iops_limit, write_iops_burst_limit, bps_limit, bps_burst_limit,
  bps_burst_duration_limit, read_bps_limit, read_bps_burst_limit, write_bps_limit,
  write_bps_burst_limit,
}

abbrev pub scale : ℕ
scale = 1

-- The IOPS half of Calculate, and then the TPS half, on the map that the first has filled.
unfoldable pub add_iops : ℕ → ℕ → ℕ → Limits → Limits
add_iops iops burst duration limits = insert iops_burst_duration_limit duration (
    insert write_iops_burst_limit burst (
      insert read_iops_burst_limit burst (
        insert iops_burst_limit burst (
          insert write_iops_limit iops
            (insert read_iops_limit iops (insert iops_limit iops limits))))))

unfoldable pub add_tps : ℕ → ℕ → ℕ → Limits → Limits
add_tps tps burst duration limits = insert bps_burst_duration_limit duration (
    insert write_bps_burst_limit burst (
      insert read_bps_burst_limit burst (
        insert bps_burst_limit burst
          (insert write_bps_limit tps (insert read_bps_limit tps (insert bps_limit tps limits))))))

unfoldable pub calculate : ℕ → ℕ → ℕ → ℕ → Limits
unfolding add_iops add_tps
calculate iops tps burst_factor burst_duration_in_seconds =
    let scaled_iops = mul_64 iops scale in
    let scaled_tps = mul_64 tps scale in
    add_tps scaled_tps (mul_64 burst_factor scaled_tps) burst_duration_in_seconds
      (add_iops scaled_iops (mul_64 burst_factor scaled_iops) burst_duration_in_seconds [])
