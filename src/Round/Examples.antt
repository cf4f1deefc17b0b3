-- ===== src/Round/Examples.antt =====
-- The theorems of internal/round/size.go at concrete sizes.
use ceph_provider.Prelude.{◌*◌, ◌+◌, ◌%◌, ◌≤◌, ◌<◌, ◌≡◌, arith, ltb, if◌then◌else◌}
use ceph_provider.Round.{gib, mib, off_bytes}
use ceph_provider.Round.Bounds.{off_bytes_bounds, off_bytes-mod, off_bytes_short}

off_bytes_bounds_example :
    (1572864 ≤ off_bytes 1572864)
    × (off_bytes 1572864 < 1572864 + (if ltb 1572864 gib then mib else gib))
off_bytes_bounds_example = off_bytes_bounds 1572864 (omega arith)

off_bytes-mod_example : off_bytes 1572864 % mib ≡ 0
off_bytes-mod_example = off_bytes-mod 1572864

off_bytes_short_example : off_bytes (8388608 * gib + 1) < 8388608 * gib + 1
off_bytes_short_example = off_bytes_short 8388608 (omega arith) (omega arith)
