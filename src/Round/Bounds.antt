-- ===== src/Round/Bounds.antt =====
-- The sizes that internal/round/size.go gives, against the sizes that were asked for.
use ceph_provider.Prelude.{
  ℕ, zero, suc, ◌+◌, ◌-◌, ◌*◌, ◌/◌, ◌%◌, ◌^◌, ◌≤◌, ◌<◌, ◌≡◌, refl, arith, ltb, if◌then◌else◌,
}
use ceph_provider.Round.{gib, mib, nearest, to_float_from, float64, off_bytes}

nearest_one : (n : ℕ) → nearest 1 n ≡ n
unfolding nearest
nearest_one n = ground arith

to_float_from_small : (k unit n : ℕ) → n < 2 ^ 53 * unit → to_float_from k unit n ≡ nearest unit n
unfolding to_float_from
to_float_from_small zero unit n h = refl
to_float_from_small (suc k) unit n h = ground arith

-- A float64 holds each integer up to 2 ^ 53.
float64_exact : (n : ℕ) → n < 2 ^ 53 → float64 n ≡ n
unfolding float64
float64_exact n h = ground (arith, to_float_from_small 11 1 n, nearest_one n)

abbrev round_up : ℕ → ℕ
round_up x = if ltb x gib then (x + (mib - 1)) / mib * mib else (x + (gib - 1)) / gib * gib

off_bytes-round_up : (b : ℕ) → b < 2 ^ 53 → off_bytes b ≡ round_up b
unfolding off_bytes
off_bytes-round_up b h = ground (arith, float64_exact b h)

-- An image holds at least the bytes that were asked for, and less than a MiB more below a GiB,
-- less than a GiB more from there on; up to 2 ^ 53 bytes.
pub off_bytes_bounds :
    (b : ℕ) → b < 2 ^ 53 → (b ≤ off_bytes b) × (off_bytes b < b + (if ltb b gib then mib else gib))
off_bytes_bounds b h = ground (arith, off_bytes-round_up b h)

-- Every size is a whole number of MiB, for every uint64.
pub off_bytes-mod : (b : ℕ) → off_bytes b % mib ≡ 0
unfolding off_bytes
off_bytes-mod b = ground arith

-- A larger request never gets a smaller image, up to 2 ^ 53 bytes.
off_bytes_mono : (a b : ℕ) → a ≤ b → b < 2 ^ 53 → off_bytes a ≤ off_bytes b
off_bytes_mono a b h k = ground (arith, off_bytes-round_up a, off_bytes-round_up b k)

-- A size that has been rounded is not rounded again, below 2 ^ 52 bytes.
off_bytes_idem : (b : ℕ) → b < 2 ^ 52 → off_bytes (off_bytes b) ≡ off_bytes b
off_bytes_idem b h = ground (arith, off_bytes-round_up b, off_bytes-round_up (off_bytes b))

double :
    (k unit n m : ℕ)
    → nearest unit n ≡ m
    → to_float_from k (2 * unit) n ≡ m
    → to_float_from (suc k) unit n ≡ m
unfolding to_float_from
double k unit n m h r = ground arith

skip :
    (k unit n m : ℕ)
    → 2 ^ 53 * unit ≤ n
    → to_float_from k (2 * unit) n ≡ m
    → to_float_from (suc k) unit n ≡ m
unfolding to_float_from
skip k unit n m h r = ground arith

-- One more than a multiple of a GiB rounds down, whatever the unit from 2 to 2048.
nearest_down :
    (q : ℕ)
    → let n = q * gib + 1 in
      let m = q * gib in
      (nearest 2 n ≡ m)
      × (nearest 4 n ≡ m)
      × (nearest 8 n ≡ m)
      × (nearest 16 n ≡ m)
      × (nearest 32 n ≡ m)
      × (nearest 64 n ≡ m)
      × (nearest 128 n ≡ m)
      × (nearest 256 n ≡ m)
      × (nearest 512 n ≡ m)
      × (nearest 1024 n ≡ m)
      × (nearest 2048 n ≡ m)
unfolding nearest
nearest_down q = (
  ground arith,
  ground arith,
  ground arith,
  ground arith,
  ground arith,
  ground arith,
  ground arith,
  ground arith,
  ground arith,
  ground arith,
  ground arith,
)

float64_down : (q : ℕ) → 2 ^ 23 ≤ q → q < 2 ^ 33 → float64 (q * gib + 1) ≡ q * gib
unfolding float64
float64_down q h k =
    let (d1, d2, d3, d4, d5, d6, d7, d8, d9, d10, d11) = nearest_down q in
    skip 10 1 n m (omega arith) (
      double 9 2 n m d1 (
        double 8 4 n m d2 (
          double 7 8 n m d3 (
            double 6 16 n m d4 (
              double 5 32 n m d5 (
                double 4 64 n m d6 (
                  double 3 128 n m d7
                    (double 2 256 n m d8 (double 1 512 n m d9 (double 0 1024 n m d10 d11))))))))))
  where
    n : ℕ
    n = q * gib + 1

    m : ℕ
    m = q * gib

-- The flaw of the conversion to float64: one byte more than a multiple of a GiB is lost from 2 ^ 53
-- on, and the image is a byte too small for the request.
pub off_bytes_short : (q : ℕ) → 2 ^ 23 ≤ q → q < 2 ^ 33 → off_bytes (q * gib + 1) < q * gib + 1
unfolding off_bytes
off_bytes_short q h k = ground (arith, float64_down q h k)
