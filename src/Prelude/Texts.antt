-- ===== src/Prelude/Texts.antt =====
-- strconv.FormatInt at base 10, and strings.TrimPrefix.
use Prim.Native.Nat.{ℕ, zero, suc, ◌+◌, ◌-◌, ◌/◌, ◌%◌}
use Prim.Native.String.{String, slice, len}
use text.Mathlib.Text.{starts_with}
use ceph_provider.Prelude.Tests.{ltb, str_append, if◌then◌else◌}
use ceph_provider.Prelude.Words.{two_64, is_negative}

digit : ℕ → String
digit d = slice "0123456789" d (d + 1)

-- The fuel bounds the number of digits less one; 2 ^ 63 has 19.
format_digits : ℕ → ℕ → String
unfolding digit
format_digits zero n = digit n
format_digits (suc fuel) n =
    let rest = format_digits fuel (n / 10) in
    if ltb n 10 then digit n else str_append rest (digit (n % 10))

unfoldable pub format_int : ℕ → String
unfolding format_digits
format_int v =
    if is_negative v then str_append "-" (format_digits 19 (two_64 - v)) else format_digits 19 v

unfoldable pub trim_prefix : String → String → String
trim_prefix s prefix = if starts_with s prefix then slice s (len prefix) (len s) else s
