-- ===== src/Utils.antt =====
-- internal/utils/utils.go: slices and checked conversions of integers.
use ceph_provider.Prelude.{ℕ, String, List, [], ◌∷◌, str_eq, leb, if◌then◌else◌}
use ceph_provider.Prelude.Words.{two_63, is_negative}
use ceph_provider.Errors.{new}
use ceph_provider.Exec.{Result, ok, err}

-- DeleteSliceElement, at strings: without the first occurrence.
unfoldable pub delete_slice_element : List String → String → List String
delete_slice_element [] elem = []
delete_slice_element (x ∷ xs) elem = if str_eq x elem then xs else x ∷ delete_slice_element xs elem

unfoldable pub uint64_to_int64 : ℕ → Result ℕ
uint64_to_int64 u = if leb two_63 u then err (new "uint64 value is out of int64 range") else ok u

unfoldable pub int64_to_uint64 : ℕ → Result ℕ
int64_to_uint64 i =
    if is_negative i then err (new "failed to convert a negative int64 to uint64") else ok i
