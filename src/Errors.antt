-- ===== src/Errors.antt =====
-- The error values of the program (internal/utils/errors.go and the sentinels that it takes from
-- its libraries), Go's errors.Is over wrapping, and the conversion to a gRPC status.
-- A message is kept as the fixed text of its format, without the arguments.
pub mod Conversion
mod Examples
use ceph_provider.Prelude.{ℕ, String, Bool, true, false, ◌||◌, ◌==◌, if◌then◌else◌}

-- Errors that code compares by identity. The first three are those of the object store, the next
-- three those of go-ceph; then come the six of internal/utils/errors.go and Kubernetes' not-found.
pub data Sentinel : Type 0 where
  store_not_found already_exists resource_version_not_latest : Sentinel
  rados_not_found rbd_not_found image_not_open : Sentinel
  volume_not_found bucket_not_found volume_isnt_managed bucket_isnt_managed : Sentinel
  snapshot_not_found snapshot_isnt_managed : Sentinel
  api_not_found : Sentinel

-- The gRPC codes that the program produces.
pub data Code : Type 0 where
  internal not_found invalid_argument : Code

pub data Error : Type 0 where
  sentinel : Sentinel → Error
  new : String → Error
  wrap : String → Error → Error
  join : Error → Error → Error
  status : Code → Error → Error

number : Sentinel → ℕ
number store_not_found = 0
number already_exists = 1
number resource_version_not_latest = 2
number rados_not_found = 3
number rbd_not_found = 4
number image_not_open = 5
number volume_not_found = 6
number bucket_not_found = 7
number volume_isnt_managed = 8
number bucket_isnt_managed = 9
number snapshot_not_found = 10
number snapshot_isnt_managed = 11
number api_not_found = 12

-- errors.Is. A gRPC status made by status.Error keeps only the text of its error.
unfoldable pub is : Error → Sentinel → Bool
unfolding number
is (sentinel x) t = number x == number t
is (new m) t = false
is (wrap m e) t = is e t
is (join e f) t = is e t || is f t
is (status c e) t = false

-- status.FromError, its second result: whether the error is a gRPC status or wraps one.
unfoldable pub is_status : Error → Bool
is_status (sentinel x) = false
is_status (new m) = false
is_status (wrap m e) = is_status e
is_status (join e f) = is_status e || is_status f
is_status (status c e) = true

-- The code of the switch in ConvertInternalErrorToGRPC.
unfoldable pub code_of : Error → Code
unfolding is
code_of e =
    if is e bucket_not_found || is e volume_not_found || is e snapshot_not_found
    then not_found
    else if is e bucket_isnt_managed || is e volume_isnt_managed || is e snapshot_isnt_managed
    then invalid_argument
    else internal

-- ConvertInternalErrorToGRPC
unfoldable pub convert_internal_error_to_grpc : Error → Error
unfolding code_of is_status
convert_internal_error_to_grpc e = if is_status e then e else status (code_of e) e
