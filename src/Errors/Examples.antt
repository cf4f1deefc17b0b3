-- ===== src/Errors/Examples.antt =====
-- The conversion of internal/utils/errors.go at one error.
use ceph_provider.Errors.{wrap, sentinel, volume_not_found, convert_internal_error_to_grpc}
use ceph_provider.Errors.Conversion.{Converts, convert_internal_error_to_grpc-Converts}

convert_internal_error_to_grpc-Converts_example :
    Converts
      (wrap "failed" (sentinel volume_not_found))
      (convert_internal_error_to_grpc (wrap "failed" (sentinel volume_not_found)))
convert_internal_error_to_grpc-Converts_example =
    convert_internal_error_to_grpc-Converts (wrap "failed" (sentinel volume_not_found))
