-- ===== src/Version.antt =====
-- Version of internal/volumeserver/version.go and internal/bucketserver/version.go, over the
-- variables that the linker sets and semver.NewBuildVersion.
use ceph_provider.Prelude.{String, not, str_eq, if◌then◌else◌}
use ceph_provider.Exec.{Result, ok, err}

abbrev pub runtime_name : String
runtime_name = "ceph-provider"

module _ (new_build_version : String → Result String) (version commit : String) where
  -- The name and the version of the volume server.
  unfoldable pub volume_runtime_version : String × String
  volume_runtime_version =
      if not (str_eq version "")
      then (runtime_name, version)
      else if not (str_eq commit "")
      then elim (new_build_version commit) [
        | err e ↦ (runtime_name, "0.0.0")
        | ok v ↦ (runtime_name, v)
      ]
      else (runtime_name, "0.0.0")

  -- Those of the bucket server.
  unfoldable pub bucket_runtime_version : String × String
  bucket_runtime_version =
      if not (str_eq version "")
      then (runtime_name, version)
      else if not (str_eq commit "")
      then elim (new_build_version commit) [
        | err e ↦ (runtime_name, "0.0.0")
        | ok v ↦ (runtime_name, v)
      ]
      else (runtime_name, "0.0.0")
