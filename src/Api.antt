-- ===== src/Api.antt =====
-- api/image.go, api/snapshot.go and api/constants.go: the objects of the two stores.
-- A typed string of Go (ImageState, SnapshotState, EncryptionType, LimitType) is a string, since
-- a stored object can hold any.
pub mod Meta
use ceph_provider.Prelude.{ℕ, String, Option, List, Map}
use Meta.{Metadata}

abbrev pub Bytes : Type 0
Bytes = List ℕ

abbrev pub image_state_pending : String
image_state_pending = "Pending"

abbrev pub image_state_available : String
image_state_available = "Available"

abbrev pub encryption_state_header_set : String
encryption_state_header_set = "EncryptionHeaderSet"

abbrev pub encryption_type_encrypted : String
encryption_type_encrypted = "Encrypted"

abbrev pub encryption_type_unencrypted : String
encryption_type_unencrypted = "Unencrypted"

-- Limits: int64 values by limit type.
abbrev pub Limits : Type 0
Limits = Map ℕ

pub record EncryptionSpec : Type 0 where
  pub kind : String
  pub encrypted_passphrase : Bytes

pub record ImageSpec : Type 0 where
  pub size : ℕ
  pub wwn : String
  pub limits : Limits
  pub image : String
  pub image_architecture : Option String
  pub snapshot_ref : Option String
  pub encryption : Option EncryptionSpec

pub record ImageAccess : Type 0 where
  pub monitors : String
  pub handle : String
  pub user : String
  pub user_key : String

pub record ImageStatus : Type 0 where
  pub state : String
  pub encryption : String
  pub access : Option ImageAccess
  pub size : ℕ

pub record Image : Type 0 where
  pub metadata : Metadata
  pub spec : ImageSpec
  pub status : ImageStatus

abbrev pub snapshot_state_pending : String
snapshot_state_pending = "Pending"

abbrev pub snapshot_state_populated : String
snapshot_state_populated = "Populated"

abbrev pub snapshot_state_ready : String
snapshot_state_ready = "Ready"

abbrev pub snapshot_state_failed : String
snapshot_state_failed = "Failed"

pub record SnapshotStatus : Type 0 where
  pub state : String
  pub digest : String
  pub size : ℕ

pub record SnapshotSource : Type 0 where
  pub ironcore_image : String
  pub volume_image_id : String

pub record Snapshot : Type 0 where
  pub metadata : Metadata
  pub source : SnapshotSource
  pub status : SnapshotStatus

abbrev pub labels_annotation : String
labels_annotation = "ceph-provider.ironcore.dev/labels"

abbrev pub annotations_annotation : String
annotations_annotation = "ceph-provider.ironcore.dev/annotations"

abbrev pub class_label : String
class_label = "ceph-provider.ironcore.dev/class"

abbrev pub manager_label : String
manager_label = "ceph-provider.ironcore.dev/manager"

abbrev pub bucket_manager : String
bucket_manager = "ceph-bucket-provider"

abbrev pub volume_manager : String
volume_manager = "ceph-volume-provider"

abbrev pub machine_architecture_label : String
machine_architecture_label = "common.ironcore.dev/architecture"

-- LimitType
abbrev pub iops_limit : String
iops_limit = "rbd_qos_iops_limit"

abbrev pub iops_burst_limit : String
iops_burst_limit = "rbd_qos_iops_burst"

abbrev pub iops_burst_duration_limit : String
iops_burst_duration_limit = "rbd_qos_iops_burst_seconds"

abbrev pub read_iops_limit : String
read_iops_limit = "rbd_qos_read_iops_limit"

abbrev pub read_iops_burst_limit : String
read_iops_burst_limit = "rbd_qos_read_iops_burst"

abbrev pub read_iops_burst_duration_limit : String
read_iops_burst_duration_limit = "rbd_qos_read_iops_burst_seconds"

abbrev pub write_iops_limit : String
write_iops_limit = "rbd_qos_write_iops_limit"

abbrev pub write_iops_burst_limit : String
write_iops_burst_limit = "rbd_qos_write_iops_burst"

abbrev pub write_iops_burst_duration_limit : String
write_iops_burst_duration_limit = "rbd_qos_write_iops_burst_seconds"

abbrev pub bps_limit : String
bps_limit = "rbd_qos_bps_limit"

abbrev pub bps_burst_limit : String
bps_burst_limit = "rbd_qos_bps_burst"

abbrev pub bps_burst_duration_limit : String
bps_burst_duration_limit = "rbd_qos_bps_burst_seconds"

abbrev pub read_bps_limit : String
read_bps_limit = "rbd_qos_read_bps_limit"

abbrev pub read_bps_burst_limit : String
read_bps_burst_limit = "rbd_qos_read_bps_burst"

abbrev pub read_bps_burst_duration_limit : String
read_bps_burst_duration_limit = "rbd_qos_read_bps_burst_seconds"

abbrev pub write_bps_limit : String
write_bps_limit = "rbd_qos_write_bps_limit"

abbrev pub write_bps_burst_limit : String
write_bps_burst_limit = "rbd_qos_write_bps_burst"

abbrev pub write_bps_burst_duration_limit : String
write_bps_burst_duration_limit = "rbd_qos_write_bps_burst_seconds"
