-- ===== src/VolumeServer.antt =====
-- internal/volumeserver: the requests of the volume runtime interface (IRI) against the stores of
-- images and snapshots. This file has the server and the conversion of stored objects to those of
-- the interface (volume.go and snapshot.go).
pub mod Create
pub mod Change
pub mod Lists
pub mod Events
pub mod Start
pub mod EventLists
pub mod VolumeLists
pub mod Missing
pub mod Growth
pub mod Restore
mod Examples
mod EventExamples
mod ListExamples
use ceph_provider.Prelude.{ℕ, String, Bool, Option, none, some, Map, [], ◌∷◌, str_eq, if◌then◌else◌}
use ceph_provider.Errors.{Error, new, wrap}
use ceph_provider.Exec.{Exec, Result, ok, err}
use ceph_provider.Utils.{uint64_to_int64}
use ceph_provider.Api.{
  Bytes, Image, Snapshot, image_state_available, image_state_pending, snapshot_state_ready,
  snapshot_state_pending, snapshot_state_failed,
}
use ceph_provider.ApiUtils.{
  ObjectMetadata, get_object_metadata_from_object_id, get_class_label_from_object,
}
use ceph_provider.Store.{Store}
use ceph_provider.External.{Encryptor, Json, MetaUtils}
use ceph_provider.Classes.{Registry}

-- Server. `generate` is the id generator; `pool_stats` is the MaxAvail of the ceph command client.
pub record Server (C : Type 0) : Type 0 where
  pub generate : Exec C String
  pub image_store : Store C Image
  pub snapshot_store : Store C Snapshot
  pub volume_classes : Registry
  pub pool_stats : Exec C ℕ
  pub burst_factor : ℕ
  pub burst_duration_in_seconds : ℕ
  pub key_encryption : Encryptor C
  pub json : Json
  pub meta : MetaUtils
  -- whether the labels of an object match a label selector
  pub matches : Map String → Map String → Bool

pub data VolumeState : Type 0 where
  volume_pending volume_available : VolumeState

pub data SnapshotState : Type 0 where
  snapshot_pending snapshot_ready snapshot_failed : SnapshotState

pub record VolumeAccess : Type 0 where
  pub driver : String
  pub handle : String
  pub attributes : Map String
  pub secret_data : Map String

pub record Volume : Type 0 where
  pub metadata : ObjectMetadata
  pub image : String
  pub class : String
  pub storage_bytes : ℕ
  pub state : VolumeState
  pub access : Option VolumeAccess
  pub status_bytes : ℕ

pub record VolumeSnapshot : Type 0 where
  pub metadata : ObjectMetadata
  pub volume_id : String
  pub state : SnapshotState
  pub size : ℕ

unfoldable pub get_iri_volume_access : Image → Result VolumeAccess
get_iri_volume_access image = elim image.status.access [
  | none ↦ err (new "image access not present")
  | some access ↦ ok (record {
    driver = "ceph";
    handle = image.spec.wwn;
    attributes = ("monitors", access.monitors) ∷ ("image", access.handle) ∷ [];
    secret_data = ("userID", access.user) ∷ ("userKey", access.user_key) ∷ [];
  })
]

-- The class and the size of the spec.
unfoldable pub get_iri_volume_spec : Image → Result (String × ℕ)
unfolding uint64_to_int64 get_class_label_from_object
get_iri_volume_spec image = elim (uint64_to_int64 image.spec.size) [
  | err e ↦ err e
  | ok storage_bytes ↦ elim (get_class_label_from_object image.metadata) [
    | none ↦ err (new "failed to get volume class for image")
    | some class ↦ ok (class, storage_bytes)
  ]
]

unfoldable pub get_iri_state : String → Result VolumeState
get_iri_state state =
    if str_eq state image_state_available
    then ok volume_available
    else if str_eq state image_state_pending
    then ok volume_pending
    else err (new "unknown volume state")

-- The access of a volume that is available.
unfoldable pub access_of : Image → VolumeState → Result (Option VolumeAccess)
unfolding get_iri_volume_access
access_of image volume_pending = ok none
access_of image volume_available = elim (get_iri_volume_access image) [
  | err e ↦ err (wrap "error getting iri volume access" e)
  | ok access ↦ ok (some access)
]

module _ (json : Json) where
  unfoldable pub convert_image_to_iri_volume : Image → Result Volume
  unfolding get_object_metadata_from_object_id get_iri_volume_spec get_iri_state access_of
      uint64_to_int64
  convert_image_to_iri_volume image =
      elim (get_object_metadata_from_object_id json image.metadata) [
        | err e ↦ err (wrap "error getting iri metadata" e)
        | ok metadata ↦ elim (get_iri_volume_spec image) [
          | err e ↦ err (wrap "error getting iri resources" e)
          | ok (class, storage_bytes) ↦ elim (get_iri_state image.status.state) [
            | err e ↦ err (wrap "error getting iri state" e)
            | ok state ↦ elim (access_of image state) [
              | err e ↦ err e
              | ok access ↦ elim (uint64_to_int64 image.status.size) [
                | err e ↦ err e
                | ok image_size ↦ ok (record {
                  metadata = metadata;
                  image = image.spec.image;
                  class = class;
                  storage_bytes = storage_bytes;
                  state = state;
                  access = access;
                  status_bytes = image_size;
                })
              ]
            ]
          ]
        ]
      ]

  unfoldable pub get_iri_snapshot_state : String → Result SnapshotState
  get_iri_snapshot_state state =
      if str_eq state snapshot_state_ready
      then ok snapshot_ready
      else if str_eq state snapshot_state_pending
      then ok snapshot_pending
      else if str_eq state snapshot_state_failed
      then ok snapshot_failed
      else err (new "unknown volume snapshot state")

  unfoldable pub convert_snapshot_to_iri_volume_snapshot : Snapshot → Result VolumeSnapshot
  unfolding get_object_metadata_from_object_id get_iri_snapshot_state
  convert_snapshot_to_iri_volume_snapshot snapshot =
      elim (get_object_metadata_from_object_id json snapshot.metadata) [
        | err e ↦ err (wrap "error getting iri metadata" e)
        | ok metadata ↦ elim (get_iri_snapshot_state snapshot.status.state) [
          | err e ↦ err (wrap "error getting iri state" e)
          | ok state ↦ ok (record {
            metadata = metadata;
            volume_id = snapshot.source.volume_image_id;
            state = state;
            size = snapshot.status.size;
          })
        ]
      ]
