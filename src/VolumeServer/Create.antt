-- ===== src/VolumeServer/Create.antt =====
-- volume_create.go and volumesnapshot_create.go of internal/volumeserver.
use ceph_provider.Prelude.{
  ℕ, String, not, Option, none, some, Map, lookup, str_eq, ltb, ◌==◌, if◌then◌else◌,
}
use ceph_provider.Errors.{new, wrap, is, sentinel, store_not_found, convert_internal_error_to_grpc}
use ceph_provider.Exec.{Exec, Result, ok, err, pure, fail, lift, catch, annotate, ◌>>=◌}
use ceph_provider.Utils.{int64_to_uint64}
use ceph_provider.Limits.{calculate}
use ceph_provider.Classes.{Class, get_class}
use ceph_provider.Api.{
  Bytes, Image, EncryptionSpec, Snapshot, encryption_type_encrypted, image_state_available,
  machine_architecture_label, volume_manager,
}
use ceph_provider.Api.Meta.{Metadata, with_id}
use ceph_provider.ApiUtils.{
  ObjectMetadata, set_object_metadata_from_metadata, set_class_label_for_object, set_manager_label,
}
use ceph_provider.VolumeServer.{
  Server, Volume, VolumeSnapshot, convert_image_to_iri_volume,
  convert_snapshot_to_iri_volume_snapshot,
}

-- iri.VolumeDataSource: the id of a snapshot, or the reference of an image.
pub record DataSource : Type 0 where
  pub snapshot_data_source : Option String
  pub image_data_source : Option String

-- The volume of a request: the int64 size of its resources, its encryption with the secret data,
-- each none where Go has nil.
pub record VolumeRequest : Type 0 where
  pub metadata : Option ObjectMetadata
  pub class : String
  pub image : String
  pub resources : Option ℕ
  pub encryption : Option (Option (Map Bytes))
  pub volume_data_source : Option DataSource

abbrev pub encryption_secret_data_passphrase_key : String
encryption_secret_data_passphrase_key = "encryptionKey"

-- What the data source decides: the image reference, the snapshot and the size.
pub record Source : Type 0 where
  pub vol_image : String
  pub snapshot_id : Option String
  pub image_size : ℕ

unfoldable pub get_architecture_from_volume : Option ObjectMetadata → Option String
get_architecture_from_volume none = none
get_architecture_from_volume (some metadata) = lookup machine_architecture_label metadata.labels

unfoldable pub requested_size : Option ℕ → Result ℕ
unfolding int64_to_uint64
requested_size none = ok 0
requested_size (some storage_bytes) = elim (int64_to_uint64 storage_bytes) [
  | err e ↦ err (wrap "failed to get image size" e)
  | ok size ↦ ok size
]

-- No size asks for that of the snapshot's source volume, which no size may be below.
unfoldable pub restore_size : ℕ → ℕ → Result ℕ
restore_size image_size snapshot_size =
    if image_size == 0
    then ok snapshot_size
    else if ltb image_size snapshot_size
    then err (new "requested size must not be smaller than snapshot restore size")
    else ok image_size

-- The metadata of a new object: that of the request under a new id. A nil metadata panics in Go,
-- which is a failure here.
unfoldable pub requested_metadata :
    {C : Type 0} → Server C → String → Option ObjectMetadata → Result Metadata
unfolding set_object_metadata_from_metadata
requested_metadata s id none = err (new "nil pointer dereference")
requested_metadata s id (some metadata) =
    set_object_metadata_from_metadata s.json s.meta (with_id id) metadata

module _ {C : Type 0} (s : Server C) where
  unfoldable pub encryption_spec : Option (Option (Map Bytes)) → Exec C (Option EncryptionSpec)
  encryption_spec none = pure none
  encryption_spec (some none) = fail (new "encryption enabled but SecretData missing")
  encryption_spec (some (some secret_data)) =
      elim (lookup encryption_secret_data_passphrase_key secret_data) [
        | none ↦ fail (new "encryption enabled but secret data missing")
        | some passphrase ↦ do
          encrypted ← annotate "failed to encrypt passphrase" (s.key_encryption.encrypt passphrase)
          pure
              (some (record { kind = encryption_type_encrypted; encrypted_passphrase = encrypted }))
      ]

  unfoldable pub snapshot_source : String → ℕ → Exec C Source
  unfolding restore_size
  snapshot_source snapshot_id image_size = do
    snapshot ←
        annotate "failed to get volume snapshot from store" (s.snapshot_store.get snapshot_id)
    if str_eq snapshot.source.volume_image_id ""
        then fail (new "snapshot doesn't have source volume ID")
        else (do
          volume ←
              annotate "failed to get snapshot source volume from store"
                (s.image_store.get snapshot.source.volume_image_id)
          size ← lift (restore_size image_size volume.spec.size)
          pure (record { vol_image = ""; snapshot_id = some snapshot_id; image_size = size }))

  unfoldable pub image_source : String → ℕ → Exec C Source
  image_source image image_size =
      if str_eq image ""
      then fail (new "must specify image url in image data source")
      else if image_size == 0
      then fail (new "must specify size when creating volume from image data source")
      else pure (record { vol_image = image; snapshot_id = none; image_size = image_size })

  unfoldable pub volume_source : VolumeRequest → ℕ → Exec C Source
  unfolding snapshot_source image_source
  volume_source volume image_size = elim volume.volume_data_source [
    | none ↦ pure (record { vol_image = volume.image; snapshot_id = none; image_size = image_size })
    | some source ↦ elim source.snapshot_data_source [
      | some id ↦ snapshot_source id image_size
      | none ↦ elim source.image_data_source [
        | some image ↦ image_source image image_size
        | none ↦ fail (new "unsupported or incomplete volume data source type")
      ]
    ]
  ]

  -- The image of a volume, before the store creates it.
  abbrev pub image_of : VolumeRequest → Metadata → Source → Class → Option EncryptionSpec → Image
  image_of volume metadata source class encryption = record {
    metadata =
        set_manager_label s.meta (set_class_label_for_object s.meta metadata volume.class)
          volume_manager;
    spec = record {
      size = source.image_size;
      wwn = "";
      limits = calculate class.iops class.tps s.burst_factor s.burst_duration_in_seconds;
      image = source.vol_image;
      image_architecture = get_architecture_from_volume volume.metadata;
      snapshot_ref = source.snapshot_id;
      encryption = encryption;
    };
    status = record { state = ""; encryption = ""; access = none; size = 0 };
  }

  unfoldable pub store_image : VolumeRequest → Source → Option EncryptionSpec → Exec C Image
  unfolding get_class calculate requested_metadata get_architecture_from_volume set_manager_label
      set_class_label_for_object
  store_image volume source encryption = elim (get_class s.volume_classes volume.class) [
    | none ↦ fail (new "volume class not supported")
    | some class ↦ do
      id ← s.generate
      metadata ← annotate "failed to set metadata" (lift (requested_metadata s id volume.metadata))
      annotate "failed to create image"
          (s.image_store.create (image_of volume metadata source class encryption))
  ]

  unfoldable pub create_image_from_volume : Option VolumeRequest → Exec C Image
  unfolding requested_size encryption_spec volume_source store_image
  create_image_from_volume none = fail (new "got an empty volume")
  create_image_from_volume (some volume) = do
    image_size ← lift (requested_size volume.resources)
    encryption ← encryption_spec volume.encryption
    source ← volume_source volume image_size
    store_image volume source encryption

  unfoldable pub create_volume : Option VolumeRequest → Exec C Volume
  unfolding create_image_from_volume convert_image_to_iri_volume convert_internal_error_to_grpc
  create_volume volume =
      catch
        (do
          image ← create_image_from_volume volume
          lift (convert_image_to_iri_volume s.json image))
        (λ e. fail (convert_internal_error_to_grpc (wrap "unable to create ceph volume" e))) pure

  abbrev pub snapshot_of : String → Metadata → Snapshot
  snapshot_of volume_id metadata = record {
    metadata = set_manager_label s.meta metadata volume_manager;
    source = record { ironcore_image = ""; volume_image_id = volume_id };
    status = record { state = ""; digest = ""; size = 0 };
  }

  unfoldable pub store_snapshot : String → Option ObjectMetadata → Image → Exec C Snapshot
  unfolding requested_metadata set_manager_label
  store_snapshot volume_id requested volume =
      if not (str_eq volume.status.state image_state_available)
      then fail (new "source volume is not available")
      else (do
        id ← s.generate
        metadata ←
            annotate "failed to set volume snapshot metadata"
              (lift (requested_metadata s id requested))
        annotate "failed to create volume snapshot"
            (s.snapshot_store.create (snapshot_of volume_id metadata)))

  -- Over the volume id and the metadata of the request.
  unfoldable pub make_volume_snapshot : String → Option ObjectMetadata → Exec C Snapshot
  unfolding store_snapshot
  make_volume_snapshot volume_id requested =
      catch (s.image_store.get volume_id)
        (λ e.
          if is e store_not_found
          then fail (wrap "failed to get source volume" (sentinel store_not_found))
          else fail (wrap "failed to get source volume" e))
        (store_snapshot volume_id requested)

  unfoldable pub create_volume_snapshot : String → Option ObjectMetadata → Exec C VolumeSnapshot
  unfolding make_volume_snapshot convert_snapshot_to_iri_volume_snapshot
      convert_internal_error_to_grpc
  create_volume_snapshot volume_id requested =
      catch (make_volume_snapshot volume_id requested)
        (λ e. fail (convert_internal_error_to_grpc (wrap "unable to create ceph snapshot" e)))
        (λ snapshot.
          catch (lift (convert_snapshot_to_iri_volume_snapshot s.json snapshot))
            (λ e.
              fail (convert_internal_error_to_grpc (wrap "unable to convert volume snapshot" e)))
            pure)
