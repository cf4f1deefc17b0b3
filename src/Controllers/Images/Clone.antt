-- ===== src/Controllers/Images/Clone.antt =====
-- createImageFromSnapshot and cloneSnapshot of internal/controllers/image_controller.go.
use ceph_provider.Prelude.{String, Bool, true, false, not, none, some, str_eq, ◌&&◌, if◌then◌else◌}
use ceph_provider.Prelude.Words.{int64_lt}
use ceph_provider.Errors.{new, wrap, is, store_not_found}
use ceph_provider.Exec.{Exec, Result, ok, err, pure, fail, lift, catch, annotate, when, ◌>>=◌, ◌>>◌}
use ceph_provider.Round.{off_bytes}
use ceph_provider.Api.{
  Image, Snapshot, snapshot_state_ready, snapshot_state_populated, snapshot_state_failed,
  volume_manager,
}
use ceph_provider.Api.Meta.{Metadata, with_id}
use ceph_provider.ApiUtils.{
  get_object_metadata_from_object_id, set_object_metadata_from_metadata,
  get_class_label_from_object, set_class_label_for_object, set_manager_label,
}
use ceph_provider.External.{warning, normal}
use ceph_provider.Controllers.Common.{
  image_id_to_rbd_id, get_snapshot_source_details, with_image, snapshot_exists_and_protected,
  protect_snapshot,
}
use ceph_provider.Controllers.Images.{ImageReconciler, event, fail_with, is_image_existing}

abbrev pub is_usable : Snapshot → Bool
is_usable s =
    if str_eq s.status.state snapshot_state_ready
    then true
    else str_eq s.status.state snapshot_state_populated

abbrev pub failed_snapshot : Snapshot → Snapshot
failed_snapshot s = record s { status = record s.status { state = snapshot_state_failed } }

module _ {C Io Img H : Type 0} (r : ImageReconciler C Io Img H) where
  -- The clone and its resize, for a snapshot that rbd has and protects.
  unfoldable pub clone_and_resize : Io → Image → String → String → String → Exec C Bool
  unfolding with_image event fail_with off_bytes image_id_to_rbd_id
  clone_and_resize io image parent_name snap_name options = do
    io2 ← annotate "unable to get io context" (r.rbd.open_io_context r.pool)
    catch
        (r.rbd.clone_image io2 parent_name snap_name io (image_id_to_rbd_id image.metadata.id)
          options)
        (λ e.
          fail_with r image warning "CreateImageFromSnapshotFailed"
            (wrap "failed to clone rbd image" e))
        (λ _. with_image r.rbd io (image_id_to_rbd_id image.metadata.id) λ img. do
          annotate "failed to resize rbd image" (r.rbd.resize img (off_bytes image.spec.size))
          event r image normal "CreateImageFromSnapshotSucceeded"
          pure true)

  -- A snapshot that rbd does not have is marked Failed in the store.
  unfoldable pub mark_failed : Snapshot → Exec C Bool
  mark_failed snapshot =
      catch (r.snapshots.update (failed_snapshot snapshot))
        (λ e. elim (r.snapshots.ignore_not_found e) [
          | none ↦ pure false
          | some e' ↦ fail (wrap "failed to update snapshot state" e)
        ])
        (λ _. pure false)

  unfoldable pub create_image_from : Io → Image → Snapshot → String → Exec C Bool
  unfolding clone_and_resize mark_failed fail_with get_snapshot_source_details
      snapshot_exists_and_protected protect_snapshot
  create_image_from io image snapshot options =
      if int64_lt image.spec.size snapshot.status.size
      then fail_with r image warning "ImageSizeIsSmallerThanSnapshotSize"
          (new "image size is smaller than snapshot size")
      else if not (is_usable snapshot)
      then pure false
      else (do
        (parent_name, snap_name) ←
            annotate "failed to get snapshot source details"
              (lift (get_snapshot_source_details snapshot))
        (exists, is_protected) ←
            annotate "failed to check volume image snapshot existence"
              (snapshot_exists_and_protected r.rbd io parent_name snap_name)
        when (exists && not is_protected) (
            annotate "failed to protect snapshot" (protect_snapshot r.rbd io parent_name snap_name))
        if exists
            then clone_and_resize io image parent_name snap_name options
            else mark_failed snapshot)

  -- Whether the image has been made; false asks for another reconciliation later.
  unfoldable pub create_image_from_snapshot : Io → Image → String → String → Exec C Bool
  unfolding create_image_from
  create_image_from_snapshot io image snapshot_ref options =
      catch (r.snapshots.get snapshot_ref)
        (λ e. if is e store_not_found then pure false else fail (wrap "failed to get snapshot" e))
        (λ snapshot. create_image_from io image snapshot options)

  -- Whether the store has an image.
  unfoldable pub is_stored : String → Exec C Bool
  is_stored id =
      catch (r.images.get id)
        (λ e.
          if is e store_not_found
          then pure false
          else fail (wrap "failed to check image in store" e))
        (λ _. pure true)

  abbrev pub cloned_image : String → Image → Image
  cloned_image snap_name image = record {
    metadata = with_id snap_name;
    spec = record {
      size = image.spec.size;
      wwn = "";
      limits = image.spec.limits;
      image = "";
      image_architecture = none;
      snapshot_ref = some snap_name;
      encryption = image.spec.encryption;
    };
    status = record { state = ""; encryption = ""; access = none; size = 0 };
  }

  -- The metadata of the clone: that of the parent with its class, under the clone's id.
  unfoldable pub cloned_metadata : String → Image → Result Metadata
  unfolding get_object_metadata_from_object_id set_object_metadata_from_metadata
      get_class_label_from_object set_class_label_for_object set_manager_label
  cloned_metadata snap_name image =
      elim (get_object_metadata_from_object_id r.json image.metadata) [
        | err e ↦ err (wrap "failed to get metadata from image" e)
        | ok metadata ↦
            elim (set_object_metadata_from_metadata r.json r.meta (with_id snap_name) metadata) [
              | err e ↦ err (wrap "failed to set metadata" e)
              | ok m ↦ elim (get_class_label_from_object image.metadata) [
                | none ↦ err (new "class label not found on image")
                | some class ↦ ok (
                    set_manager_label r.meta (set_class_label_for_object r.meta m class)
                      volume_manager)
              ]
            ]
      ]

  unfoldable pub store_clone : String → Image → Exec C Unit
  unfolding cloned_metadata
  store_clone snap_name image = do
    m ← lift (cloned_metadata snap_name image)
    annotate "failed to create image"
        (r.images.create (record (cloned_image snap_name image) { metadata = m }))
    pure tt

  unfoldable pub clone_missing : Io → String → Image → Bool → Exec C Unit
  unfolding store_clone create_image_from_snapshot
  clone_missing io snap_name image rbd_exists =
      if rbd_exists then store_clone snap_name image else (do
        options ← annotate "failed to set data pool" (r.rbd.data_pool_options r.pool)
        made ←
            annotate "failed to create image from snapshot"
              (create_image_from_snapshot io (cloned_image snap_name image) snap_name options)
        when made (store_clone snap_name image))

  unfoldable pub clone_snapshot : Io → String → Image → Exec C Unit
  unfolding is_image_existing is_stored clone_missing
  clone_snapshot io snap_name image = do
    rbd_exists ← annotate "failed to check rbd image existence" (is_image_existing r io snap_name)
    store_exists ← is_stored snap_name
    if rbd_exists && store_exists then pure tt else clone_missing io snap_name image rbd_exists
