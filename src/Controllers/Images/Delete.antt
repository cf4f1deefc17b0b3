-- ===== src/Controllers/Images/Delete.antt =====
-- deleteImageSnapshots and deleteImage of internal/controllers/image_controller.go.
use ceph_provider.Prelude.{String, not, none, some, List, [], ◌∷◌, contains, if◌then◌else◌}
use ceph_provider.Errors.{wrap, is, store_not_found, rbd_not_found}
use ceph_provider.Exec.{Exec, pure, fail, catch, deferring, annotate, when, ◌>>=◌, ◌>>◌}
use ceph_provider.Utils.{delete_slice_element}
use ceph_provider.Api.{Image, Snapshot}
use ceph_provider.External.{normal}
use ceph_provider.Controllers.Common.{
  image_id_to_rbd_id, open_image, create_snapshot, remove_snapshot, flatten_child_images,
  snapshot_exists_and_protected, protect_snapshot,
}
use ceph_provider.Controllers.Images.{ImageReconciler, event, with_finalizers, image_finalizer}
use ceph_provider.Controllers.Images.Clone.{clone_snapshot}

abbrev pub moved_to : String → Snapshot → Snapshot
moved_to snap_name s = record s { source = record s.source { volume_image_id = snap_name } }

module _ {C Io Img H : Type 0} (r : ImageReconciler C Io Img H) where
  -- The clone of one snapshot, and a protected snapshot of the clone.
  unfoldable pub secure_snapshot : Io → Image → String → Exec C Unit
  unfolding clone_snapshot snapshot_exists_and_protected protect_snapshot create_snapshot
      image_id_to_rbd_id
  secure_snapshot io image snap_name = do
    annotate "failed to create snapshot clone" (clone_snapshot r io snap_name image)
    (exists, is_protected) ←
        annotate "failed to check if snapshot exists"
          (snapshot_exists_and_protected r.rbd io (image_id_to_rbd_id snap_name) snap_name)
    if exists
        then when (not is_protected) (
            annotate "failed to protect snapshot"
              (protect_snapshot r.rbd io (image_id_to_rbd_id snap_name) snap_name))
        else annotate "failed to create snapshot of cloned image"
            (create_snapshot r.rbd io snap_name (image_id_to_rbd_id snap_name))

  unfoldable pub secure_snapshots : Io → Image → List String → Exec C Unit
  unfolding secure_snapshot
  secure_snapshots io image [] = pure tt
  secure_snapshots io image (snap_name ∷ snaps) =
      let rest = secure_snapshots io image snaps in secure_snapshot io image snap_name >> rest

  -- The removal of one snapshot from rbd, and the new source of the snapshot in the store.
  unfoldable pub move_snapshot : Img → String → Exec C Unit
  unfolding remove_snapshot
  move_snapshot img snap_name = do
    remove_snapshot r.rbd img snap_name
    catch (r.snapshots.get snap_name)
        (λ e. if is e store_not_found then pure tt else fail (wrap "failed to get snapshot" e))
        (λ snapshot. do
          annotate "failed to update snapshot source"
              (r.snapshots.update (moved_to snap_name snapshot))
          pure tt)

  unfoldable pub move_snapshots : Img → List String → Exec C Unit
  unfolding move_snapshot
  move_snapshots img [] = pure tt
  move_snapshots img (snap_name ∷ snaps) =
      let rest = move_snapshots img snaps in move_snapshot img snap_name >> rest

  unfoldable pub delete_snapshots_of : Io → Image → Img → Exec C Unit
  unfolding secure_snapshots move_snapshots flatten_child_images
  delete_snapshots_of io image img = do
    snaps ← annotate "unable to list snapshots" (r.rbd.get_snapshot_names img)
    secure_snapshots io image snaps
    annotate "failed to flatten snapshot child images" (flatten_child_images r.rbd img)
    move_snapshots img snaps

  unfoldable pub delete_image_snapshots : Io → Image → Exec C Unit
  unfolding open_image delete_snapshots_of image_id_to_rbd_id
  delete_image_snapshots io image =
      catch (open_image r.rbd io (image_id_to_rbd_id image.metadata.id))
        (λ e. if is e rbd_not_found then pure tt else fail e)
        (λ img. deferring (r.rbd.close img) (delete_snapshots_of io image img))

  -- librbd.RemoveImage, where an image that is gone is no error.
  unfoldable pub remove_rbd_image : Io → Image → Exec C Unit
  unfolding image_id_to_rbd_id
  remove_rbd_image io image =
      catch (r.rbd.remove_image io (image_id_to_rbd_id image.metadata.id))
        (λ e. if is e rbd_not_found then pure tt else fail (wrap "failed to remove rbd image" e))
        pure

  -- Drops the finalizer, which lets the store remove the object.
  unfoldable pub release_image : Image → Exec C Unit
  unfolding event delete_slice_element
  release_image image =
      let released =
        with_finalizers (delete_slice_element image.metadata.finalizers image_finalizer) image in
      catch (r.images.update released)
        (λ e. elim (r.images.ignore_not_found e) [
          | none ↦ event r released normal "ImageDeletionSucceeded"
          | some e' ↦ fail (wrap "failed to update image metadata" e)
        ])
        (λ image'. event r image' normal "ImageDeletionSucceeded")

  unfoldable pub delete_image : Io → Image → Exec C Unit
  unfolding delete_image_snapshots remove_rbd_image release_image
  delete_image io image =
      if not (contains image.metadata.finalizers image_finalizer) then pure tt else (do
        annotate "failed to delete image snapshots" (delete_image_snapshots io image)
        remove_rbd_image io image
        release_image image)
