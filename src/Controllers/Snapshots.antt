-- ===== src/Controllers/Snapshots.antt =====
-- internal/controllers/snapshot_controller.go: SnapshotReconciler.
pub mod Frame
pub mod States
pub mod Order
pub mod Made
pub mod Ready
mod Examples
mod OrderExamples
mod MadeExamples
use ceph_provider.Prelude.{
  ℕ, String, not, Option, none, some, List, [], ◌∷◌, ◌++◌, str_eq, ◌==◌, lookup, contains, length,
  ◌&&◌, if◌then◌else◌,
}
use ceph_provider.Errors.{Error, new, wrap, join, is, rbd_not_found, store_not_found}
use ceph_provider.Exec.{Exec, pure, fail, lift, catch, deferring, annotate, when, ◌>>=◌, ◌>>◌}
use ceph_provider.Utils.{delete_slice_element}
use ceph_provider.Round.{off_bytes}
use ceph_provider.Api.{
  Bytes, Image, Snapshot, snapshot_state_ready, snapshot_state_populated, snapshot_state_failed,
  machine_architecture_label,
}
use ceph_provider.Store.{Store}
use ceph_provider.External.{Rbd, Registry, Platform}
use ceph_provider.Controllers.Common.{
  image_id_to_rbd_id, snapshot_id_to_rbd_id, image_snapshot_version, get_snapshot_source_details,
  to_platform, create_os_image_source, with_image, create_snapshot, remove_snapshot,
  flatten_child_images, snapshot_exists_and_protected, protect_snapshot,
}

abbrev pub snapshot_finalizer : String
snapshot_finalizer = "snapshot"

pub record SnapshotReconciler (C Io Img H : Type 0) : Type 0 where
  pub rbd : Rbd C Io Img
  pub registry : Registry C H
  pub store : Store C Snapshot
  pub images : Store C Image
  pub pool : String

-- The snapshot with its finalizers, or its state, replaced.
abbrev pub with_finalizers : List String → Snapshot → Snapshot
with_finalizers fs s = record s { metadata = record s.metadata { finalizers = fs } }

abbrev pub with_state : String → Snapshot → Snapshot
with_state state s = record s { status = record s.status { state = state } }

-- io.CopyBuffer into an open image: each read of the source, then the write of its chunk, and the
-- error of the read, if any, after that. A chunk that is not written in full is an error.
module _ {C Io Img : Type 0} (rbd : Rbd C Io Img) where
  unfoldable pub copy_buffer : Img → List (Exec C (Bytes × Option Error)) → Exec C Unit
  copy_buffer img [] = pure tt
  copy_buffer img (read ∷ reads) =
      let rest = copy_buffer img reads in
      do
        (chunk, read_error) ← read
        when (not (length chunk == 0)) (do
          written ← rbd.write img chunk
          if written == length chunk then pure tt else fail (new "short write"))
        elim read_error [ none ↦ rest | some e ↦ fail e ]

module _ {C Io Img H : Type 0} (r : SnapshotReconciler C Io Img H) where
  unfoldable pub populate_image : Img → H → Exec C Unit
  unfolding copy_buffer
  populate_image dst src =
      annotate "failed to populate image" (copy_buffer r.rbd dst (r.registry.reads src))

  unfoldable pub prepare_snapshot_content : Io → String → H → Exec C Unit
  unfolding with_image populate_image
  prepare_snapshot_content io image_name rc =
      with_image r.rbd io image_name
        λ rbd_img. annotate "failed to populate os image" (populate_image rbd_img rc)

  -- The reader of the root file system, its size and the digest of the image.
  unfoldable pub open_ironcore_image_source : String → Option Platform → Exec C (H × ℕ × String)
  unfolding create_os_image_source
  open_ironcore_image_source image_reference platform = do
    os_img_src ←
        annotate "failed to create os image source" (create_os_image_source r.registry platform)
    img ←
        annotate "failed to resolve image ref in os image source"
          (r.registry.resolve os_img_src image_reference)
    root_fs ← annotate "failed to resolve ironcore image" (r.registry.resolve_root_fs img)
    elim root_fs [
      | none ↦ fail (new "image has no root fs")
      | some (fs, size) ↦ do
        content ← annotate "failed to get root fs content" (r.registry.content fs)
        pure (content, size, r.registry.digest img)
    ]

  -- The snapshot with its digest and size, when it has been written.
  unfoldable pub reconcile_ironcore_image_snapshot : Io → Snapshot → Exec C Snapshot
  unfolding open_ironcore_image_source prepare_snapshot_content create_snapshot
      snapshot_id_to_rbd_id to_platform off_bytes
  reconcile_ironcore_image_snapshot io snapshot = do
    let platform = to_platform (lookup machine_architecture_label snapshot.metadata.labels)
    (rc, snapshot_size, digest) ←
        annotate "failed to open snapshot source"
          (open_ironcore_image_source snapshot.source.ironcore_image platform)
    deferring (r.registry.close_reader rc) (do
      options ← annotate "failed to set data pool" (r.rbd.data_pool_options r.pool)
      let rbd_image_id = snapshot_id_to_rbd_id snapshot.metadata.id
      let rounded_size = off_bytes snapshot_size
      annotate "failed to create os rbd image"
          (r.rbd.create_image io rbd_image_id rounded_size options)
      annotate "failed to prepare snapshot content" (prepare_snapshot_content io rbd_image_id rc)
      annotate "failed to create ironcore image snapshot"
          (create_snapshot r.rbd io image_snapshot_version rbd_image_id)
      pure (record snapshot {
        status = record snapshot.status { digest = digest; size = rounded_size };
      }))

  unfoldable pub reconcile_volume_image_snapshot : Io → Snapshot → Exec C Snapshot
  unfolding create_snapshot image_id_to_rbd_id
  reconcile_volume_image_snapshot io snapshot =
      catch (r.images.get snapshot.source.volume_image_id)
        (λ e.
          if is e store_not_found
          then pure snapshot
          else fail (wrap "failed to fetch image from store" e))
        λ img. do
          annotate "failed to create volume image snapshot"
              (create_snapshot r.rbd io snapshot.metadata.id (image_id_to_rbd_id img.metadata.id))
          pure (record snapshot { status = record snapshot.status { size = img.status.size } })

  -- Drops the finalizer and updates the store; an object that is gone is no error.
  unfoldable pub release_snapshot : Snapshot → Exec C Unit
  unfolding delete_slice_element
  release_snapshot snapshot =
      catch
        (r.store.update (
          with_finalizers (delete_slice_element snapshot.metadata.finalizers snapshot_finalizer)
            snapshot))
        (λ e. elim (r.store.ignore_not_found e) [
          | none ↦ pure tt
          | some e' ↦ fail (wrap "failed to update snapshot metadata" e)
        ])
        (λ _. pure tt)

  -- The parent image that was made when the source volume was deleted, and that only this snapshot
  -- refers to.
  unfoldable pub delete_parent_image : String → String → Exec C Unit
  unfolding image_id_to_rbd_id
  delete_parent_image rbd_id snapshot_id = when (str_eq rbd_id (image_id_to_rbd_id snapshot_id)) (
      catch (r.images.delete snapshot_id)
        (λ e. elim (r.images.ignore_not_found e) [
          | none ↦ pure tt
          | some e' ↦ fail (wrap "unable to remove parent rbd image" e)
        ])
        pure)

  -- The part of deleteSnapshot that works on the open image. An os image is closed and removed
  -- before the deferred close, which then does nothing.
  unfoldable pub delete_open_snapshot : Io → Snapshot → String → String → Img → Exec C Unit
  unfolding release_snapshot delete_parent_image flatten_child_images remove_snapshot
  delete_open_snapshot io snapshot rbd_id snapshot_id img =
      let cleared = (do
        annotate "failed to flatten snapshot child images" (flatten_child_images r.rbd img)
        annotate "failed to remove snapshot" (remove_snapshot r.rbd img snapshot_id)
        release_snapshot snapshot) in
      if not (str_eq snapshot.source.ironcore_image "")
      then catch cleared (λ e. deferring (r.rbd.close img) (fail e))
          (λ _. do
            annotate "unable to close ironcore os-image" (r.rbd.close img)
            annotate "unable to remove ironcore os-image" (r.rbd.remove_image io rbd_id)
            delete_parent_image rbd_id snapshot_id)
      else deferring (r.rbd.close img) (cleared >> delete_parent_image rbd_id snapshot_id)

  unfoldable pub delete_snapshot : Io → Snapshot → Exec C Unit
  unfolding delete_open_snapshot get_snapshot_source_details
  delete_snapshot io snapshot =
      if not (contains snapshot.metadata.finalizers snapshot_finalizer) then pure tt else do
        (rbd_id, snapshot_id) ←
            annotate "failed to get snapshot source details"
              (lift (get_snapshot_source_details snapshot))
        catch (r.rbd.open_image io rbd_id (some snapshot_id))
            (λ e.
              if is e rbd_not_found
              then release_snapshot snapshot
              else fail (wrap "failed to open rbd image" e))
            (delete_open_snapshot io snapshot rbd_id snapshot_id)

  -- The switch on the source, and what follows it: the snapshot becomes Ready, or Failed.
  unfoldable pub populate_snapshot : Io → Snapshot → Exec C Unit
  unfolding reconcile_ironcore_image_snapshot reconcile_volume_image_snapshot
  populate_snapshot io snapshot =
      if str_eq snapshot.source.ironcore_image "" && str_eq snapshot.source.volume_image_id ""
      then fail (new "snapshot source not found")
      else catch
          (if not (str_eq snapshot.source.ironcore_image "")
            then reconcile_ironcore_image_snapshot io snapshot
            else reconcile_volume_image_snapshot io snapshot)
          (λ e.
            catch (r.store.update (with_state snapshot_state_failed snapshot))
              (λ update_err. fail (join e (wrap "failed to update snapshot state" update_err)))
              (λ _. fail (wrap "failed to reconcile snapshot" e)))
          (λ done. do
            annotate "failed to update snapshot"
                (r.store.update (with_state snapshot_state_ready done))
            pure tt)

  -- The states in which a snapshot is left as it is, and the move from Populated to Ready.
  unfoldable pub reconcile_state : Io → Snapshot → Exec C Unit
  unfolding populate_snapshot
  reconcile_state io snapshot =
      if str_eq snapshot.status.state snapshot_state_populated
      then (do
        annotate "failed to update snapshot"
            (r.store.update (with_state snapshot_state_ready snapshot))
        pure tt)
      else if str_eq snapshot.status.state snapshot_state_ready
      then pure tt
      else if str_eq snapshot.status.state snapshot_state_failed
      then pure tt
      else populate_snapshot io snapshot

  -- Adds the finalizer where it is missing, and goes on with the object that the store gave back.
  unfoldable pub ensure_finalizer : Snapshot → Exec C Snapshot
  ensure_finalizer snapshot =
      if contains snapshot.metadata.finalizers snapshot_finalizer
      then pure snapshot
      else annotate "failed to set finalizers" (
          r.store.update
            (with_finalizers (snapshot.metadata.finalizers ++ snapshot_finalizer ∷ []) snapshot))

  unfoldable pub reconcile_existing : Io → Snapshot → Exec C Unit
  unfolding ensure_finalizer reconcile_state get_snapshot_source_details
      snapshot_exists_and_protected protect_snapshot
  reconcile_existing io found = do
    snapshot ← ensure_finalizer found
    (rbd_id, snapshot_id) ←
        annotate "failed to get snapshot source details"
          (lift (get_snapshot_source_details snapshot))
    (exists, is_protected) ←
        annotate "failed to check snapshot existence"
          (snapshot_exists_and_protected r.rbd io rbd_id snapshot_id)
    when (exists && not is_protected)
        (annotate "failed to protect snapshot" (protect_snapshot r.rbd io rbd_id snapshot_id))
    reconcile_state io snapshot

  unfoldable pub reconcile_snapshot : String → Exec C Unit
  unfolding reconcile_existing delete_snapshot
  reconcile_snapshot id = do
    io ← annotate "unable to get io context" (r.rbd.open_io_context r.pool)
    catch (r.store.get id)
        (λ e.
          if is e store_not_found
          then pure tt
          else fail (wrap "failed to fetch snapshot from store" e))
        (λ snapshot. elim snapshot.metadata.deleted_at [
          | some t ↦ annotate "failed to delete snapshot" (delete_snapshot io snapshot)
          | none ↦ reconcile_existing io snapshot
        ])
