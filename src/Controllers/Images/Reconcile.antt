-- ===== src/Controllers/Images/Reconcile.antt =====
-- reconcileSnapshot, updateImage and reconcileImage of internal/controllers/image_controller.go.
use ceph_provider.Prelude.{
  ℕ, String, Bool, true, false, not, Option, none, some, [], ◌∷◌, ◌++◌, Map, insert, str_eq,
  str_append, ltb, ◌==◌, contains, if◌then◌else◌,
}
use ceph_provider.Errors.{new, wrap, is, store_not_found}
use ceph_provider.Exec.{Exec, pure, fail, lift, catch, annotate, when, ◌>>=◌, ◌>>◌}
use ceph_provider.Round.{off_bytes}
use ceph_provider.Api.{
  Image, ImageAccess, Snapshot, image_state_available, machine_architecture_label,
}
use ceph_provider.Api.Meta.{with_id}
use ceph_provider.External.{warning, normal}
use ceph_provider.Controllers.Common.{
  image_id_to_rbd_id, to_platform, create_os_image_source, with_image,
}
use ceph_provider.Controllers.Images.{
  ImageReconciler, event, fail_with, with_finalizers, image_finalizer, image_digest_label,
  is_image_existing, fetch_auth, set_wwn, set_encryption_header, set_image_limits,
  create_empty_image,
}
use ceph_provider.Controllers.Images.Clone.{create_image_from_snapshot}
use ceph_provider.Controllers.Images.Delete.{delete_image}

abbrev pub digest_labels : String → Option String → Map String
digest_labels digest none = (image_digest_label, digest) ∷ []
digest_labels digest (some arch) =
    insert machine_architecture_label arch ((image_digest_label, digest) ∷ [])

abbrev pub os_snapshot : String → Option String → String → Snapshot
os_snapshot digest arch name = record {
  metadata = record (with_id digest) { labels = digest_labels digest arch };
  source = record { ironcore_image = name; volume_image_id = "" };
  status = record { state = ""; digest = ""; size = 0 };
}

abbrev pub with_snapshot_ref : String → Image → Image
with_snapshot_ref id image = record image { spec = record image.spec { snapshot_ref = some id } }

abbrev pub with_size : ℕ → Image → Image
with_size size image = record image { status = record image.status { size = size } }

abbrev pub available : ImageAccess → ℕ → Image → Image
available access size image = record image {
  status = record image.status { access = some access; state = image_state_available; size = size };
}

abbrev pub needs_no_snapshot : Image → Bool
needs_no_snapshot image =
    if str_eq image.spec.image ""
    then true
    else elim image.spec.snapshot_ref [ none ↦ false | some ref ↦ true ]

module _ {C Io Img H : Type 0} (r : ImageReconciler C Io Img H) where
  -- The snapshot of an os image, made where the store has none.
  unfoldable pub get_or_create_snapshot : Image → String → String → Exec C Snapshot
  unfolding event fail_with
  get_or_create_snapshot image digest name =
      catch (r.snapshots.get digest)
        (λ e.
          if is e store_not_found
          then catch (r.snapshots.create (os_snapshot digest image.spec.image_architecture name))
              (λ e'.
                fail_with r image warning "CreateImageSnapshotFailed"
                  (wrap "failed to create snapshot" e'))
              (λ snap. event r image normal "CreateImageSnapshotSucceeded" >> pure snap)
          else fail (wrap "failed to get snapshot" e))
        pure

  -- The image with a reference to the snapshot of its os image.
  unfoldable pub reconcile_snapshot : Image → Exec C Image
  unfolding get_or_create_snapshot create_os_image_source to_platform
  reconcile_snapshot image = if needs_no_snapshot image then pure image else (do
    locator ←
        annotate "failed to parse image reference"
          (lift (r.registry.parse_locator image.spec.image))
    os_img_src ←
        annotate "failed to create os image source"
          (create_os_image_source r.registry (to_platform image.spec.image_architecture))
    resolved_img ←
        annotate "failed to resolve image ref in os image source"
          (r.registry.resolve os_img_src image.spec.image)
    let digest = r.registry.digest resolved_img
    snap ← get_or_create_snapshot image digest (str_append locator (str_append "@" digest))
    annotate "failed to update image snapshot ref"
        (r.images.update (with_snapshot_ref snap.metadata.id image)))

  -- The comparison of the size of the open image with the one asked for, and the resize.
  unfoldable pub resize_image : Image → Img → ℕ → Exec C Unit
  unfolding event fail_with off_bytes
  resize_image image img current_size =
      let requested_size = off_bytes image.spec.size in
      if current_size == requested_size
      then pure tt
      else if ltb requested_size current_size
      then fail_with r image warning "UpdateImageSizeFailed"
          (new "failed to shrink image: not supported")
      else catch (r.rbd.resize img requested_size)
          (λ e. fail_with r image warning "UpdateImageSizeFailed" (wrap "failed to resize image" e))
          (λ _. do
            image' ←
                annotate "failed to update size information of image"
                  (r.images.update (with_size requested_size image))
            event r image' normal "UpdatedImageSizeSucceeded")

  unfoldable pub update_image : Io → Image → Exec C Unit
  unfolding with_image resize_image image_id_to_rbd_id
  update_image io image = with_image r.rbd io (image_id_to_rbd_id image.metadata.id) λ img. do
    current_size ← annotate "failed to get image size" (r.rbd.get_size img)
    resize_image image img current_size

  -- The creation of the rbd image: whether it has been made.
  unfoldable pub create_rbd_image : Io → Image → Exec C Bool
  unfolding create_image_from_snapshot create_empty_image
  create_rbd_image io image = do
    options ← annotate "failed to set data pool" (r.rbd.data_pool_options r.pool)
    elim image.spec.snapshot_ref [
      | some ref ↦
          annotate "failed to create image from snapshot"
            (create_image_from_snapshot r io image ref options)
      | none ↦ do
        annotate "failed to create empty image" (create_empty_image r io image options)
        pure true
    ]

  -- From an rbd image that exists to an image that is available.
  unfoldable pub make_available : Io → Image → Exec C Unit
  unfolding set_wwn set_encryption_header set_image_limits fetch_auth event fail_with
      image_id_to_rbd_id off_bytes
  make_available io image = do
    annotate "failed to set wwn" (set_wwn r io image)
    encrypted ←
        catch (set_encryption_header r io image)
          (λ e.
            fail_with r image warning "ConfigureEncryptionFailed"
              (wrap "failed to set encryption header" e))
          pure
    annotate "failed to set limits" (set_image_limits r io encrypted)
    (user, key) ← annotate "failed to fetch credentials" (fetch_auth r)
    let access : ImageAccess = record {
      monitors = r.monitors;
      handle = str_append r.pool (str_append "/" (image_id_to_rbd_id image.metadata.id));
      user = user;
      user_key = key;
    }
    annotate "failed to update image metadate"
        (r.images.update (available access (off_bytes image.spec.size) encrypted))
    pure tt

  -- The part of reconcileImage after the snapshot of the os image.
  unfoldable pub reconcile_rbd : Io → Image → Exec C Unit
  unfolding is_image_existing update_image create_rbd_image make_available
  reconcile_rbd io image = do
    exists ← annotate "failed to check image existence" (is_image_existing r io image.metadata.id)
    if exists
        then (if str_eq image.status.state image_state_available
            then annotate "failed to update image" (update_image io image)
            else make_available io image)
        else (do made ← create_rbd_image io image; when made (make_available io image))

  unfoldable pub reconcile_existing : Io → Image → Exec C Unit
  unfolding reconcile_snapshot reconcile_rbd
  reconcile_existing io image =
      if not (contains image.metadata.finalizers image_finalizer)
      then (do
        annotate "failed to set finalizers" (
            r.images.update
              (with_finalizers (image.metadata.finalizers ++ image_finalizer ∷ []) image))
        pure tt)
      else (do
        image' ← annotate "failed to reconcile snapshot" (reconcile_snapshot image)
        reconcile_rbd io image')

  unfoldable pub reconcile_image : String → Exec C Unit
  unfolding reconcile_existing delete_image
  reconcile_image id = do
    io ← annotate "unable to get io context" (r.rbd.open_io_context r.pool)
    catch (r.images.get id)
        (λ e.
          if is e store_not_found
          then pure tt
          else fail (wrap "failed to fetch image from store" e))
        (λ image. elim image.metadata.deleted_at [
          | some t ↦ annotate "failed to delete image" (delete_image r io image)
          | none ↦ reconcile_existing io image
        ])
