-- ===== src/Controllers/Images/Order.antt =====
-- In which order the image controller makes its calls: what it does before the store lets an image go,
-- and before librbd resizes one.
use ceph_provider.Prelude.{
  ℕ, String, true, false, not, Option, none, some, ◌≡◌, ◌<◌, ◌==◌, ltb, contains, arith,
}
use ceph_provider.Errors.{Error, wrap, is, rbd_not_found}
use ceph_provider.Exec.{Exec, Result, ok, err, fail, ◌>>◌}
use ceph_provider.Exec.Keeps.{Keeps, Keeps-catch, Keeps-fail, Keeps-pure, Keeps-if, Keeps-annotate}
use ceph_provider.Exec.Triple.{
  Triple, Triple-catch, Triple-bind, Triple-pure, Triple-fail, Triple-if,
}
use ceph_provider.Utils.{delete_slice_element}
use ceph_provider.Round.{off_bytes}
use ceph_provider.Api.{Image}
use ceph_provider.Api.Meta.{Metadata}
use ceph_provider.External.{EventType, warning, normal}
use ceph_provider.Controllers.Common.{image_id_to_rbd_id}
use ceph_provider.Controllers.Images.{ImageReconciler, with_finalizers, image_finalizer, event}
use ceph_provider.Controllers.Images.Delete.{delete_image, remove_rbd_image, release_image}
use ceph_provider.Controllers.Images.Reconcile.{resize_image, with_size}
use ceph_provider.Controllers.Images.Frame.{
  CallsKeep, delete_image_snapshots-Keeps, event-Keeps, fail_with-Keeps,
}

-- A removal that leaves no image: it succeeded, or there was none.
abbrev pub IsRemoved : Result (Unit {0}) → Type 0
IsRemoved (ok u) = Unit {0}
IsRemoved (err e) = is e rbd_not_found ≡ true

above : (a b : ℕ) → (a == b) ≡ false → ltb b a ≡ false → a < b
above a b differs not_smaller = ground arith

abbrev pub released : Image → Image
released image =
    with_finalizers (delete_slice_element image.metadata.finalizers image_finalizer) image

module _ {C Io Img H : Type 0} (r : ImageReconciler C Io Img H) {P : C → Type 0}
    (k : CallsKeep r P) where
  module _ {Gone : C → Type 0} (io : Io) (image : Image)
      (removes : Triple P
        (r.rbd.remove_image io (image_id_to_rbd_id image.metadata.id))
        (λ result c. P c × (IsRemoved result → Gone c)))
      (releases : Triple
        (λ c. P c × Gone c)
        (r.images.update (released image))
        (λ result c. P c)) where
    remove_rbd_image-Gone :
        Triple P (remove_rbd_image r io image) (λ result c. P c × (IsRemoved result → Gone c))
    unfolding remove_rbd_image is
    remove_rbd_image-Gone =
        Triple-catch _ _ _ _ removes
          (λ e.
            Triple-if (is e rbd_not_found) _ _ (λ y. Triple-pure _ λ c h. (h.0, λ u. h.1 y))
              (λ n. Triple-fail _ λ c h. (h.0, λ y. absurd (cc (n, y)))))
          (λ u. Triple-pure _ λ c h. h)

    kept : {A : Type 0} {m : Exec C A} → Keeps P m → Triple P m (λ result c. P c)
    kept km = record { at = km.after }

    release_image-kept : Triple (λ c. P c × Gone c) (release_image r image) (λ result c. P c)
    unfolding release_image
    release_image-kept =
        Triple-catch (λ result c. P c) _ _ _ releases (λ e. handled e (r.images.ignore_not_found e))
          (λ image'. kept (event-Keeps r k.eventf image' normal "ImageDeletionSucceeded"))
      where
        handled :
            (e : Error) (o : Option Error)
            → Triple P
                (elim o [
                  | none ↦ event r (released image) normal "ImageDeletionSucceeded"
                  | some e' ↦ fail (wrap "failed to update image metadata" e)
                ])
                (λ result c. P c)
        handled e none =
            kept (event-Keeps r k.eventf (released image) normal "ImageDeletionSucceeded")
        handled e (some e') = kept (Keeps-fail _)

    removed_then_released :
        Triple P (do remove_rbd_image r io image; release_image r image) (λ result c. P c)
    removed_then_released =
        Triple-bind _ _ _ remove_rbd_image-Gone (λ e c h. h.0)
          (λ u. record { at = λ c h. release_image-kept.at c (h.0, h.1 tt) })

    -- The image controller hands an image without its finalizer to the store only after librbd has
    -- removed the rbd image or has said that there is none: what all its other calls keep, and what
    -- that Update keeps once the rbd image is gone, deleteImage keeps.
    pub delete_image-Keeps : Keeps P (delete_image r io image)
    unfolding delete_image
    delete_image-Keeps =
        Keeps-if (not (contains image.metadata.finalizers image_finalizer)) _ _ (λ _. Keeps-pure tt)
          λ _.
            Keeps-catch _ _ _ (Keeps-annotate _ _ (delete_image_snapshots-Keeps r k io image))
              Keeps-fail (λ u. record { after = removed_then_released.at })

module _ {C Io Img H : Type 0} (r : ImageReconciler C Io Img H) {P : C → Type 0}
    (records : (m : Metadata) (kind : EventType) (reason : String) (c : C)
      → P c
      → P (r.recorder.eventf m kind reason c)) where
  -- An image that is resized grows to the rounded size of its request, and only such a size is
  -- written to the store: what the events keep, the comparison and the resize keep, if librbd's
  -- Resize of that image to that size does where it is the larger, and the Update with that size
  -- does where it is the larger. No other call of librbd or of the store is assumed to keep it.
  pub resize_image-Keeps :
      (image : Image) (img : Img) (current_size : ℕ)
      → (current_size < off_bytes image.spec.size
          → Keeps P (r.rbd.resize img (off_bytes image.spec.size)))
      → (current_size < off_bytes image.spec.size
          → Keeps P (r.images.update (with_size (off_bytes image.spec.size) image)))
      → Keeps P (resize_image r image img current_size)
  unfolding resize_image
  resize_image-Keeps image img current_size resizes updates =
      Keeps-if (current_size == off_bytes image.spec.size) _ _ (λ _. Keeps-pure tt)
        λ differs.
          Keeps-if (ltb (off_bytes image.spec.size) current_size) _ _
            (λ _. fail_with-Keeps r records image warning "UpdateImageSizeFailed" _)
            λ not_smaller.
              let larger : current_size < off_bytes image.spec.size =
                above current_size (off_bytes image.spec.size) differs not_smaller in
              Keeps-catch _ _ _ (resizes larger)
                (λ e. fail_with-Keeps r records image warning "UpdateImageSizeFailed" _)
                (λ u.
                  Keeps-catch _ _ _ (Keeps-annotate _ _ (updates larger)) Keeps-fail
                    (λ image'. event-Keeps r records image' normal _))
