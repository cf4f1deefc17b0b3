-- ===== src/Controllers/Images/Available.antt =====
-- When the image controller makes an image Available.
use ceph_provider.Prelude.{
  ℕ, String, Bool, true, false, List, [], Map, ◌≡◌, refl, if◌then◌else◌, str_eq, str_append,
}
use ceph_provider.Exec.{Result, ok, pure, annotate, when, ◌>>=◌, ◌>>◌}
use ceph_provider.Exec.Keeps.{Keeps}
use ceph_provider.Exec.Triple.{Triple, Triple-bind, Triple-pure, Triple-if, Triple-annotate}
use ceph_provider.Round.{off_bytes}
use ceph_provider.Api.{Image, ImageAccess, image_state_available}
use ceph_provider.Controllers.Common.{image_id_to_rbd_id}
use ceph_provider.Controllers.Images.{
  ImageReconciler, member, is_image_existing, fetch_auth, set_image_limits,
}
use ceph_provider.Controllers.Images.Reconcile.{
  create_rbd_image, make_available, reconcile_rbd, update_image, available,
}
use ceph_provider.Controllers.Images.Made.{rbd_name, SameSpec, AvailableLaws, At}
use ceph_provider.Controllers.Images.Limited.{set_image_limits-Leaves}
use ceph_provider.Controllers.Images.Cloned.{Answers, annotated, create_rbd_image-Answers}
use ceph_provider.Controllers.Images.Configured.{
  Returns, next, set_wwn-Leaves, fetch_auth-Leaves, configured,
}

module _ {C Io Img H : Type 0} (r : ImageReconciler C Io Img H) {P : C → Type 0}
    {Made : Map ℕ → C → Type 0} {io : Io} {image : Image}
    (laws : AvailableLaws r P Made io image) where
  -- From an rbd image that exists, an image is Available after all its limits have been set.
  make_available-kept : Triple (At r laws []) (make_available r io image) (λ x c. P c)
  unfolding make_available
  make_available-kept =
      next r laws [] _ (set_wwn-Leaves r laws) (λ e c h. h)
        λ u.
          Triple-bind (Returns r laws) _ _ (configured r laws) (λ e c h. h.0.0)
            λ encrypted. record {
              at = λ c h. (rest encrypted (h.1 encrypted refl)).at c (h.0.0, h.0.1 tt);
            }
    where
      rest :
          (encrypted : Image)
          → SameSpec encrypted image
          → Triple
              (At r laws [])
              (do
                annotate "failed to set limits" (set_image_limits r io encrypted)
                (user, key) ← annotate "failed to fetch credentials" (fetch_auth r)
                let access : ImageAccess = record {
                  monitors = r.monitors;
                  handle =
                      str_append r.pool (str_append "/" (image_id_to_rbd_id image.metadata.id));
                  user = user;
                  user_key = key;
                }
                annotate "failed to update image metadate"
                    (r.images.update (available access (off_bytes image.spec.size) encrypted))
                pure tt)
              (λ x c. P c)
      rest encrypted same =
          next r laws image.spec.limits _ (set_image_limits-Leaves r laws encrypted same)
            (λ e c h. h)
            λ u.
              next r laws image.spec.limits _ (fetch_auth-Leaves r laws image.spec.limits)
                (λ e c h. h)
                λ auth.
                  Triple-bind (λ x c. P c) _ _
                    (Triple-annotate (λ x c. P c) _ _ (laws.makes _ refl) (λ e c h. h) (λ a c h. h))
                    (λ e c h. h) (λ o. Triple-pure tt λ c h. h)

  is_image_existing-Answers : Triple P (is_image_existing r io image.metadata.id) (Answers r laws)
  unfolding is_image_existing
  is_image_existing-Answers =
      Triple-bind Lists _ _
        (Triple-annotate Lists _ _ laws.lists (λ e c h. (h.0, λ names q. absurd (cc q)))
          (λ names c h. h))
        (λ e c h. (h.0, λ d. absurd (cc d)))
        (λ names. Triple-pure _ λ c h. (h.0, λ d. h.1 names refl (cc d)))
    where
      Lists : Result (List String) → C → Type 0
      Lists x c =
          P c
          × ((names : List String)
              → x ≡ ok names
              → member r names (rbd_name image) ≡ true
              → Made [] c)

  -- The image controller hands an image that is not Available to the store as Available only where
  -- the rbd image exists, as librbd has listed it, created it or cloned it, and after librbd has set
  -- every limit of the image on it: what its other calls keep, and what that Update keeps once this is
  -- so, the reconciliation of the rbd image keeps.
  pub reconcile_rbd-Keeps :
      str_eq image.status.state image_state_available ≡ false → Keeps P (reconcile_rbd r io image)
  unfolding reconcile_rbd when
  reconcile_rbd-Keeps pending = record {
    after =
        (Triple-bind (Answers r laws) _ _ (annotated r laws _ is_image_existing-Answers)
          (λ e c h. h.0) found).at;
  }
    where
      making :
          (made : Bool)
          → Triple (Answers r laws (ok made)) (when made (make_available r io image)) (λ x c. P c)
      making true = record { at = λ c h. make_available-kept.at c (h.0, h.1 refl) }
      making false = Triple-pure tt λ c h. h.0

      found :
          (exists : Bool)
          → Triple
              (Answers r laws (ok exists))
              (if exists
                then (if str_eq image.status.state image_state_available
                    then annotate "failed to update image" (update_image r io image)
                    else make_available r io image)
                else (do made ← create_rbd_image r io image; when made (make_available r io image)))
              (λ x c. P c)
      found true = record {
        at = λ c h.
            (Triple-if (str_eq image.status.state image_state_available) _ _
                (λ y. absurd (cc (y, pending))) (λ n. make_available-kept)).at
              c (h.0, h.1 refl);
      }
      found false = record {
        at = λ c h.
            (Triple-bind (Answers r laws) _ _ (create_rbd_image-Answers r laws) (λ e c h. h.0)
                making).at
              c h.0;
      }
