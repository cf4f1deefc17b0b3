-- ===== src/Controllers/Images/Limited.antt =====
-- setImageLimits of internal/controllers/image_controller.go: it sets every limit.
use mathlib.Core.List.{append_assoc, append-nil}
use ceph_provider.Prelude.{ℕ, [], ◌∷◌, ◌++◌, Map, ◌≡◌, sym, subst, ap, ap, if◌then◌else◌}
use ceph_provider.Exec.{pure}
use ceph_provider.Exec.Triple.{Triple, Triple-catch, Triple-bind, Triple-pure}
use ceph_provider.Api.{Image}
use ceph_provider.External.{normal}
use ceph_provider.Controllers.Common.{image_id_to_rbd_id, with_image}
use ceph_provider.Controllers.Images.{ImageReconciler, is_empty, set_limits, set_image_limits}
use ceph_provider.Controllers.Images.Made.{
  rbd_name, SameSpec, AvailableLaws, At, Leaves, with_image-Leaves, fail_with-Leaves, event-Leaves,
}

module _ {C Io Img H : Type 0} (r : ImageReconciler C Io Img H) {P : C → Type 0}
    {Made : Map ℕ → C → Type 0} {io : Io} {image : Image}
    (laws : AvailableLaws r P Made io image) where
  -- Each limit is set after those before it.
  set_limits-Leaves :
      (i : Image) (img : Img) (done todo : Map ℕ)
      → laws.name_of img ≡ rbd_name image
      → Triple (At r laws done) (set_limits r i img todo) (Leaves r laws (done ++ todo))
  unfolding set_limits
  set_limits-Leaves i img done [] named =
      subst (λ l. Triple (At r laws done) (pure tt) (Leaves r laws l)) (sym (append-nil done))
        (Triple-pure tt λ c h. (h.0, λ d. h.1))
  set_limits-Leaves i img done ((limit, value) ∷ todo) named =
      Triple-catch (Leaves r laws (done ++ (limit, value) ∷ [])) _ _ _
        (laws.limits done img limit value named) (λ e. fail_with-Leaves r laws _ i normal _ _)
        (λ u. record {
          at = λ c h.
              (Triple-bind (λ x c. At r laws (done ++ (limit, value) ∷ []) c) _ _
                  (record {
                    at = (event-Leaves r laws (done ++ (limit, value) ∷ []) i normal _).after;
                  })
                  (λ e c h. (h.0, λ d. absurd d))
                  (λ u.
                    subst
                      (λ l.
                        Triple (At r laws (done ++ (limit, value) ∷ [])) (set_limits r i img todo)
                          (Leaves r laws l))
                      (append_assoc done ((limit, value) ∷ []) todo)
                      (set_limits-Leaves i img (done ++ (limit, value) ∷ []) todo named))).at
                c (h.0, h.1 tt);
        })

  -- setImageLimits sets all limits of the image.
  pub set_image_limits-Leaves :
      (i : Image)
      → SameSpec i image
      → Triple (At r laws []) (set_image_limits r io i) (Leaves r laws image.spec.limits)
  unfolding set_image_limits
  set_image_limits-Leaves i same =
      subst (λ l. Triple (At r laws []) (set_image_limits r io i) (Leaves r laws l)) same.1
        (go i.spec.limits)
    where
      go :
          (limits : Map ℕ)
          → Triple
              (At r laws [])
              (if is_empty r limits
                then pure tt
                else with_image r.rbd io (rbd_name i) (λ img. set_limits r i img limits))
              (Leaves r laws limits)
      go [] = Triple-pure tt λ c h. (h.0, λ d. h.1)
      go (limit ∷ limits) =
          subst
            (λ name.
              Triple (At r laws [])
                (with_image r.rbd io name (λ img. set_limits r i img (limit ∷ limits)))
                (Leaves r laws (limit ∷ limits)))
            (sym (ap image_id_to_rbd_id same.0))
            (with_image-Leaves r laws [] (limit ∷ limits) _
              (λ img named. set_limits-Leaves i img [] (limit ∷ limits) named))
