-- ===== src/Controllers/Images/Cloned.antt =====
-- createImageFromSnapshot and createEmptyImage of internal/controllers/image_controller.go: when they
-- answer that the rbd image has been made.
use ceph_provider.Prelude.{
  ℕ, String, Bool, true, false, not, Option, none, some, [], Map, ◌≡◌, refl,
}
use ceph_provider.Prelude.Words.{int64_lt}
use ceph_provider.Errors.{Error, wrap, is, store_not_found}
use ceph_provider.Exec.{Exec, Result, ok, err, pure, fail, catch, annotate, ◌>>◌}
use ceph_provider.Exec.Keeps.{
  Keeps, Keeps-annotate, Keeps-catch, Keeps-fail, Keeps-pure, Keeps-lift, Keeps-when,
}
use ceph_provider.Exec.Triple.{
  Triple, Triple-catch, Triple-bind, Triple-pure, Triple-fail, Triple-if, Triple-annotate,
  Triple-of,
}
use ceph_provider.Api.{Image, Snapshot}
use ceph_provider.External.{warning, normal}
use ceph_provider.Controllers.Frame.{snapshot_exists_and_protected-Keeps, protect_snapshot-Keeps}
use ceph_provider.Controllers.Images.{ImageReconciler, fail_with, create_empty_image, event}
use ceph_provider.Controllers.Images.Clone.{
  clone_and_resize, create_image_from, create_image_from_snapshot, mark_failed, is_usable,
}
use ceph_provider.Controllers.Images.Reconcile.{create_rbd_image}
use ceph_provider.Controllers.Images.Made.{
  AvailableLaws, At, Leaves, leaving, with_image-Leaves, fail_with-Leaves, event-Leaves,
}

module _ {C Io Img H : Type 0} (r : ImageReconciler C Io Img H) {P : C → Type 0}
    {Made : Map ℕ → C → Type 0} {io : Io} {image : Image}
    (laws : AvailableLaws r P Made io image) where
  -- The answer that the rbd image has been made.
  abbrev pub Answers : Result Bool → C → Type 0
  Answers x c = P c × (x ≡ ok true → Made [] c)

  kept : {A : Type 0} {m : Exec C A} → Keeps P m → Triple P m (λ x c. P c)
  kept km = record { at = km.after }

  -- A call that is made first, and the rest.
  first :
      {A : Type 0} {m : Exec C A} {f : A → Exec C Bool}
      → Keeps P m
      → ((a : A) → Triple P (f a) Answers)
      → Triple P (catch m fail f) Answers
  first km tf = Triple-bind _ _ _ (kept km) (λ e c h. (h, λ d. absurd (cc d))) tf

  no : (b : Bool) → b ≡ false → Triple P (pure b) Answers
  no b e = Triple-pure b λ c h. (h, λ d. absurd (cc (d, e)))

  fails : (e : Error) → Triple P (fail e) Answers
  fails e = Triple-fail e λ c h. (h, λ d. absurd (cc d))

  -- The rest after a call that has made the rbd image.
  when_made :
      {A : Type 0} {m : Exec C A} {Q : Result A → C → Type 0}
      → Triple (At r laws []) m Q
      → Triple (λ c. P c × (Unit {0} → Made [] c)) m Q
  when_made t = record { at = λ c h. t.at c (h.0, h.1 tt) }

  -- What leaves the rbd image made, and then the answer.
  answered : (x : Result Bool) (c : C) → Leaves r laws [] x c → Answers x c
  answered (ok b) c h = (h.0, λ d. h.1 tt)
  answered (err e) c h = (h.0, λ d. absurd (cc d))

  failed :
      {R : C → Type 0} (reason : String) (e : Error)
      → Triple (λ c. P c × R c) (fail_with r {A = Bool} image warning reason e) Answers
  failed reason e = Triple-of _ (fail_with-Leaves r laws [] image warning reason e) answered

  resized :
      (img : Img) (n : ℕ)
      → Triple
          (At r laws [])
          (do
            annotate "failed to resize rbd image" (r.rbd.resize img n)
            event r image normal "CreateImageFromSnapshotSucceeded"
            pure true)
          (Leaves r laws [])
  resized img n = leaving r laws [] (
      Keeps-catch _ _ _ (Keeps-annotate _ _ (laws.resizes [] img n)) Keeps-fail λ u.
        Keeps-catch _ _ _ (event-Leaves r laws [] image normal _) Keeps-fail λ u'. Keeps-pure true)

  clone_and_resize-Answers :
      (parent snap options : String)
      → Triple P (clone_and_resize r io image parent snap options) Answers
  unfolding clone_and_resize
  clone_and_resize-Answers parent snap options =
      first (Keeps-annotate _ _ (laws.calls.rbd.open_io_context r.pool)) λ io2.
        Triple-catch _ _ _ _ (laws.clones io2 parent snap options)
          (λ e. failed "CreateImageFromSnapshotFailed" _)
          (λ u.
            when_made
              (Triple-of _ (with_image-Leaves r laws [] [] _ λ img named. resized img _) answered))

  -- A false answer, or none.
  mark_failed-Answers : (s : Snapshot) → Triple P (mark_failed r s) Answers
  unfolding mark_failed
  mark_failed-Answers s =
      Triple-catch _ _ _ _ (kept (laws.calls.snapshot_update _))
        (λ e. handled e (r.snapshots.ignore_not_found e)) (λ _. no false refl)
    where
      handled :
          (e : Error) (o : Option Error)
          → Triple P
              (elim o [
                | none ↦ pure false
                | some e' ↦ fail (wrap "failed to update snapshot state" e)
              ])
              Answers
      handled e none = no false refl
      handled e (some e') = fails _

  create_image_from-Answers :
      (s : Snapshot) (options : String) → Triple P (create_image_from r io image s options) Answers
  unfolding create_image_from
  create_image_from-Answers s options =
      Triple-if (int64_lt image.spec.size s.status.size) _ _
        (λ y. plain (failed "ImageSizeIsSmallerThanSnapshotSize" _))
        λ n.
          Triple-if (not (is_usable s)) _ _ (λ y. no false refl)
            λ n'. first (Keeps-annotate _ _ (Keeps-lift _)) λ details.
              first
                (Keeps-annotate _ _
                  (snapshot_exists_and_protected-Keeps r.rbd laws.calls.rbd io _ _))
                λ found.
                  first
                    (Keeps-when _ _
                      λ y. Keeps-annotate _ _ (protect_snapshot-Keeps r.rbd laws.calls.rbd io _ _))
                    λ u.
                      Triple-if found.0 _ _ (λ y. clone_and_resize-Answers _ _ options)
                        (λ n. mark_failed-Answers s)
    where
      plain : {m : Exec C Bool} → Triple (λ c. P c × Unit {0}) m Answers → Triple P m Answers
      plain t = record { at = λ c h. t.at c (h, tt) }

  create_image_from_snapshot-Answers :
      (ref options : String) → Triple P (create_image_from_snapshot r io image ref options) Answers
  unfolding create_image_from_snapshot
  create_image_from_snapshot-Answers ref options =
      Triple-catch _ _ _ _ (kept (laws.calls.snapshots.get ref))
        (λ e. Triple-if (is e store_not_found) _ _ (λ y. no false refl) (λ n. fails _))
        (λ s. create_image_from-Answers s options)

  create_empty_image-Leaves :
      (options : String) → Triple P (create_empty_image r io image options) (Leaves r laws [])
  unfolding create_empty_image
  create_empty_image-Leaves options =
      Triple-catch _ _ _ _ (laws.creates options)
        (λ e. fail_with-Leaves r laws [] image warning "EmptyImageCreationFailed" _)
        (λ u. when_made (leaving r laws [] (event-Leaves r laws [] image normal _)))

  pub annotated :
      (text : String) {m : Exec C Bool} → Triple P m Answers → Triple P (annotate text m) Answers
  annotated text t = Triple-annotate Answers _ _ t (λ e c h. (h.0, λ d. absurd (cc d))) (λ a c h. h)

  -- Where it answers true, the rbd image has been made.
  pub create_rbd_image-Answers : Triple P (create_rbd_image r io image) Answers
  unfolding create_rbd_image
  create_rbd_image-Answers =
      first (Keeps-annotate _ _ (laws.calls.rbd.data_pool_options r.pool))
        λ options. made options image.spec.snapshot_ref
    where
      made :
          (options : String) (ref : Option String)
          → Triple P
              (elim ref [
                | some id ↦
                    annotate "failed to create image from snapshot"
                      (create_image_from_snapshot r io image id options)
                | none ↦ do
                  annotate "failed to create empty image" (create_empty_image r io image options)
                  pure true
              ])
              Answers
      made options (some id) = annotated _ (create_image_from_snapshot-Answers id options)
      made options none =
          Triple-bind (Leaves r laws []) _ _
            (Triple-annotate (Leaves r laws []) _ _ (create_empty_image-Leaves options)
              (λ e c h. (h.0, λ d. absurd d)) (λ a c h. h))
            (λ e c h. (h.0, λ d. absurd (cc d))) (λ u. Triple-pure true λ c h. (h.0, λ d. h.1 tt))
