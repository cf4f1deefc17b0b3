-- ===== src/Controllers/Snapshots/Made.antt =====
-- The rbd snapshot of a snapshot: when createSnapshot has made it.
use ceph_provider.Prelude.{String, false, none, ◌≡◌, refl}
use ceph_provider.Errors.{wrap, is, store_not_found, rbd_not_found}
use ceph_provider.Exec.{Exec, Result, ok, err, pure, fail, catch, annotate, ◌>>◌}
use ceph_provider.Exec.Keeps.{Keeps, Keeps-annotate}
use ceph_provider.Exec.Triple.{
  Triple, Triple-catch, Triple-bind, Triple-pure, Triple-fail, Triple-if, Triple-annotate,
  Triple-deferring,
}
use ceph_provider.Api.{Image, Snapshot, snapshot_state_ready, snapshot_state_failed}
use ceph_provider.Controllers.Common.{open_image, with_image, create_snapshot}
use ceph_provider.Controllers.Snapshots.{SnapshotReconciler, with_state}
use ceph_provider.Controllers.Snapshots.Frame.{CallsKeep}
use ceph_provider.Controllers.Snapshots.Order.{IsDone}

-- The source image is in the store under its id, or the store could not be read.
abbrev pub IsFound : String → Result Image → Type 0
IsFound id (ok image) = image.metadata.id ≡ id
IsFound id (err e) = is e store_not_found ≡ false

-- What the calls do to a world in `P`, to one in which the rbd snapshot `name` of the rbd image
-- `rbd_id` is `There`, and to one in which it is `Made`: it exists and is protected.
pub record MakeLaws {C Io Img H : Type 0} (r : SnapshotReconciler C Io Img H)
    (P There Made : C → Type 0) (io : Io) (snapshot : Snapshot) (rbd_id name : String)
    : Type 0 where
  pub calls : CallsKeep r P
  -- the rbd image of an open one
  pub name_of : Img → String
  pub opens :
      (image : String)
      → Triple P
          (r.rbd.open_image io image none)
          (λ x c. P c × ((img : Img) → x ≡ ok img → name_of img ≡ image))
  pub creates :
      (img : Img)
      → name_of img ≡ rbd_id
      → Triple P (r.rbd.create_snapshot img name) (λ x c. P c × (IsDone x → There c))
  pub protects :
      (img : Img)
      → name_of img ≡ rbd_id
      → Triple (λ c. P c × There c) (r.rbd.protect img name) (λ x c. P c × (IsDone x → Made c))
  pub sets : (img : Img) → Keeps (λ c. P c × Made c) (r.rbd.set_snapshot img name)
  pub closes : (img : Img) → Keeps (λ c. P c × Made c) (r.rbd.close img)
  pub reader_closes : (h : H) → Keeps (λ c. P c × Made c) (r.registry.close_reader h)
  pub source :
      Triple P
        (r.images.get snapshot.source.volume_image_id)
        (λ x c. P c × IsFound snapshot.source.volume_image_id x)
  pub fails : Keeps P (r.store.update (with_state snapshot_state_failed snapshot))
  pub readies :
      (o : Snapshot)
      → o.status.state ≡ snapshot_state_ready
      → Triple (λ c. P c × Made c) (r.store.update o) (λ x c. P c)

module _ {C Io Img H : Type 0} (r : SnapshotReconciler C Io Img H) {P There Made : C → Type 0}
    {io : Io} {snapshot : Snapshot} {rbd_id name : String}
    (laws : MakeLaws r P There Made io snapshot rbd_id name) where
  -- A call that succeeds leaves the rbd snapshot made.
  abbrev pub Makes : {A : Type 0} → Result A → C → Type 0
  Makes x c = P c × (IsDone x → Made c)

  kept : {A : Type 0} {m : Exec C A} → Keeps P m → Triple P m (λ x c. P c)
  kept km = record { at = km.after }

  -- A cleanup after a call that may have made the snapshot.
  pub tidy :
      {A B : Type 0} {cleanup : Exec C B}
      → Keeps P cleanup
      → Keeps (λ c. P c × Made c) cleanup
      → (x : Result A) → Triple (Makes x) cleanup (λ y c. Makes x c)
  tidy kp km (ok a) = record { at = λ c h. let q = km.after c (h.0, h.1 tt) in (q.0, λ d. q.1) }
  tidy kp km (err e) = record { at = λ c h. (kp.after c h.0, λ d. absurd d) }

  -- An annotated call.
  annotated :
      {A : Type 0} {m : Exec C A} (text : String)
      → Triple P m Makes
      → Triple P (annotate text m) Makes
  annotated text t = Triple-annotate Makes text _ t (λ e c h. (h.0, λ d. absurd d)) (λ a c h. h)

  open_image-named :
      (image : String)
      → Triple P
          (open_image r.rbd io image)
          (λ x c. P c × ((img : Img) → x ≡ ok img → laws.name_of img ≡ image))
  unfolding open_image
  open_image-named image =
      Triple-catch _ _ _ _ (laws.opens image)
        (λ e.
          Triple-if (is e rbd_not_found) (fail e) (fail (wrap "failed to open image" e))
            (λ y. Triple-fail e λ c h. (h.0, λ img q. absurd (cc q)))
            (λ n. Triple-fail (wrap "failed to open image" e) λ c h. (h.0, λ img q. absurd (cc q))))
        (λ img. Triple-pure img (λ c h. h))

  create_snapshot-Makes : Triple P (create_snapshot r.rbd io name rbd_id) Makes
  unfolding create_snapshot with_image
  create_snapshot-Makes =
      Triple-bind _ _ _ (open_image-named rbd_id) (λ e c h. (h.0, λ d. absurd d))
        λ img. record {
          at = λ c h.
              (Triple-deferring Makes _ _ (body img (h.1 img refl))
                  (tidy (laws.calls.rbd.close img) (laws.closes img))).at
                c h.0;
        }
    where
      there :
          (img : Img)
          → laws.name_of img ≡ rbd_id
          → Triple P
              (annotate "unable to create snapshot" (r.rbd.create_snapshot img name))
              (λ x c. P c × (IsDone x → There c))
      there img named =
          Triple-annotate _ _ _ (laws.creates img named) (λ e c h. (h.0, λ d. absurd d))
            (λ a c h. h)

      protected :
          (img : Img)
          → laws.name_of img ≡ rbd_id
          → Triple
              (λ c. P c × (Unit {0} → There c))
              (annotate "unable to protect snapshot" (r.rbd.protect img name))
              Makes
      protected img named = record {
        at = λ c h.
            (Triple-annotate {Q = λ x c'. Makes {A = Unit} x c'} Makes _ _ (laws.protects img named)
                (λ e c' q. (q.0, λ d. absurd d)) (λ a c' q. q)).at
              c (h.0, h.1 tt);
      }

      body :
          (img : Img)
          → laws.name_of img ≡ rbd_id
          → Triple P
              (do
                annotate "unable to create snapshot" (r.rbd.create_snapshot img name)
                annotate "unable to protect snapshot" (r.rbd.protect img name)
                annotate "failed to set snapshot" (r.rbd.set_snapshot img name))
              Makes
      body img named =
          Triple-bind _ _ _ (there img named) (λ e c h. (h.0, λ d. absurd d))
            λ u.
              Triple-bind _ _ _ (protected img named) (λ e c h. (h.0, λ d. absurd d))
                λ u'. record {
                  at = λ c h.
                      let q =
                        (Keeps-annotate "failed to set snapshot" _ (laws.sets img)).after c
                          (h.0, h.1 tt) in
                      (q.0, λ d. q.1);
                }

  -- A call that is made first, and the rest.
  pub first :
      {A B : Type 0} {m : Exec C A} {f : A → Exec C B}
      → Keeps P m
      → ((a : A) → Triple P (f a) Makes)
      → Triple P (catch m fail f) Makes
  first km tf = Triple-bind _ _ _ (kept km) (λ e c h. (h, λ d. absurd d)) tf

  pub created :
      {A : Type 0} (image snap text : String)
      → image ≡ rbd_id
      → snap ≡ name
      → (a : A)
      → Triple P
          (catch (annotate text (create_snapshot r.rbd io snap image)) fail (λ u. pure a))
          Makes
  created image snap text e e' a =
      Triple-bind _ _ _ (annotated text at_names) (λ x c h. (h.0, λ d. absurd d))
        (λ u. Triple-pure a (λ c h. (h.0, λ d. h.1 tt)))
    where
      at_names : Triple P (create_snapshot r.rbd io snap image) Makes
      at_names = rw (e, e') create_snapshot-Makes
