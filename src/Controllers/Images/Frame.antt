-- ===== src/Controllers/Images/Frame.antt =====
-- The invariants that the steps of the image controller keep where its single calls do.
use ceph_provider.Prelude.{String, Bool, false, Option, none, some, List, [], ◌∷◌}
use ceph_provider.Errors.{Error, wrap}
use ceph_provider.Exec.{pure, fail}
use ceph_provider.Exec.Keeps.{Keeps, Keeps-catch, Keeps-fail, Keeps-pure, keeps_rules}
use ceph_provider.Api.{Image, Snapshot}
use ceph_provider.Api.Meta.{Metadata}
use ceph_provider.External.{EventType}
use ceph_provider.Store.{Store}
use ceph_provider.Controllers.Frame.{
  RbdKeeps, open_image-Keeps, with_image-Keeps, create_snapshot-Keeps, remove_snapshot-Keeps,
  flatten_child_images-Keeps, snapshot_exists_and_protected-Keeps, protect_snapshot-Keeps,
}
use ceph_provider.Controllers.Images.{ImageReconciler, event, fail_with, is_image_existing}
use ceph_provider.Controllers.Images.Clone.{
  clone_and_resize, mark_failed, create_image_from, create_image_from_snapshot, is_stored,
  store_clone, clone_missing, clone_snapshot,
}
use ceph_provider.Controllers.Images.Delete.{
  secure_snapshot, secure_snapshots, move_snapshot, move_snapshots, delete_snapshots_of,
  delete_image_snapshots,
}

-- Every call of a store but Update and Delete keeps `P`.
pub record ReadsKeep {C E : Type 0} (store : Store C E) (P : C → Type 0) : Type 0 where
  pub get : (id : String) → Keeps P (store.get id)
  pub create : (o : E) → Keeps P (store.create o)

-- Every call of the image controller keeps `P`, but those of Update and Delete on images.
pub record CallsKeep {C Io Img H : Type 0} (r : ImageReconciler C Io Img H) (P : C → Type 0)
    : Type 0 where
  pub rbd : RbdKeeps r.rbd P
  pub images : ReadsKeep r.images P
  pub snapshots : ReadsKeep r.snapshots P
  pub snapshot_update : (o : Snapshot) → Keeps P (r.snapshots.update o)
  pub eventf :
      (m : Metadata) (kind : EventType) (reason : String) (c : C)
      → P c
      → P (r.recorder.eventf m kind reason c)

module _ {C Io Img H : Type 0} (r : ImageReconciler C Io Img H) {P : C → Type 0}
    (records : (m : Metadata) (kind : EventType) (reason : String) (c : C)
      → P c
      → P (r.recorder.eventf m kind reason c)) where
  pub event-Keeps :
      (i : Image) (kind : EventType) (reason : String) → Keeps P (event r i kind reason)
  unfolding event
  event-Keeps i kind reason = record { after = λ c h. records i.metadata kind reason c h }

  pub fail_with-Keeps :
      {A : Type 0} (i : Image) (kind : EventType) (reason : String) (e : Error)
      → Keeps P (fail_with r {A = A} i kind reason e)
  unfolding fail_with
  fail_with-Keeps i kind reason e = search (keeps_rules, event-Keeps)

module _ {C Io Img H : Type 0} (r : ImageReconciler C Io Img H) {P : C → Type 0}
    (k : CallsKeep r P) where
  is_image_existing-Keeps : (io : Io) (id : String) → Keeps P (is_image_existing r io id)
  unfolding is_image_existing
  is_image_existing-Keeps io id = search (keeps_rules, k.rbd.get_image_names)

  clone_and_resize-Keeps :
      (io : Io) (i : Image) (p s o : String) → Keeps P (clone_and_resize r io i p s o)
  unfolding clone_and_resize
  clone_and_resize-Keeps io i p s o =
      search
        (
          keeps_rules,
          k.rbd.open_io_context,
          k.rbd.clone_image,
          k.rbd.resize,
          with_image-Keeps r.rbd k.rbd,
          event-Keeps r k.eventf,
          fail_with-Keeps r k.eventf,
        )
        depth 12

  pub mark_failed-Keeps : (s : Snapshot) → Keeps P (mark_failed r s)
  unfolding mark_failed
  mark_failed-Keeps s =
      Keeps-catch _ _ _ (k.snapshot_update _) (λ e. handled e (r.snapshots.ignore_not_found e))
        (λ _. Keeps-pure false)
    where
      handled :
          (e : Error) (o : Option Error)
          → Keeps P (elim o [
            | none ↦ pure false
            | some e' ↦ fail (wrap "failed to update snapshot state" e)
          ])
      handled e none = Keeps-pure false
      handled e (some e') = Keeps-fail _

  create_image_from-Keeps :
      (io : Io) (i : Image) (s : Snapshot) (o : String) → Keeps P (create_image_from r io i s o)
  unfolding create_image_from
  create_image_from-Keeps io i s o =
      search
        (
          keeps_rules,
          fail_with-Keeps r k.eventf,
          snapshot_exists_and_protected-Keeps r.rbd k.rbd,
          protect_snapshot-Keeps r.rbd k.rbd,
          clone_and_resize-Keeps,
          mark_failed-Keeps,
        )
        depth 14

  pub create_image_from_snapshot-Keeps :
      (io : Io) (i : Image) (s o : String) → Keeps P (create_image_from_snapshot r io i s o)
  unfolding create_image_from_snapshot
  create_image_from_snapshot-Keeps io i s o =
      search (keeps_rules, k.snapshots.get, create_image_from-Keeps) depth 8

  is_stored-Keeps : (id : String) → Keeps P (is_stored r id)
  unfolding is_stored
  is_stored-Keeps id = search (keeps_rules, k.images.get) depth 8

  store_clone-Keeps : (s : String) (i : Image) → Keeps P (store_clone r s i)
  unfolding store_clone
  store_clone-Keeps s i = search (keeps_rules, k.images.create) depth 8

  clone_missing-Keeps :
      (io : Io) (s : String) (i : Image) (b : Bool) → Keeps P (clone_missing r io s i b)
  unfolding clone_missing
  clone_missing-Keeps io s i b =
      search
        (keeps_rules, store_clone-Keeps, k.rbd.data_pool_options, create_image_from_snapshot-Keeps)
        depth 12

  clone_snapshot-Keeps : (io : Io) (s : String) (i : Image) → Keeps P (clone_snapshot r io s i)
  unfolding clone_snapshot
  clone_snapshot-Keeps io s i =
      search (keeps_rules, is_image_existing-Keeps, is_stored-Keeps, clone_missing-Keeps) depth 10

  secure_snapshot-Keeps : (io : Io) (i : Image) (s : String) → Keeps P (secure_snapshot r io i s)
  unfolding secure_snapshot
  secure_snapshot-Keeps io i s =
      search
        (
          keeps_rules,
          clone_snapshot-Keeps,
          snapshot_exists_and_protected-Keeps r.rbd k.rbd,
          protect_snapshot-Keeps r.rbd k.rbd,
          create_snapshot-Keeps r.rbd k.rbd,
        )
        depth 12

  secure_snapshots-Keeps :
      (io : Io) (i : Image) (ss : List String) → Keeps P (secure_snapshots r io i ss)
  unfolding secure_snapshots
  secure_snapshots-Keeps io i [] = Keeps-pure tt
  secure_snapshots-Keeps io i (s ∷ ss) =
      Keeps-catch _ _ _ (secure_snapshot-Keeps io i s) Keeps-fail
        (λ _. secure_snapshots-Keeps io i ss)

  move_snapshot-Keeps : (img : Img) (s : String) → Keeps P (move_snapshot r img s)
  unfolding move_snapshot
  move_snapshot-Keeps img s =
      search (keeps_rules, remove_snapshot-Keeps r.rbd k.rbd, k.snapshots.get, k.snapshot_update)
        depth 12

  move_snapshots-Keeps : (img : Img) (ss : List String) → Keeps P (move_snapshots r img ss)
  unfolding move_snapshots
  move_snapshots-Keeps img [] = Keeps-pure tt
  move_snapshots-Keeps img (s ∷ ss) =
      Keeps-catch _ _ _ (move_snapshot-Keeps img s) Keeps-fail (λ _. move_snapshots-Keeps img ss)

  delete_snapshots_of-Keeps :
      (io : Io) (i : Image) (img : Img) → Keeps P (delete_snapshots_of r io i img)
  unfolding delete_snapshots_of
  delete_snapshots_of-Keeps io i img =
      search
        (
          keeps_rules,
          k.rbd.get_snapshot_names,
          secure_snapshots-Keeps,
          flatten_child_images-Keeps r.rbd k.rbd,
          move_snapshots-Keeps,
        )
        depth 12

  pub delete_image_snapshots-Keeps : (io : Io) (i : Image) → Keeps P (delete_image_snapshots r io i)
  unfolding delete_image_snapshots
  delete_image_snapshots-Keeps io i =
      search (keeps_rules, open_image-Keeps r.rbd k.rbd, k.rbd.close, delete_snapshots_of-Keeps)
        depth 10
