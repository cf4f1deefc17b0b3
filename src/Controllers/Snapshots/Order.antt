-- ===== src/Controllers/Snapshots/Order.antt =====
-- In which order the snapshot controller makes its calls when it deletes a snapshot.
use ceph_provider.Prelude.{
  String, true, not, Option, none, some, ◌≡◌, sym, subst, contains, str_eq, if◌then◌else◌,
}
use ceph_provider.Errors.{Error, wrap, is, rbd_not_found}
use ceph_provider.Exec.{Exec, Result, ok, err, pure, fail, lift, catch, annotate, ◌>>◌}
use ceph_provider.Exec.Keeps.{
  Keeps, Keeps-catch, Keeps-fail, Keeps-pure, Keeps-if, Keeps-annotate, Keeps-deferring, Keeps-when,
}
use ceph_provider.Exec.Triple.{
  Triple, Triple-catch, Triple-bind, Triple-pure, Triple-fail, Triple-if, Triple-annotate,
}
use ceph_provider.Utils.{delete_slice_element}
use ceph_provider.Api.{Snapshot}
use ceph_provider.Controllers.Common.{
  get_snapshot_source_details, remove_snapshot, flatten_child_images,
}
use ceph_provider.Controllers.Frame.{flatten_child_images-Keeps}
use ceph_provider.Controllers.Snapshots.{
  SnapshotReconciler, snapshot_finalizer, with_finalizers, release_snapshot, delete_parent_image,
  delete_open_snapshot, delete_snapshot,
}
use ceph_provider.Controllers.Snapshots.Frame.{CallsKeep}

-- An error that says that rbd has no such image or snapshot, and a removal that succeeded.
abbrev pub IsMissing : {A : Type 0} → Result A → Type 0
IsMissing (ok a) = ⊥
IsMissing (err e) = is e rbd_not_found ≡ true

abbrev pub IsDone : {A : Type 0} → Result A → Type 0
IsDone (ok a) = Unit {0}
IsDone (err e) = ⊥

abbrev pub unpinned : Snapshot → Snapshot
unpinned s = with_finalizers (delete_slice_element s.metadata.finalizers snapshot_finalizer) s

module _ {C Io Img H : Type 0} (r : SnapshotReconciler C Io Img H) {P Gone : C → Type 0}
    (k : CallsKeep r P) (io : Io) (snapshot : Snapshot) (rbd_id snapshot_id : String)
    (named : get_snapshot_source_details snapshot ≡ ok (rbd_id, snapshot_id))
    (opens : Triple P
      (r.rbd.open_image io rbd_id (some snapshot_id))
      (λ x c. P c × (IsMissing x → Gone c)))
    (removes : (img : Img)
      → Triple P (r.rbd.remove_snapshot img snapshot_id) (λ x c. P c × (IsDone x → Gone c)))
    (releases : Triple (λ c. P c × Gone c) (r.store.update (unpinned snapshot)) (λ x c. P c))
    (parents : Keeps P (r.images.delete snapshot_id)) where
  abbrev Kept : {A : Type 0} → Result A → C → Type 0
  Kept x c = P c

  kept : {A : Type 0} {m : Exec C A} → Keeps P m → Triple P m (λ x c. P c)
  kept km = record { at = km.after }

  release_snapshot-kept : Triple (λ c. P c × Gone c) (release_snapshot r snapshot) (λ x c. P c)
  unfolding release_snapshot
  release_snapshot-kept =
      Triple-catch (λ x c. P c) _ _ _ releases (λ e. handled e (r.store.ignore_not_found e))
        (λ s. Triple-pure tt (λ c h. h))
    where
      handled :
          (e : Error) (o : Option Error)
          → Triple P
              (elim o [
                | none ↦ pure tt
                | some e' ↦ fail (wrap "failed to update snapshot metadata" e)
              ])
              (λ x c. P c)
      handled e none = Triple-pure tt (λ c h. h)
      handled e (some e') = Triple-fail _ (λ c h. h)

  delete_parent_image-Keeps : Keeps P (delete_parent_image r rbd_id snapshot_id)
  unfolding delete_parent_image
  delete_parent_image-Keeps =
      Keeps-when _ _
        λ _. Keeps-catch _ _ _ parents (λ e. handled e (r.images.ignore_not_found e)) Keeps-pure
    where
      handled :
          (e : Error) (o : Option Error)
          → Keeps P (elim o [
            | none ↦ pure tt
            | some e' ↦ fail (wrap "unable to remove parent rbd image" e)
          ])
      handled e none = Keeps-pure tt
      handled e (some e') = Keeps-fail _

  remove_snapshot-Gone :
      (img : Img)
      → Triple P (remove_snapshot r.rbd img snapshot_id) (λ x c. P c × (IsDone x → Gone c))
  unfolding remove_snapshot
  remove_snapshot-Gone img =
      Triple-bind _ _ _ (kept (Keeps-annotate _ _ (k.rbd.is_protected img snapshot_id)))
        (λ e c h. (h, λ x. absurd x))
        λ is_protected.
          Triple-bind _ _ _
            (kept (
              Keeps-when is_protected _
                (λ _. Keeps-annotate _ _ (k.rbd.unprotect img snapshot_id))))
            (λ e c h. (h, λ x. absurd x))
            λ u. Triple-annotate _ _ _ (removes img) (λ e c h. (h.0, λ x. absurd x)) (λ a c h. h)

  cleared :
      (img : Img)
      → Triple P
          (do
            annotate "failed to flatten snapshot child images" (flatten_child_images r.rbd img)
            annotate "failed to remove snapshot" (remove_snapshot r.rbd img snapshot_id)
            release_snapshot r snapshot)
          (λ x c. P c)
  cleared img =
      Triple-bind _ _ _ (kept (Keeps-annotate _ _ (flatten_child_images-Keeps r.rbd k.rbd img)))
        (λ e c h. h)
        λ u.
          Triple-bind (λ x c. P c × (IsDone x → Gone c)) _ _
            (Triple-annotate _ _ _ (remove_snapshot-Gone img) (λ e c h. (h.0, λ x. absurd x))
              (λ a c h. h))
            (λ e c h. h.0) (λ u'. record { at = λ c h. release_snapshot-kept.at c (h.0, h.1 tt) })

  delete_open_snapshot-Keeps :
      (img : Img) → Keeps P (delete_open_snapshot r io snapshot rbd_id snapshot_id img)
  unfolding delete_open_snapshot
  delete_open_snapshot-Keeps img =
      let done : Keeps P _ = record { after = (cleared img).at } in
      Keeps-if (not (str_eq snapshot.source.ironcore_image "")) _ _
        (λ _.
          Keeps-catch _ _ _ done (λ e. Keeps-deferring _ _ (k.rbd.close img) (Keeps-fail e))
            λ u. Keeps-catch _ _ _ (Keeps-annotate _ _ (k.rbd.close img)) Keeps-fail λ u'.
              Keeps-catch _ _ _ (Keeps-annotate _ _ (k.rbd.remove_image io rbd_id)) Keeps-fail
                (λ u''. delete_parent_image-Keeps))
        (λ _.
          Keeps-deferring _ _ (k.rbd.close img)
            (Keeps-catch _ _ _ done Keeps-fail (λ u. delete_parent_image-Keeps)))

  abbrev opened : String × String → Exec C Unit
  opened (rbd, snap) =
      catch (r.rbd.open_image io rbd (some snap))
        (λ e.
          if is e rbd_not_found
          then release_snapshot r snapshot
          else fail (wrap "failed to open rbd image" e))
        (delete_open_snapshot r io snapshot rbd snap)

  opened-kept : Triple P (opened (rbd_id, snapshot_id)) (λ x c. P c)
  opened-kept =
      Triple-catch (λ x c. P c × (IsMissing x → Gone c)) _ _ _ opens
        (λ e.
          Triple-if (is e rbd_not_found) _ _
            (λ y. record { at = λ c h. release_snapshot-kept.at c (h.0, h.1 y) })
            (λ n. Triple-fail _ (λ c h. h.0)))
        (λ img. record { at = λ c h. (delete_open_snapshot-Keeps img).after c h.0 })

  details :
      (d : Result (String × String))
      → d ≡ ok (rbd_id, snapshot_id)
      → Triple P
          (catch (annotate "failed to get snapshot source details" (lift d)) fail opened)
          (λ x c. P c)
  unfolding annotate lift catch pure
  details (ok q) e = record {
    at = λ c h. subst (λ p. P (opened p c).1) (sym (same e)) (opened-kept.at c h);
  }
    where
      same : ok q ≡ ok (rbd_id, snapshot_id) → ◌≡◌ {A = String × String} q (rbd_id, snapshot_id)
      same e = cc e
  details (err x) e = absurd (cc e)

  -- The snapshot controller hands a snapshot without its finalizer to the store only after librbd
  -- has removed the rbd snapshot or has said that there is none: what all its other calls keep, and
  -- what that Update keeps once the rbd snapshot is gone, deleteSnapshot keeps.
  pub delete_snapshot-Keeps : Keeps P (delete_snapshot r io snapshot)
  unfolding delete_snapshot
  delete_snapshot-Keeps =
      Keeps-if (not (contains snapshot.metadata.finalizers snapshot_finalizer)) _ _
        (λ _. Keeps-pure tt)
        (λ _. record { after = (details (get_snapshot_source_details snapshot) named).at })
