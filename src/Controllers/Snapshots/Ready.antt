-- ===== src/Controllers/Snapshots/Ready.antt =====
-- When the snapshot controller makes a snapshot Ready.
use ceph_provider.Prelude.{
  ℕ, String, true, false, not, ◌≡◌, refl, ap, ◌∙◌, str_eq, ◌&&◌, if◌then◌else◌, Bool-cases, inl,
  inr,
}
use ceph_provider.Errors.{Error, new, wrap, join, is, store_not_found}
use ceph_provider.Exec.{Exec, ok, pure, fail, catch, annotate, ◌>>=◌, ◌>>◌}
use ceph_provider.Exec.Keeps.{Keeps, Keeps-annotate, Keeps-if, Keeps-fail, Keeps-pure, Keeps-catch}
use ceph_provider.Exec.Triple.{
  Triple, Triple-catch, Triple-bind, Triple-pure, Triple-fail, Triple-if, Triple-annotate,
  Triple-deferring,
}
use ceph_provider.Api.{
  Image, Snapshot, snapshot_state_ready, snapshot_state_failed, snapshot_state_populated,
}
use ceph_provider.Round.{off_bytes}
use ceph_provider.Controllers.Common.{
  image_id_to_rbd_id, snapshot_id_to_rbd_id, image_snapshot_version, get_snapshot_source_details,
  create_snapshot,
}
use ceph_provider.Controllers.Snapshots.{
  SnapshotReconciler, with_state, reconcile_ironcore_image_snapshot,
  reconcile_volume_image_snapshot, populate_snapshot, prepare_snapshot_content, reconcile_state,
}
use ceph_provider.Controllers.Snapshots.Frame.{
  open_ironcore_image_source-Keeps, prepare_snapshot_content-Keeps,
}
use ceph_provider.Controllers.Snapshots.Made.{MakeLaws, Makes, tidy, first, created}

module _ {C Io Img H : Type 0} (r : SnapshotReconciler C Io Img H) {P There Made : C → Type 0}
    {io : Io} {snapshot : Snapshot} {rbd_id name : String}
    (laws : MakeLaws r P There Made io snapshot rbd_id name) where
  module _ (named : get_snapshot_source_details snapshot ≡ ok (rbd_id, name)) where
    os_names :
        str_eq snapshot.source.ironcore_image "" ≡ false
        → (snapshot_id_to_rbd_id snapshot.metadata.id ≡ rbd_id) × (image_snapshot_version ≡ name)
    unfolding get_snapshot_source_details
    os_names os = let same = rw os at named in (cc same, cc same)

    volume_names :
        str_eq snapshot.source.ironcore_image "" ≡ true
        → (image_id_to_rbd_id snapshot.source.volume_image_id ≡ rbd_id)
          × (snapshot.metadata.id ≡ name)
    unfolding get_snapshot_source_details
    volume_names volume = elim (Bool-cases (str_eq snapshot.source.volume_image_id "")) [
      | inl y ↦ absurd (cc (rw (volume, y) at named))
      | inr n ↦ let same = rw (volume, n) at named in (cc same, cc same)
    ]

    reconcile_ironcore_image_snapshot-Makes :
        str_eq snapshot.source.ironcore_image "" ≡ false
        → Triple P (reconcile_ironcore_image_snapshot r io snapshot) (Makes r laws)
    unfolding reconcile_ironcore_image_snapshot
    reconcile_ironcore_image_snapshot-Makes os =
        first r laws (Keeps-annotate _ _ (open_ironcore_image_source-Keeps r laws.calls _ _))
          λ opened.
            Triple-deferring (Makes r laws) _ _ (written opened.0 opened.1 opened.2) (
              tidy r laws (laws.calls.registry.close_reader opened.0) (laws.reader_closes opened.0))
      where
        written :
            (rc : H) (size : ℕ) (digest : String)
            → Triple P
                (do
                  options ← annotate "failed to set data pool" (r.rbd.data_pool_options r.pool)
                  let rbd_image_id = snapshot_id_to_rbd_id snapshot.metadata.id
                  let rounded_size = off_bytes size
                  annotate "failed to create os rbd image"
                      (r.rbd.create_image io rbd_image_id rounded_size options)
                  annotate "failed to prepare snapshot content"
                      (prepare_snapshot_content r io rbd_image_id rc)
                  annotate "failed to create ironcore image snapshot"
                      (create_snapshot r.rbd io image_snapshot_version rbd_image_id)
                  pure (record snapshot {
                    status = record snapshot.status { digest = digest; size = rounded_size };
                  }))
                (Makes r laws)
        written rc size digest =
            first r laws (Keeps-annotate _ _ (laws.calls.rbd.data_pool_options r.pool)) λ options.
              first r laws (Keeps-annotate _ _ (laws.calls.rbd.create_image io _ _ options)) λ u.
                first r laws
                  (Keeps-annotate _ _ (prepare_snapshot_content-Keeps r laws.calls io _ rc))
                  λ u'. created r laws _ _ _ (os_names os).0 (os_names os).1 _

    reconcile_volume_image_snapshot-Makes :
        str_eq snapshot.source.ironcore_image "" ≡ true
        → Triple P (reconcile_volume_image_snapshot r io snapshot) (Makes r laws)
    unfolding reconcile_volume_image_snapshot
    reconcile_volume_image_snapshot-Makes volume = Triple-catch _ _ _ _ laws.source missing λ image.
        record {
          at = λ c h.
              (created r laws _ _ _ (source_name image h.1) (volume_names volume).1 _).at c h.0;
        }
      where
        source_name :
            (image : Image)
            → image.metadata.id ≡ snapshot.source.volume_image_id
            → image_id_to_rbd_id image.metadata.id ≡ rbd_id
        source_name image e = ap image_id_to_rbd_id e ∙ (volume_names volume).0

        missing :
            (e : Error)
            → Triple
                (λ c. P c × (is e store_not_found ≡ false))
                (if is e store_not_found
                  then pure snapshot
                  else fail (wrap "failed to fetch image from store" e))
                (Makes r laws)
        missing e =
            Triple-if (is e store_not_found) (pure snapshot)
              (fail (wrap "failed to fetch image from store" e))
              (λ y. Triple-pure snapshot (λ c h. absurd (cc (y, h.1))))
              (λ n.
                Triple-fail (wrap "failed to fetch image from store" e)
                  (λ c h. (h.0, λ d. absurd d)))

    reconcile_source-Makes :
        Triple P
          (if not (str_eq snapshot.source.ironcore_image "")
            then reconcile_ironcore_image_snapshot r io snapshot
            else reconcile_volume_image_snapshot r io snapshot)
          (Makes r laws)
    reconcile_source-Makes = elim (Bool-cases (str_eq snapshot.source.ironcore_image "")) [
      | inl volume ↦ rw volume (reconcile_volume_image_snapshot-Makes volume)
      | inr os ↦ rw os (reconcile_ironcore_image_snapshot-Makes os)
    ]

    store_ready :
        (o : Snapshot)
        → o.status.state ≡ snapshot_state_ready
        → Triple
            (λ c. P c × Made c)
            (do annotate "failed to update snapshot" (r.store.update o); pure tt)
            (λ x c. P c)
    store_ready o e =
        Triple-bind (λ x c. P c) _ _
          (Triple-annotate (λ x c. P c) _ _ (laws.readies o e) (λ x c h. h) (λ a c h. h))
          (λ x c h. h) (λ s. Triple-pure tt (λ c h. h))

    keeping : {m : Exec C Unit} → Triple P m (λ x c. P c) → Keeps P m
    keeping t = record { after = t.at }

    -- The rest after a call that succeeded.
    when_done :
        {m : Exec C Unit}
        → Triple (λ c. P c × Made c) m (λ x c. P c)
        → Triple (λ c. P c × (Unit {0} → Made c)) m (λ x c. P c)
    when_done t = record { at = λ c h. t.at c (h.0, h.1 tt) }

    populate_snapshot-Keeps : Keeps P (populate_snapshot r io snapshot)
    unfolding populate_snapshot
    populate_snapshot-Keeps =
        Keeps-if
          (str_eq snapshot.source.ironcore_image "" && str_eq snapshot.source.volume_image_id "")
          (fail (new "snapshot source not found")) _
          (λ y. Keeps-fail (new "snapshot source not found"))
          λ n. keeping (
            Triple-catch (Makes r laws) _ _ _ reconcile_source-Makes failing
              (λ done. when_done (store_ready (with_state snapshot_state_ready done) refl)))
      where
        failing :
            (e : Error)
            → Triple {A = Unit}
                (λ c. P c × (⊥ → Made c))
                (catch
                  (r.store.update (with_state snapshot_state_failed snapshot))
                  (λ update_err. fail (join e (wrap "failed to update snapshot state" update_err)))
                  (λ s. fail (wrap "failed to reconcile snapshot" e)))
                (λ x c. P c)
        failing e = record {
          at = λ c h.
              (Keeps-catch _ _ _ laws.fails (λ x. Keeps-fail _) (λ s. Keeps-fail _)).after c h.0;
        }

    -- The snapshot controller hands a snapshot that is not Populated to the store as Ready only after
    -- librbd has created the rbd snapshot that the snapshot names and then, once it was there, has
    -- protected it: what its other calls keep, and what that Update keeps once the rbd snapshot is
    -- made, the reconciliation of its state keeps; where the store has the image that is the source of
    -- the snapshot.
    pub reconcile_state-Keeps :
        str_eq snapshot.status.state snapshot_state_populated ≡ false
        → Keeps P (reconcile_state r io snapshot)
    unfolding reconcile_state
    reconcile_state-Keeps other =
        Keeps-if (str_eq snapshot.status.state snapshot_state_populated) _ _
          (λ y. absurd (cc (y, other)))
          λ n.
            Keeps-if (str_eq snapshot.status.state snapshot_state_ready) _ _ (λ y. Keeps-pure tt)
              λ n'.
                Keeps-if (str_eq snapshot.status.state snapshot_state_failed) _ _
                  (λ y. Keeps-pure tt) λ n''. populate_snapshot-Keeps
