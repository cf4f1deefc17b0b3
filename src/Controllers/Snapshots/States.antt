-- ===== src/Controllers/Snapshots/States.antt =====
-- The states that the snapshot controller gives to a snapshot.
use ceph_provider.Prelude.{
  String, true, false, not, [], ◌∷◌, ◌++◌, ◌≡◌, refl, sym, ◌∙◌, subst, ◌⊎◌, inl, inr, str_eq, ◌&&◌,
  contains, eq_iff,
}
use ceph_provider.Exec.{Result, ok, err, lift, annotate, when, ◌>>=◌, ◌>>◌}
use ceph_provider.Exec.Keeps.{
  Keeps, Keeps-catch, Keeps-fail, Keeps-pure, Keeps-if, Keeps-annotate, Keeps-lift, Keeps-when,
}
use ceph_provider.Exec.Triple.{
  Triple, Triple-bind, Triple-pure, Triple-if, Triple-annotate, Triple-given,
}
use ceph_provider.Api.{
  Snapshot, snapshot_state_ready, snapshot_state_failed, snapshot_state_populated,
}
use ceph_provider.Controllers.Frame.{snapshot_exists_and_protected-Keeps, protect_snapshot-Keeps}
use ceph_provider.Controllers.Common.{
  get_snapshot_source_details, snapshot_exists_and_protected, protect_snapshot,
}
use ceph_provider.Controllers.Snapshots.{
  SnapshotReconciler, snapshot_finalizer, with_finalizers, ensure_finalizer, populate_snapshot,
  reconcile_state, reconcile_existing,
}
use ceph_provider.Controllers.Snapshots.Frame.{
  CallsKeep, reconcile_ironcore_image_snapshot-Keeps, reconcile_volume_image_snapshot-Keeps,
}

-- From state `a` to `b`: none at all; to Ready from any state but Ready and Failed; to Failed from
-- any state but Ready, Failed and Populated.
abbrev pub Moves : String → String → Type 0
Moves a b =
    (b ≡ a)
    ⊎ ((str_eq a snapshot_state_ready ≡ false)
        × (str_eq a snapshot_state_failed ≡ false)
        × ((b ≡ snapshot_state_ready)
            ⊎ ((b ≡ snapshot_state_failed) × (str_eq a snapshot_state_populated ≡ false))))

-- A store's Update gives back the state that it was given.
abbrev pub HasState : String → Result Snapshot → Type 0
HasState a (ok s) = s.status.state ≡ a
HasState a (err e) = Unit {0}

module _ {C Io Img H : Type 0} (r : SnapshotReconciler C Io Img H) {P : C → Type 0}
    (k : CallsKeep r P) (found : Snapshot)
    (updates : (o : Snapshot)
      → Moves found.status.state o.status.state
      → Keeps P (r.store.update o))
    (same : (o : Snapshot) (c : C) → HasState o.status.state (r.store.update o c).0) where
  abbrev state : String
  state = found.status.state

  populate_snapshot-Keeps :
      (io : Io) (s : Snapshot)
      → s.status.state ≡ state
      → str_eq state snapshot_state_ready ≡ false
      → str_eq state snapshot_state_failed ≡ false
      → str_eq state snapshot_state_populated ≡ false
      → Keeps P (populate_snapshot r io s)
  unfolding populate_snapshot
  populate_snapshot-Keeps io s e not_ready unfailed unpopulated =
      Keeps-if (str_eq s.source.ironcore_image "" && str_eq s.source.volume_image_id "") _ _
        (λ _. Keeps-fail _)
        λ _.
          Keeps-catch _ _ _
            (Keeps-if (not (str_eq s.source.ironcore_image "")) _ _
              (λ _. reconcile_ironcore_image_snapshot-Keeps r k io s)
              (λ _. reconcile_volume_image_snapshot-Keeps r k io s))
            (λ x.
              Keeps-catch _ _ _ (updates _ (inr (not_ready, unfailed, inr (refl, unpopulated))))
                (λ y. Keeps-fail _) (λ y. Keeps-fail _))
            (λ done.
              Keeps-catch _ _ _
                (Keeps-annotate _ _ (updates _ (inr (not_ready, unfailed, inl refl)))) Keeps-fail
                (λ y. Keeps-pure tt))

  reconcile_state-Keeps :
      (io : Io) (s : Snapshot) → s.status.state ≡ state → Keeps P (reconcile_state r io s)
  unfolding reconcile_state
  reconcile_state-Keeps io s e =
      Keeps-if (str_eq s.status.state snapshot_state_populated) _ _
        (λ populated.
          Keeps-catch _ _ _ (Keeps-annotate _ _ (updates _ (from_populated populated))) Keeps-fail
            (λ y. Keeps-pure tt))
        λ unpopulated.
          Keeps-if (str_eq s.status.state snapshot_state_ready) _ _ (λ _. Keeps-pure tt)
            λ not_ready.
              Keeps-if (str_eq s.status.state snapshot_state_failed) _ _ (λ _. Keeps-pure tt)
                λ unfailed.
                  populate_snapshot-Keeps io s e (of_found snapshot_state_ready not_ready)
                    (of_found snapshot_state_failed unfailed)
                    (of_found snapshot_state_populated unpopulated)
    where
      of_found : (t : String) → str_eq s.status.state t ≡ false → str_eq state t ≡ false
      of_found t h = subst (λ x. str_eq x t ≡ false) e h

      from_populated :
          str_eq s.status.state snapshot_state_populated ≡ true → Moves state snapshot_state_ready
      from_populated populated =
          let q : snapshot_state_populated ≡ state = sym ((eq_iff _ _).0 populated) ∙ e in
          inr (
            subst (λ x. str_eq x snapshot_state_ready ≡ false) q refl,
            subst (λ x. str_eq x snapshot_state_failed ≡ false) q refl,
            inl refl,
          )

  ensure_finalizer-HasState :
      Triple P (ensure_finalizer r found) (λ result c. P c × HasState state result)
  unfolding ensure_finalizer
  ensure_finalizer-HasState =
      Triple-if (contains found.metadata.finalizers snapshot_finalizer) _ _
        (λ _. Triple-pure _ λ c h. (h, refl))
        λ _.
          Triple-annotate (λ result c. P c × HasState state result) _ _
            (record {
              at = λ c h. (
                (updates
                      (with_finalizers (found.metadata.finalizers ++ snapshot_finalizer ∷ []) found)
                      (inl refl)).after
                    c h,
                same (with_finalizers (found.metadata.finalizers ++ snapshot_finalizer ∷ []) found)
                    c,
              );
            })
            (λ e c h. (h.0, tt)) (λ a c h. h)

  after_finalizer-Keeps :
      (io : Io) (s : Snapshot)
      → s.status.state ≡ state
      → Keeps P (do
        (rbd_id, snapshot_id) ←
            annotate "failed to get snapshot source details" (lift (get_snapshot_source_details s))
        (exists, is_protected) ←
            annotate "failed to check snapshot existence"
              (snapshot_exists_and_protected r.rbd io rbd_id snapshot_id)
        when
            (exists && not is_protected)
            (annotate "failed to protect snapshot" (protect_snapshot r.rbd io rbd_id snapshot_id))
        reconcile_state r io s)
  after_finalizer-Keeps io s e =
      Keeps-catch _ _ _ (Keeps-annotate _ _ (Keeps-lift _)) Keeps-fail λ details.
        Keeps-catch _ _ _
          (Keeps-annotate _ _
            (snapshot_exists_and_protected-Keeps r.rbd k.rbd io details.0 details.1))
          Keeps-fail
          λ there.
            Keeps-catch _ _ _
              (Keeps-when _ _ (λ _.
                Keeps-annotate _ _ (protect_snapshot-Keeps r.rbd k.rbd io details.0 details.1)))
              Keeps-fail (λ u. reconcile_state-Keeps io s e)

  reconcile_existing-Triple : (io : Io) → Triple P (reconcile_existing r io found) (λ result c. P c)
  unfolding reconcile_existing
  reconcile_existing-Triple io =
      Triple-bind _ _ _ ensure_finalizer-HasState (λ e c h. h.0)
        (λ s. Triple-given λ e. record { at = (after_finalizer-Keeps io s e).after })

  -- The snapshot controller moves a snapshot that is not being deleted only to Ready, or to Failed;
  -- it leaves a Ready and a Failed one in their states, and never makes a Populated one Failed: what
  -- its calls keep, and its Updates with such a state keep, the reconciliation keeps.
  pub reconcile_existing-Keeps : (io : Io) → Keeps P (reconcile_existing r io found)
  reconcile_existing-Keeps io = record { after = (reconcile_existing-Triple io).at }
