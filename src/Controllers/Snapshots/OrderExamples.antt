-- ===== src/Controllers/Snapshots/OrderExamples.antt =====
-- The deletion of a snapshot in a world with one rbd snapshot and one stored object: whether the rbd
-- snapshot is there, and whether the object has its finalizer.
use ceph_provider.Prelude.{Bool, true, false, [], ◌∷◌, ◌≡◌, refl, contains}
use ceph_provider.Exec.{ok, pure}
use ceph_provider.Exec.Keeps.{Keeps, Keeps-pure, Keeps-fail}
use ceph_provider.Store.{Store}
use ceph_provider.Api.{Image, Snapshot}
use ceph_provider.Api.Meta.{with_id}
use ceph_provider.External.{Rbd}
use ceph_provider.Controllers.Common.{get_snapshot_source_details, image_id_to_rbd_id}
use ceph_provider.Controllers.Frame.{RbdKeeps}
use ceph_provider.Controllers.Still.{still_rbd, still_registry, still_store, still_registry-Keeps}
use ceph_provider.Controllers.Snapshots.{SnapshotReconciler, snapshot_finalizer, delete_snapshot}
use ceph_provider.Controllers.Snapshots.Frame.{CallsKeep}
use ceph_provider.Controllers.Snapshots.Order.{delete_snapshot-Keeps}

record World : Type 0 where
  present : Bool
  pinned : Bool

abbrev one_snapshot_rbd : Rbd World Unit Unit
one_snapshot_rbd = record still_rbd {
  remove_snapshot = λ img name w. (ok tt, record w { present = false });
}

abbrev one_snapshot_store : Store World Snapshot
one_snapshot_store = record (still_store Snapshot) {
  update = λ o w. (ok o, record w { pinned = contains o.metadata.finalizers snapshot_finalizer });
}

abbrev reconciler : SnapshotReconciler World Unit Unit Unit
reconciler = record {
  rbd = one_snapshot_rbd;
  registry = still_registry;
  store = one_snapshot_store;
  images = still_store Image;
  pool = "pool";
}

abbrev sample : Snapshot
sample = record {
  metadata = record (with_id "s") { finalizers = snapshot_finalizer ∷ [] };
  source = record { ironcore_image = ""; volume_image_id = "v" };
  status = record { state = "Ready"; digest = ""; size = 0 };
}

-- The rbd snapshot of an object that has lost its finalizer is gone.
abbrev IsSafe : World → Type 0
IsSafe w = w.pinned ≡ false → w.present ≡ false

one_snapshot_rbd-Keeps : RbdKeeps one_snapshot_rbd IsSafe
one_snapshot_rbd-Keeps = record {
  open_io_context = λ pool. Keeps-pure tt;
  get_image_names = λ io. Keeps-pure [];
  data_pool_options = λ pool. Keeps-pure "";
  create_image = λ io name n o. Keeps-pure tt;
  remove_image = λ io name. Keeps-pure tt;
  clone_image = λ io a b io2 c o. Keeps-pure tt;
  open_image = λ io name snap. Keeps-pure tt;
  close = λ img. Keeps-pure tt;
  get_size = λ img. Keeps-pure 0;
  resize = λ img n. Keeps-pure tt;
  set_metadata = λ img k v. Keeps-pure tt;
  encryption_format = λ img b. Keeps-pure tt;
  flatten = λ img. Keeps-pure tt;
  get_snapshot_names = λ img. Keeps-pure [];
  list_children = λ img. Keeps-pure ([], []);
  create_snapshot = λ img name. Keeps-pure tt;
  set_snapshot = λ img name. Keeps-pure tt;
  is_protected = λ img name. Keeps-pure true;
  protect = λ img name. Keeps-pure tt;
  unprotect = λ img name. Keeps-pure tt;
  remove_snapshot = λ img name. record { after = λ w h p. refl };
  write = λ img b. Keeps-pure 0;
  mon_command = λ cmd. Keeps-pure "";
}

calls_keep : CallsKeep reconciler IsSafe
calls_keep = record {
  rbd = one_snapshot_rbd-Keeps;
  registry = still_registry-Keeps;
  image_get = λ id. Keeps-fail _;
}

delete_snapshot-Keeps_example : Keeps IsSafe (delete_snapshot reconciler tt sample)
unfolding pure get_snapshot_source_details image_id_to_rbd_id
delete_snapshot-Keeps_example =
    delete_snapshot-Keeps reconciler {P = IsSafe} {Gone = λ w. w.present ≡ false} calls_keep tt
      sample "img_v" "s" refl (record { at = λ w h. (h, λ x. absurd x) })
      (λ img. record { at = λ w h. ((λ p. refl), (λ u. refl)) }) (record { at = λ w h p. h.1 })
      (Keeps-pure tt)
