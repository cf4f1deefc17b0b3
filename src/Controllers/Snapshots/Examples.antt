-- ===== src/Controllers/Snapshots/Examples.antt =====
-- The theorem on the states of a snapshot in a world that holds the state of the snapshot that was
-- updated last.
use ceph_provider.Prelude.{String, ◌≡◌, refl, inl, inr}
use ceph_provider.Exec.{ok}
use ceph_provider.Exec.Keeps.{Keeps, Keeps-fail}
use ceph_provider.Store.{Store}
use ceph_provider.Api.{Image, Snapshot, snapshot_state_ready}
use ceph_provider.Api.Meta.{with_id}
use ceph_provider.Controllers.Still.{
  still_rbd, still_registry, still_store, still_rbd-Keeps, still_registry-Keeps,
}
use ceph_provider.Controllers.Snapshots.{SnapshotReconciler, with_state, reconcile_existing}
use ceph_provider.Controllers.Snapshots.Frame.{CallsKeep}
use ceph_provider.Controllers.Snapshots.States.{Moves, reconcile_existing-Keeps}

-- The state of the only stored snapshot.
abbrev recording_store : Store String Snapshot
recording_store = record (still_store Snapshot) { update = λ o c. (ok o, o.status.state) }

abbrev reconciler : SnapshotReconciler String Unit Unit Unit
reconciler = record {
  rbd = still_rbd;
  registry = still_registry;
  store = recording_store;
  images = still_store Image;
  pool = "pool";
}

abbrev sample : Snapshot
sample = record {
  metadata = with_id "s";
  source = record { ironcore_image = ""; volume_image_id = "v" };
  status = record { state = "Pending"; digest = ""; size = 0 };
}

-- The state is one that the controller may have moved a Ready snapshot to: Ready.
abbrev IsReady : String → Type 0
IsReady c = c ≡ snapshot_state_ready

calls_keep : CallsKeep reconciler IsReady
calls_keep = record {
  rbd = still_rbd-Keeps;
  registry = still_registry-Keeps;
  image_get = λ id. Keeps-fail _;
}

-- A Ready snapshot stays Ready.
IsReady-Moves :
    (o : Snapshot)
    → Moves snapshot_state_ready o.status.state
    → Keeps IsReady (recording_store.update o)
IsReady-Moves o (inl h) = record { after = λ c p. h }
IsReady-Moves o (inr (h, _, _)) = absurd (cc h)

reconcile_existing-Keeps_example :
    Keeps IsReady (reconcile_existing reconciler tt (with_state snapshot_state_ready sample))
reconcile_existing-Keeps_example =
    reconcile_existing-Keeps reconciler calls_keep (with_state snapshot_state_ready sample)
      IsReady-Moves (λ o c. refl) tt
