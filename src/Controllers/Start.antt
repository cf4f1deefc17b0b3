-- ===== src/Controllers/Start.antt =====
-- The construction and the start of the two controllers: NewImageReconciler and
-- NewSnapshotReconciler, what Start does with an event of a store, and the loop of a worker.
use ceph_provider.Prelude.{
  ℕ, zero, suc, ◌*◌, String, Bool, true, false, not, none, some, List, [], ◌∷◌, str_eq, ◌==◌, ◌||◌,
  if◌then◌else◌,
}
use ceph_provider.Errors.{new}
use ceph_provider.Exec.{Exec, Result, ok, err, pure, catch, ◌>>=◌, ◌>>◌}
use ceph_provider.Api.{Image, Snapshot, snapshot_state_ready}
use ceph_provider.Store.{Store}
use ceph_provider.External.{WorkQueue, Recorder, normal}
use ceph_provider.Controllers.Common.{process_next_work_item}

pub record ImageReconcilerOptions : Type 0 where
  pub monitors : String
  pub client : String
  pub pool : String
  pub worker_size : ℕ

-- Whether each argument of a constructor is not nil.
pub record Given : Type 0 where
  pub conn : Bool
  pub images : Bool
  pub snapshots : Bool
  pub image_events : Bool
  pub snapshot_events : Bool
  pub key_encryption : Bool

abbrev pub default_worker_size : ℕ → ℕ
default_worker_size n = if n == 0 then 15 else n

-- NewImageReconciler: its checks, and the options that the reconciler gets.
unfoldable pub new_image_reconciler : Given → ImageReconcilerOptions → Result ImageReconcilerOptions
new_image_reconciler given opts =
    if not given.conn
    then err (new "must specify conn")
    else if not given.images
    then err (new "must specify image store")
    else if not given.snapshots
    then err (new "must specify snapshots store")
    else if not given.image_events
    then err (new "must specify image events")
    else if not given.snapshot_events
    then err (new "must specify snapshot events")
    else if not given.key_encryption
    then err (new "must specify key encryption")
    else if str_eq opts.pool ""
    then err (new "must specify pool")
    else if str_eq opts.monitors ""
    then err (new "must specify monitors")
    else if str_eq opts.client ""
    then err (new "must specify ceph client")
    else ok (record opts { worker_size = default_worker_size opts.worker_size })

pub record SnapshotReconcilerOptions : Type 0 where
  pub pool : String
  pub populator_buffer_size : ℕ
  pub worker_size : ℕ

abbrev pub default_buffer_size : ℕ → ℕ
default_buffer_size n = if n == 0 then 5 * 1024 * 1024 else n

-- NewSnapshotReconciler
unfoldable pub new_snapshot_reconciler :
    Given → SnapshotReconcilerOptions → Result SnapshotReconcilerOptions
new_snapshot_reconciler given opts =
    if not given.conn
    then err (new "must specify conn")
    else if not given.snapshots
    then err (new "must specify store")
    else if not given.images
    then err (new "must specify image store")
    else if not given.snapshot_events
    then err (new "must specify events")
    else if str_eq opts.pool ""
    then err (new "must specify pool")
    else ok (record opts {
      populator_buffer_size = default_buffer_size opts.populator_buffer_size;
      worker_size = default_worker_size opts.worker_size;
    })

-- event.Type
pub data ChangeType : Type 0 where
  created updated deleted : ChangeType

abbrev pub is_updated : ChangeType → Bool
is_updated updated = true
is_updated created = false
is_updated deleted = false

abbrev pub refers_to : String → Image → Bool
refers_to id image = elim image.spec.snapshot_ref [ none ↦ false | some ref ↦ str_eq ref id ]

module _ {C : Type 0} (queue : WorkQueue C) where
  -- The handlers of the events of a controller's own store.
  unfoldable pub on_image_event : Image → Exec C Unit
  on_image_event image = queue.add image.metadata.id

  unfoldable pub on_snapshot_event : Snapshot → Exec C Unit
  on_snapshot_event snapshot = queue.add snapshot.metadata.id

  module _ (images : Store C Image) (recorder : Recorder C) where
    unfoldable pub record_pulled : Image → Exec C Unit
    record_pulled image c = (ok tt, recorder.eventf image.metadata normal "ImagePullSucceeded" c)

    -- The loop over the stored images.
    unfoldable pub queue_images : String → List Image → Exec C Unit
    unfolding record_pulled
    queue_images id [] = pure tt
    queue_images id (image ∷ rest) =
        let others = queue_images id rest in
        if refers_to id image
        then (do record_pulled image; queue.add image.metadata.id; others)
        else others

    -- The image controller's handler of the events of snapshots: a list that fails is only logged.
    unfoldable pub on_snapshot_change : ChangeType → Snapshot → Exec C Unit
    unfolding queue_images
    on_snapshot_change kind snapshot =
        if not (is_updated kind) || not (str_eq snapshot.status.state snapshot_state_ready)
        then pure tt
        else catch images.list (λ e. pure tt) (queue_images snapshot.metadata.id)

  -- `for r.processNextWorkItem(ctx, log) {}`: whether the loop has ended within the fuel.
  unfoldable pub work : (String → Exec C Unit) → ℕ → Exec C Bool
  work reconcile zero = pure false
  work reconcile (suc fuel) = do
    again ← process_next_work_item queue reconcile
    let rest = work reconcile fuel
    if again then rest else pure true
