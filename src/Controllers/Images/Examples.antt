-- ===== src/Controllers/Images/Examples.antt =====
-- The theorems on the image controller at a world with one rbd image and one stored object: whether
-- the rbd image is there, and whether the object has its finalizer.
use ceph_provider.Prelude.{ℕ, arith, ◌≤◌, Bool, true, false, none, [], ◌∷◌, ◌≡◌, refl, contains}
use ceph_provider.Exec.{ok, pure}
use ceph_provider.Exec.Keeps.{Keeps, Keeps-pure, Keeps-fail}
use ceph_provider.Store.{Store}
use ceph_provider.Api.{Image, Snapshot}
use ceph_provider.Api.Meta.{with_id}
use ceph_provider.External.{Rbd}
use ceph_provider.Controllers.Frame.{RbdKeeps}
use ceph_provider.Controllers.Still.{
  still_rbd, still_registry, still_store, still_recorder, still_encryptor, still_json, still_meta,
}
use ceph_provider.Controllers.Images.{ImageReconciler, image_finalizer}
use ceph_provider.Controllers.Images.Delete.{delete_image}
use ceph_provider.Controllers.Images.Reconcile.{resize_image}
use ceph_provider.Controllers.Images.Frame.{CallsKeep}
use ceph_provider.Controllers.Images.Order.{delete_image-Keeps, resize_image-Keeps}

record World : Type 0 where
  present : Bool
  pinned : Bool

abbrev one_image_rbd : Rbd World Unit Unit
one_image_rbd = record still_rbd {
  remove_image = λ io name w. (ok tt, record w { present = false });
}

abbrev one_image_store : Store World Image
one_image_store = record (still_store Image) {
  update = λ o w. (ok o, record w { pinned = contains o.metadata.finalizers image_finalizer });
}

abbrev reconciler : ImageReconciler World Unit Unit Unit
reconciler = record {
  rbd = one_image_rbd;
  registry = still_registry;
  images = one_image_store;
  snapshots = still_store Snapshot;
  recorder = still_recorder;
  key_encryption = still_encryptor;
  meta = still_meta;
  json = still_json;
  monitors = "";
  client = "client.admin";
  pool = "pool";
}

abbrev sample : Image
sample = record {
  metadata = record (with_id "a") { finalizers = image_finalizer ∷ [] };
  spec = record {
    size = 2000000;
    wwn = "";
    limits = [];
    image = "";
    image_architecture = none;
    snapshot_ref = none;
    encryption = none;
  };
  status = record { state = ""; encryption = ""; access = none; size = 0 };
}

-- The rbd image of an object that has lost its finalizer is gone.
abbrev IsSafe : World → Type 0
IsSafe w = w.pinned ≡ false → w.present ≡ false

one_image_rbd-Keeps : RbdKeeps one_image_rbd IsSafe
one_image_rbd-Keeps = record {
  open_io_context = λ pool. Keeps-pure tt;
  get_image_names = λ io. Keeps-pure [];
  data_pool_options = λ pool. Keeps-pure "";
  create_image = λ io name n o. Keeps-pure tt;
  remove_image = λ io name. record { after = λ w h p. refl };
  clone_image = λ io a b io2 c o. Keeps-pure tt;
  open_image = λ io name snap. Keeps-pure tt;
  close = λ img. Keeps-pure tt;
  get_size = λ img. Keeps-pure 0;
  resize = λ img n. Keeps-pure tt;
  set_metadata = λ img k v. Keeps-pure tt;
  encryption_format = λ img b. Keeps-pure tt;
  flatten = λ img. Keeps-pure tt;
  get_snapshot_names = λ img. Keeps-pure [];
  list_children = λ img. Keeps-pure ([], []);
  create_snapshot = λ img name. Keeps-pure tt;
  set_snapshot = λ img name. Keeps-pure tt;
  is_protected = λ img name. Keeps-pure true;
  protect = λ img name. Keeps-pure tt;
  unprotect = λ img name. Keeps-pure tt;
  remove_snapshot = λ img name. Keeps-pure tt;
  write = λ img b. Keeps-pure 0;
  mon_command = λ cmd. Keeps-pure "";
}

calls_keep : CallsKeep reconciler IsSafe
unfolding pure
calls_keep = record {
  rbd = one_image_rbd-Keeps;
  images = record { get = λ id. Keeps-fail _; create = λ o. Keeps-pure o };
  snapshots = record { get = λ id. Keeps-fail _; create = λ o. Keeps-pure o };
  snapshot_update = λ o. Keeps-pure o;
  eventf = λ m kind reason c h. h;
}

delete_image-Keeps_example : Keeps IsSafe (delete_image reconciler tt sample)
delete_image-Keeps_example =
    delete_image-Keeps reconciler calls_keep {Gone = λ w. w.present ≡ false} tt sample
      (record { at = λ w h. ((λ p. refl), (λ u. refl)) }) (record { at = λ w h p. h.1 })

-- A world that holds the size of the rbd image, which Resize sets.
abbrev resizing : ImageReconciler ℕ Unit Unit Unit
resizing = record {
  rbd = record still_rbd { resize = λ img n c. (ok tt, n) };
  registry = still_registry;
  images = still_store Image;
  snapshots = still_store Snapshot;
  recorder = still_recorder;
  key_encryption = still_encryptor;
  meta = still_meta;
  json = still_json;
  monitors = "";
  client = "client.admin";
  pool = "pool";
}

resize_image-Keeps_example : Keeps (λ size. 1000 ≤ size) (resize_image resizing sample tt 1000)
resize_image-Keeps_example =
    resize_image-Keeps resizing (λ m kind reason c h. h) sample tt 1000
      (λ larger. record { after = λ c h. omega arith }) (λ larger. Keeps-pure _)
