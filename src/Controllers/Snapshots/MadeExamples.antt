-- ===== src/Controllers/Snapshots/MadeExamples.antt =====
-- A snapshot of the volume "v" in a world with one rbd snapshot and one stored object: whether the rbd
-- snapshot exists, whether it is protected, and whether the object is Ready. An open image is its name.
use ceph_provider.Prelude.{String, Bool, true, none, [], ◌≡◌, refl, str_eq}
use ceph_provider.Exec.{ok, pure}
use ceph_provider.Exec.Keeps.{Keeps, Keeps-pure}
use ceph_provider.Store.{Store}
use ceph_provider.Api.{Image, Snapshot}
use ceph_provider.Api.Meta.{with_id}
use ceph_provider.External.{Rbd}
use ceph_provider.Controllers.Common.{get_snapshot_source_details, image_id_to_rbd_id}
use ceph_provider.Controllers.Frame.{RbdKeeps}
use ceph_provider.Controllers.Still.{still_registry, still_store, still_registry-Keeps}
use ceph_provider.Controllers.Snapshots.{SnapshotReconciler, reconcile_state}
use ceph_provider.Controllers.Snapshots.Made.{MakeLaws}
use ceph_provider.Controllers.Snapshots.Ready.{reconcile_state-Keeps}

record World : Type 0 where
  there : Bool
  made : Bool
  ready : Bool

abbrev rbd : Rbd World Unit String
rbd = record {
  open_io_context = λ pool. pure tt;
  get_image_names = λ io. pure [];
  data_pool_options = λ pool. pure "";
  create_image = λ io name n o. pure tt;
  remove_image = λ io name. pure tt;
  clone_image = λ io a b io2 c o. pure tt;
  open_image = λ io name snap. pure name;
  close = λ img. pure tt;
  get_size = λ img. pure 0;
  resize = λ img n. pure tt;
  set_metadata = λ img k v. pure tt;
  encryption_format = λ img b. pure tt;
  flatten = λ img. pure tt;
  get_snapshot_names = λ img. pure [];
  list_children = λ img. pure ([], []);
  create_snapshot = λ img name w. (ok tt, record w { there = true });
  set_snapshot = λ img name. pure tt;
  is_protected = λ img name. pure true;
  protect = λ img name w. (ok tt, record w { made = true });
  unprotect = λ img name. pure tt;
  remove_snapshot = λ img name. pure tt;
  write = λ img b. pure 0;
  mon_command = λ cmd. pure "";
}

abbrev volume : Image
volume = record {
  metadata = with_id "v";
  spec = record {
    size = 0;
    wwn = "";
    limits = [];
    image = "";
    image_architecture = none;
    snapshot_ref = none;
    encryption = none;
  };
  status = record { state = "Available"; encryption = ""; access = none; size = 0 };
}

abbrev images : Store World Image
images = record (still_store Image) { get = λ id. pure volume }

abbrev snapshots : Store World Snapshot
snapshots = record (still_store Snapshot) {
  update = λ o w. (ok o, record w { ready = str_eq o.status.state "Ready" });
}

abbrev reconciler : SnapshotReconciler World Unit String Unit
reconciler = record {
  rbd = rbd;
  registry = still_registry;
  store = snapshots;
  images = images;
  pool = "pool";
}

abbrev sample : Snapshot
sample = record {
  metadata = with_id "s";
  source = record { ironcore_image = ""; volume_image_id = "v" };
  status = record { state = "Pending"; digest = ""; size = 0 };
}

-- The rbd snapshot exists and is protected.
abbrev IsMade : World → Type 0
IsMade w = (w.there ≡ true) × (w.made ≡ true)

-- The rbd snapshot of a Ready object is made.
abbrev IsSafe : World → Type 0
IsSafe w = w.ready ≡ true → IsMade w

rbd-Keeps : RbdKeeps rbd IsSafe
rbd-Keeps = record {
  open_io_context = λ pool. Keeps-pure tt;
  get_image_names = λ io. Keeps-pure [];
  data_pool_options = λ pool. Keeps-pure "";
  create_image = λ io name n o. Keeps-pure tt;
  remove_image = λ io name. Keeps-pure tt;
  clone_image = λ io a b io2 c o. Keeps-pure tt;
  open_image = λ io name snap. Keeps-pure name;
  close = λ img. Keeps-pure tt;
  get_size = λ img. Keeps-pure 0;
  resize = λ img n. Keeps-pure tt;
  set_metadata = λ img k v. Keeps-pure tt;
  encryption_format = λ img b. Keeps-pure tt;
  flatten = λ img. Keeps-pure tt;
  get_snapshot_names = λ img. Keeps-pure [];
  list_children = λ img. Keeps-pure ([], []);
  create_snapshot = λ img name. record { after = λ w h p. (refl, (h p).1) };
  set_snapshot = λ img name. Keeps-pure tt;
  is_protected = λ img name. Keeps-pure true;
  protect = λ img name. record { after = λ w h p. ((h p).0, refl) };
  unprotect = λ img name. Keeps-pure tt;
  remove_snapshot = λ img name. Keeps-pure tt;
  write = λ img b. Keeps-pure 0;
  mon_command = λ cmd. Keeps-pure "";
}

make_laws : MakeLaws reconciler IsSafe (λ w. w.there ≡ true) IsMade tt sample "img_v" "s"
unfolding pure
make_laws = record {
  calls = record {
    rbd = rbd-Keeps;
    registry = still_registry-Keeps;
    image_get = λ id. Keeps-pure volume;
  };
  name_of = λ img. img;
  opens = λ image. record { at = λ w h. (h, λ img e. cc e) };
  creates = λ img e. record { at = λ w h. ((λ p. (refl, (h p).1)), (λ d. refl)) };
  protects = λ img e. record { at = λ w h. ((λ p. (h.1, refl)), (λ d. (h.1, refl))) };
  sets = λ img. Keeps-pure tt;
  closes = λ img. Keeps-pure tt;
  reader_closes = λ h. Keeps-pure tt;
  source = record { at = λ w h. (h, refl) };
  fails = record { after = λ w h p. absurd (cc p) };
  readies = λ o e. record { at = λ w h p. h.1 };
}

reconcile_state-Keeps_example : Keeps IsSafe (reconcile_state reconciler tt sample)
unfolding get_snapshot_source_details image_id_to_rbd_id
reconcile_state-Keeps_example = reconcile_state-Keeps reconciler make_laws refl refl
