-- ===== src/Controllers/QueuedExamples.antt =====
-- Two stored images, one of which refers to the snapshot "s"; the world is what has been queued.
use ceph_provider.Prelude.{String, Option, none, some, List, [], ◌∷◌, ◌++◌, refl, ap}
use ceph_provider.Exec.{ok, pure}
use ceph_provider.Store.{Store}
use ceph_provider.Api.{Image, Snapshot}
use ceph_provider.Api.Meta.{with_id}
use ceph_provider.External.{WorkQueue}
use ceph_provider.Controllers.Still.{still_store, still_recorder}
use ceph_provider.Controllers.Start.{updated, on_snapshot_change}
use ceph_provider.Controllers.Queued.{QueueLaws, Adds, on_snapshot_change-Adds}

abbrev queue : WorkQueue (List String)
queue = record {
  get = pure none;
  add = λ id ids. (ok tt, ids ++ id ∷ []);
  add_rate_limited = λ id ids. (ok tt, ids ++ id ∷ []);
  forget = λ id. pure tt;
  finish = λ id. pure tt;
}

abbrev image : String → Option String → Image
image id ref = record {
  metadata = with_id id;
  spec = record {
    size = 0;
    wwn = "";
    limits = [];
    image = "";
    image_architecture = none;
    snapshot_ref = ref;
    encryption = none;
  };
  status = record { state = ""; encryption = ""; access = none; size = 0 };
}

abbrev two : List Image
two = image "a" (some "s") ∷ image "b" none ∷ []

abbrev images : Store (List String) Image
images = record (still_store Image) { list = pure two }

abbrev ready : Snapshot
ready = record {
  metadata = with_id "s";
  source = record { ironcore_image = "image"; volume_image_id = "" };
  status = record { state = "Ready"; digest = ""; size = 0 };
}

queue_laws : QueueLaws queue still_recorder (λ ids. ids)
queue_laws = record {
  adds = λ ids id. record { at = λ c h. (refl, ap (λ l. l ++ id ∷ []) h) };
  event_keeps = λ m kind reason c. refl;
}

on_snapshot_change-Adds_example :
    Adds queue images still_recorder queue_laws updated ready
      (ok two)
      ("x" ∷ [])
      (on_snapshot_change queue images still_recorder updated ready ("x" ∷ []))
unfolding pure
on_snapshot_change-Adds_example =
    on_snapshot_change-Adds queue images still_recorder queue_laws updated ready ("x" ∷ [])
      ("x" ∷ []) (ok two) refl refl
