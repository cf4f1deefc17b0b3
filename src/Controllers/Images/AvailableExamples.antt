-- ===== src/Controllers/Images/AvailableExamples.antt =====
-- An image with one limit, in a world that has whether its rbd image exists, the metadata that have
-- been set on it, and whether the stored object is Available. An open image is its name.
use ceph_provider.Prelude.{
  if◌then◌else◌, subst, sym, ℕ, String, Bool, true, false, none, List, [], ◌∷◌, ◌++◌, Map, ◌≡◌,
  refl, ◌⊎◌, inl, inr, str_eq, str_append,
}
use ceph_provider.Prelude.Texts.{format_int}
use ceph_provider.Exec.{Result, ok, pure}
use ceph_provider.Exec.Keeps.{Keeps, Keeps-pure, Keeps-fail}
use ceph_provider.Store.{Store}
use ceph_provider.Api.{Image, Snapshot}
use ceph_provider.Api.Meta.{with_id}
use ceph_provider.External.{Rbd}
use ceph_provider.Controllers.Common.{image_id_to_rbd_id}
use ceph_provider.Controllers.Frame.{RbdKeeps}
use ceph_provider.Controllers.Still.{
  still_registry, still_store, still_recorder, still_encryptor, still_json, still_meta,
}
use ceph_provider.Controllers.Images.{ImageReconciler, header_set, limit_metadata_prefix, member}
use ceph_provider.Controllers.Images.Reconcile.{reconcile_rbd}
use ceph_provider.Controllers.Images.Made.{AvailableLaws, SameSpec}
use ceph_provider.Controllers.Images.Available.{reconcile_rbd-Keeps}

record World : Type 0 where
  exists : Bool
  metadata : Map String
  available : Bool

abbrev rbd : Rbd World Unit String
rbd = record {
  open_io_context = λ pool. pure tt;
  get_image_names = λ io w. (ok (if w.exists then "img_a" ∷ [] else []), w);
  data_pool_options = λ pool. pure "";
  create_image = λ io name n o w. (ok tt, record w { exists = true });
  remove_image = λ io name. pure tt;
  clone_image = λ io a b io2 c o w. (ok tt, record w { exists = true });
  open_image = λ io name snap. pure name;
  close = λ img. pure tt;
  get_size = λ img. pure 0;
  resize = λ img n. pure tt;
  set_metadata = λ img k v w. (ok tt, record w { metadata = (k, v) ∷ w.metadata });
  encryption_format = λ img b. pure tt;
  flatten = λ img. pure tt;
  get_snapshot_names = λ img. pure [];
  list_children = λ img. pure ([], []);
  create_snapshot = λ img name. pure tt;
  set_snapshot = λ img name. pure tt;
  is_protected = λ img name. pure true;
  protect = λ img name. pure tt;
  unprotect = λ img name. pure tt;
  remove_snapshot = λ img name. pure tt;
  write = λ img b. pure 0;
  mon_command = λ cmd. pure "";
}

abbrev images : Store World Image
images = record (still_store Image) {
  update = λ o w. (ok o, record w { available = str_eq o.status.state "Available" });
}

abbrev reconciler : ImageReconciler World Unit String Unit
reconciler = record {
  rbd = rbd;
  registry = still_registry;
  images = images;
  snapshots = still_store Snapshot;
  recorder = still_recorder;
  key_encryption = still_encryptor;
  meta = still_meta;
  json = still_json;
  monitors = "";
  client = "client.admin";
  pool = "pool";
}

abbrev sample : Image
sample = record {
  metadata = with_id "a";
  spec = record {
    size = 2000000;
    wwn = "";
    limits = ("rbd_qos_iops_limit", 100) ∷ [];
    image = "";
    image_architecture = none;
    snapshot_ref = none;
    encryption = none;
  };
  status = record { state = "Pending"; encryption = ""; access = none; size = 0 };
}

abbrev Holds : String → String → Map String → Type 0
Holds k v [] = ⊥
Holds k v ((a, b) ∷ m) = ((a ≡ k) × (b ≡ v)) ⊎ Holds k v m

-- All limits are among the metadata.
abbrev AllSet : Map ℕ → Map String → Type 0
AllSet [] m = Unit {0}
AllSet ((limit, value) ∷ limits) m =
    Holds (str_append limit_metadata_prefix limit) (format_int value) m × AllSet limits m

AllSet-cons :
    (limits : Map ℕ) (m : Map String) (k v : String) → AllSet limits m → AllSet limits ((k, v) ∷ m)
AllSet-cons [] m k v h = tt
AllSet-cons ((limit, value) ∷ limits) m k v h = (inr h.0, AllSet-cons limits m k v h.1)

AllSet-snoc :
    (limits : Map ℕ) (m : Map String) (limit : String) (value : ℕ)
    → AllSet limits m
    → Holds (str_append limit_metadata_prefix limit) (format_int value) m
    → AllSet (limits ++ (limit, value) ∷ []) m
AllSet-snoc [] m limit value h k = (k, tt)
AllSet-snoc ((l, v) ∷ limits) m limit value h k = (h.0, AllSet-snoc limits m limit value h.1 k)

abbrev Made : Map ℕ → World → Type 0
Made done w = (w.exists ≡ true) × AllSet done w.metadata

-- The rbd image of an Available object exists and has the limits.
abbrev IsSafe : World → Type 0
IsSafe w = w.available ≡ true → Made sample.spec.limits w

sets-Keeps : (done : Map ℕ) (img k v : String) → Keeps (Made done) (rbd.set_metadata img k v)
sets-Keeps done img k v = record { after = λ w h. (h.0, AllSet-cons done w.metadata k v h.1) }

rbd-Keeps : RbdKeeps rbd IsSafe
rbd-Keeps = record {
  open_io_context = λ pool. Keeps-pure tt;
  get_image_names = λ io. record { after = λ w h. h };
  data_pool_options = λ pool. Keeps-pure "";
  create_image = λ io name n o. record { after = λ w h a. (refl, (h a).1) };
  remove_image = λ io name. Keeps-pure tt;
  clone_image = λ io a b io2 c o. record { after = λ w h a. (refl, (h a).1) };
  open_image = λ io name snap. Keeps-pure name;
  close = λ img. Keeps-pure tt;
  get_size = λ img. Keeps-pure 0;
  resize = λ img n. Keeps-pure tt;
  set_metadata =
      λ img k v. record { after = λ w h a. (sets-Keeps sample.spec.limits img k v).after w (h a) };
  encryption_format = λ img b. Keeps-pure tt;
  flatten = λ img. Keeps-pure tt;
  get_snapshot_names = λ img. Keeps-pure [];
  list_children = λ img. Keeps-pure ([], []);
  create_snapshot = λ img name. Keeps-pure tt;
  set_snapshot = λ img name. Keeps-pure tt;
  is_protected = λ img name. Keeps-pure true;
  protect = λ img name. Keeps-pure tt;
  unprotect = λ img name. Keeps-pure tt;
  remove_snapshot = λ img name. Keeps-pure tt;
  write = λ img b. Keeps-pure 0;
  mon_command = λ cmd. Keeps-pure "";
}

listed :
    (exists : Bool) (names : List String)
    → ◌≡◌ {A = Result (List String)} (ok (if exists then "img_a" ∷ [] else [])) (ok names)
    → member reconciler names "img_a" ≡ true
    → exists ≡ true
unfolding member
listed true names e found = refl
listed false names e found =
    let none_listed : ◌≡◌ {A = List String} [] names = cc e in
    absurd (cc (subst (λ l. member reconciler l "img_a" ≡ true) (sym none_listed) found))

laws : AvailableLaws reconciler IsSafe Made tt sample
unfolding pure image_id_to_rbd_id
laws = record {
  calls = record {
    rbd = rbd-Keeps;
    images = record { get = λ id. Keeps-fail _; create = λ o. Keeps-pure o };
    snapshots = record { get = λ id. Keeps-fail _; create = λ o. Keeps-pure o };
    snapshot_update = λ o. Keeps-pure o;
    eventf = λ m kind reason c h. h;
  };
  name_of = λ img. img;
  lists = record { at = λ w h. (h, λ names e found. (listed w.exists names e found, tt)) };
  creates = λ options. record { at = λ w h. ((λ a. (refl, (h a).1)), λ d. (refl, tt)) };
  clones =
      λ io2 parent snap options. record { at = λ w h. ((λ a. (refl, (h a).1)), λ d. (refl, tt)) };
  opens = λ done. record { at = λ w h. (h, λ img e. cc e) };
  closes = λ done img. Keeps-pure tt;
  resizes = λ done img n. Keeps-pure tt;
  sets = λ done img k v. record {
    after = λ w h. (
      (λ a. (sets-Keeps sample.spec.limits img k v).after w (h.0 a)),
      (sets-Keeps done img k v).after w h.1,
    );
  };
  limits = λ done img limit value named. record {
    at = λ w h. (
      (λ a. (sets-Keeps sample.spec.limits img _ _).after w (h.0 a)),
      λ d. (
        h.1.0,
        AllSet-snoc done _ limit value (AllSet-cons done w.metadata _ _ h.1.1) (inl (refl, refl)),
      ),
    );
  };
  formats = λ done img b. Keeps-pure tt;
  commands = λ done cmd. Keeps-pure "";
  events = λ done m kind reason w h. h;
  headers = λ done. record {
    at = λ w h. (
      ((λ a. absurd (cc a)), h.1),
      λ o e.
          let q : header_set reconciler sample ≡ o = cc e in
          subst (λ o. SameSpec o sample) q (refl, refl),
    );
  };
  makes = λ o e. record { at = λ w h a. h.1 };
}

reconcile_rbd-Keeps_example : Keeps IsSafe (reconcile_rbd reconciler tt sample)
reconcile_rbd-Keeps_example = reconcile_rbd-Keeps reconciler laws refl
