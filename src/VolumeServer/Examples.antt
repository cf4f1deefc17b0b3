-- ===== src/VolumeServer/Examples.antt =====
-- The theorems on the volume server at a world that holds the size of the only image, "a".
use ceph_provider.Prelude.{
  ◌∷◌, arith, ◌≤◌, ℕ, String, Bool, true, false, Option, none, some, [], ◌≡◌, ◌⊎◌, inl, inr, refl,
  fun_ext, subst, sym, ◌∙◌, eq_iff, str_eq, if◌then◌else◌, ap,
}
use ceph_provider.Errors.{sentinel, wrap, status, internal, is, store_not_found}
use ceph_provider.Exec.{Exec, ok, err, pure, fail}
use ceph_provider.Exec.Triple.{Triple}
use ceph_provider.Store.{Store}
use ceph_provider.Api.{Image, Snapshot}
use ceph_provider.Api.Meta.{with_id}
use ceph_provider.Controllers.Still.{still_store, still_encryptor, still_json, still_meta}
use ceph_provider.VolumeServer.{Server}
use ceph_provider.VolumeServer.Change.{expand_image}
use ceph_provider.VolumeServer.Lists.{list_volumes}
use ceph_provider.VolumeServer.Missing.{list_volumes_missing}
use ceph_provider.Exec.Keeps.{Keeps, Keeps-pure}
use ceph_provider.VolumeServer.Create.{VolumeRequest, DataSource, create_volume}
use ceph_provider.VolumeServer.Restore.{create_volume-Keeps}
use ceph_provider.VolumeServer.Growth.{Sizes, set_size, Found, StoreLaws, Grown, expand_image-Grown}

abbrev pub sized : ℕ → Image
sized n = record {
  metadata = with_id "a";
  spec = record {
    size = n;
    wwn = "";
    limits = [];
    image = "";
    image_architecture = none;
    snapshot_ref = none;
    encryption = none;
  };
  status = record { state = ""; encryption = ""; access = none; size = 0 };
}

abbrev view : ℕ → Sizes
view n k = if str_eq "a" k then some n else none

abbrev get_if : Bool → Exec ℕ Image
get_if true n = (ok (sized n), n)
get_if false n = (err (sentinel store_not_found), n)

abbrev get_sized : String → Exec ℕ Image
get_sized id n = get_if (str_eq id "a") n

-- An update of "a" takes its size; any other image is not in the store.
abbrev update_if : Bool → Image → Exec ℕ Image
update_if true o n = (ok o, o.spec.size)
update_if false o n = (err (sentinel store_not_found), n)

abbrev update_sized : Image → Exec ℕ Image
update_sized o n = update_if (str_eq o.metadata.id "a") o n

abbrev sized_store : Store ℕ Image
sized_store = record (still_store Image) {
  get = get_sized;
  update = update_sized;
  delete = λ id. fail (sentinel store_not_found);
}

abbrev pub server : Server ℕ
server = record {
  generate = pure "b";
  image_store = sized_store;
  snapshot_store = still_store Snapshot;
  volume_classes = [];
  pool_stats = pure 0;
  burst_factor = 10;
  burst_duration_in_seconds = 15;
  key_encryption = still_encryptor;
  json = still_json;
  meta = still_meta;
  matches = λ selector labels. true;
}

list_volumes_missing_example :
    list_volumes server (some (record { id = "b"; label_selector = [] })) 7
    ≡ (err (status internal (wrap "failed to get image" (sentinel store_not_found))), 7)
unfolding is
list_volumes_missing_example =
    list_volumes_missing server (record { id = "b"; label_selector = [] })
      (sentinel store_not_found) 7 7 refl refl refl

viewed : (n : ℕ) (id : String) → id ≡ "a" → view n id ≡ some n
viewed n id h = rw h refl

read_if :
    (v : Sizes) (id : String) (n : ℕ) (b : Bool)
    → (b ≡ true → id ≡ "a")
    → view n ≡ v
    → (view (get_if b n).1 ≡ v) × Found v id (get_if b n).0
read_if v id n true same h =
    (h, (ap (λ (u : Sizes). u id) (sym h) ∙ viewed n id (same refl), sym (same refl)))
read_if v id n false same h = (h, tt)

overwritten :
    (b : Bool) (x y : Option ℕ) → (if b then x else none) ≡ (if b then x else if b then y else none)
overwritten true x y = refl
overwritten false x y = refl

update_view :
    (v : Sizes) (n m : ℕ) (id : String) → id ≡ "a" → view n ≡ v → view m ≡ set_size v id (some m)
update_view v n m id same h =
    subst (λ k. view m ≡ set_size v k (some m)) (sym same)
      (subst (λ u. view m ≡ set_size u "a" (some m)) h
        (fun_ext λ k. overwritten (str_eq "a" k) (some m) (some n)))

Written : Sizes → Image → Sizes → Type 0
Written v o w =
    (w ≡ v)
    ⊎ ((x : Option ℕ) × ((x ≡ none) ⊎ (x ≡ some o.spec.size)) × (w ≡ set_size v o.metadata.id x))

write_if :
    (v : Sizes) (o : Image) (n : ℕ) (b : Bool)
    → (b ≡ true → o.metadata.id ≡ "a")
    → view n ≡ v
    → Written v o (view (update_if b o n).1)
unfolding Written
write_if v o n true same h =
    inr (some o.spec.size, inr refl, update_view v n o.spec.size o.metadata.id (same refl) h)
write_if v o n false same h = inl h

sized_laws : StoreLaws sized_store view
unfolding Written
sized_laws = record {
  get_reads = λ v id. record { at = λ n h. read_if v id n (str_eq id "a") (eq_iff id "a").0 h };
  update_writes = λ v o. record {
    at = λ n h. write_if v o n (str_eq o.metadata.id "a") (eq_iff o.metadata.id "a").0 h;
  };
}

expand_image-Grown_example :
    Triple (λ c. view c ≡ view 7) (expand_image server "a" 9) (λ r c. Grown (view 7) (view c))
expand_image-Grown_example = expand_image-Grown server sized_laws (view 7) "a" 9

-- A world that holds the size of the image that was created last; the volume "v" has 5 bytes and every
-- other image one, and every snapshot is of the volume "v".
abbrev restoring_images : Store ℕ Image
restoring_images = record (still_store Image) {
  get = λ id. pure (if str_eq id "v" then sized 5 else sized 1);
  create = λ o c. (ok o, o.spec.size);
}

abbrev restoring_snapshots : Store ℕ Snapshot
restoring_snapshots = record (still_store Snapshot) {
  get = λ id. pure (record {
    metadata = with_id id;
    source = record { ironcore_image = ""; volume_image_id = "v" };
    status = record { state = "Ready"; digest = ""; size = 5 };
  });
}

abbrev restoring : Server ℕ
restoring = record server {
  image_store = restoring_images;
  snapshot_store = restoring_snapshots;
  volume_classes = ("fast", record { name = "fast"; tps = 2; iops = 1 }) ∷ [];
}

abbrev from_snapshot : DataSource
from_snapshot = record { snapshot_data_source = some "s"; image_data_source = none }

abbrev request : VolumeRequest
request = record {
  metadata = some (record {
    id = "";
    annotations = [];
    labels = [];
    generation = 0;
    created_at = 0;
    deleted_at = 0;
  });
  class = "fast";
  image = "";
  resources = none;
  encryption = none;
  volume_data_source = some from_snapshot;
}

create_volume-Keeps_example : Keeps (λ c. 5 ≤ c) (create_volume restoring (some request))
unfolding pure
create_volume-Keeps_example =
    create_volume-Keeps restoring {P = λ c. 5 ≤ c} 5 (Keeps-pure "b") (λ b. Keeps-pure b) "s" "v"
      (record { at = λ c h. (h, refl) }) (record { at = λ c h. (h, omega arith) })
      (λ i le. record { after = λ c h. le }) request from_snapshot refl refl
