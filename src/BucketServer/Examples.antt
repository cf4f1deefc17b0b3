-- ===== src/BucketServer/Examples.antt =====
-- The deletion of a bucket in a world that counts deletions, where the only claim has another manager.
use ceph_provider.Prelude.{ℕ, suc, true, [], ◌∷◌, ◌≡◌, if◌then◌else◌}
use ceph_provider.Exec.{ok, err, pure}
use ceph_provider.Exec.Keeps.{Keeps, Keeps-pure}
use ceph_provider.Errors.{new}
use ceph_provider.Api.{manager_label, bucket_manager}
use ceph_provider.Api.Meta.{with_id}
use ceph_provider.ApiUtils.Kubernetes.{is_managed_by}
use ceph_provider.Controllers.Still.{still_json, still_meta}
use ceph_provider.BucketServer.{Server, Kube, Claim, delete_bucket}
use ceph_provider.BucketServer.Managed.{delete_bucket-Keeps}

abbrev claim : Claim
claim = record {
  metadata = record (with_id "b") { labels = (manager_label, "another") ∷ [] };
  storage_class_name = "";
  generate_bucket_name = "b";
  bucket_name = "b";
  phase = "Bound";
}

-- The world is the number of deletions of claims that another manager has.
abbrev kube : Kube ℕ
kube = record {
  create = λ o. pure o;
  get_claim = λ name. pure claim;
  get_secret = λ name. pure (record { name = name; content = [] });
  delete = λ o n. (ok tt, if is_managed_by o.metadata bucket_manager then n else suc n);
  list_claims = λ labels. pure [];
  list_secrets = pure [];
  gvk = ok tt;
  object_getter = λ secrets. ok (λ name. err (new "not found"));
}

abbrev server : Server ℕ
server = record {
  generate = pure "b";
  client = kube;
  phases = record {
    pending = "Pending";
    bound = "Bound";
    failed = "Failed";
    released = "Released";
  };
  bucket_endpoint = "example.org";
  bucket_pool_storage_class_name = "";
  json = still_json;
  meta = still_meta;
  matches = λ selector labels. true;
}

delete_bucket-Keeps_example : Keeps (λ n. n ≡ 0) (delete_bucket server "b")
delete_bucket-Keeps_example =
    delete_bucket-Keeps server {P = λ n. n ≡ 0} (λ name. Keeps-pure claim)
      (λ o managed. record { after = λ n h. rw managed h }) "b"
