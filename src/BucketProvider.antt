-- ===== src/BucketProvider.antt =====
-- cmd/bucketprovider/app/app.go: the options of the bucket provider and its start-up.
use ceph_provider.Prelude.{String, List, [], ◌∷◌}
use ceph_provider.Exec.{Exec, Result, lift, annotate, ◌>>=◌, ◌>>◌}
use ceph_provider.VolumeProvider.{mark_flag_required}
use ceph_provider.Classes.{
  ClassFiles, Registry, load_bucket_classes_file, new_bucket_class_registry,
}
use ceph_provider.Grpc.{Sockets, serve_buckets}

pub record Options : Type 0 where
  pub kubeconfig : String
  pub address : String
  pub namespace : String
  pub bucket_pool_storage_class_name : String
  pub path_supported_bucket_classes : String
  pub bucket_endpoint : String

-- AddFlags sets the address to the default of its flag; the other flags have the option as default.
unfoldable pub add_flags : Options → Options
add_flags o = record o { address = "/var/run/ceph-bucket-provider.sock" }

abbrev pub flag_names : List String
flag_names =
    "kubeconfig" ∷ "address" ∷ "namespace" ∷ "bucket-pool-storage-class-name" ∷ "bucket-endpoint"
    ∷ "bucket-class-selector" ∷ "supported-bucket-classes" ∷ []

unfoldable pub mark_flags_required : List String → List String
unfolding mark_flag_required
mark_flags_required flags =
    mark_flag_required flags "bucket-endpoint"
      (mark_flag_required flags "bucket-pool-storage-class-name" [])

-- The configuration of the cluster is a handle `G`; the server is made from it and the classes.
module _ {C F L G : Type 0} (get_config : String → Exec C G) (files : ClassFiles C F)
    (new_server : G → Registry → Options → Result (Unit {0})) (sockets : Sockets C L) where
  unfoldable pub run : Options → Exec C Unit
  unfolding load_bucket_classes_file new_bucket_class_registry serve_buckets
  run opts = do
    cfg ← get_config opts.kubeconfig
    classes ←
        annotate "failed to load supported bucket classes"
          (load_bucket_classes_file files opts.path_supported_bucket_classes)
    registry ←
        annotate "failed to initialize bucket class registry"
          (lift (new_bucket_class_registry classes))
    annotate "error creating server" (lift (new_server cfg registry opts))
    serve_buckets sockets opts.address
