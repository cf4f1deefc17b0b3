-- ===== src/VolumeProvider.antt =====
-- cmd/volumeprovider/app/app.go: the options of the volume provider and its start-up. The flags
-- themselves are parsed by cobra. The goroutines of the error group are tasks that it runs.
pub mod KeyFile
mod Examples
use ceph_provider.Prelude.{
  ℕ, ◌*◌, ◌^◌, String, Bool, true, false, not, Option, none, some, List, [], ◌∷◌, str_eq, contains,
  ◌&&◌, if◌then◌else◌,
}
use ceph_provider.Prelude.Words.{int64_lt}
use ceph_provider.Errors.{Error, new, wrap}
use ceph_provider.Exec.{
  Exec, Result, ok, err, pure, fail, lift, catch, deferring, annotate, ◌>>=◌, ◌>>◌,
}
use ceph_provider.Omap.{check_options}
use ceph_provider.Encryption.{Crypto, new_aes_gcm_encryptor}
use ceph_provider.Ceph.{Cluster, Credentials, connect_to_rados, check_if_pool_exists}
use ceph_provider.Ceph.Keyring.{Runes, get_key_from_keyring}
use ceph_provider.Classes.{Class, ClassFiles, load_volume_classes_file, new_class_registry}
use ceph_provider.Controllers.Start.{
  Given, ImageReconcilerOptions, SnapshotReconcilerOptions, new_image_reconciler,
  new_snapshot_reconciler,
}

-- Durations are in nanoseconds.
pub record EventStoreOptions : Type 0 where
  pub max_events : ℕ
  pub ttl : ℕ
  pub resync_interval : ℕ

pub record CephOptions : Type 0 where
  pub monitors : String
  pub user : String
  pub key_file : String
  pub keyring_file : String
  pub pool : String
  pub client : String
  pub connect_timeout : ℕ
  pub burst_factor : ℕ
  pub burst_duration_in_seconds : ℕ
  pub populator_buffer_size : ℕ
  pub key_encryption_key_path : String
  pub volume_event_store_options : EventStoreOptions
  pub worker_size : ℕ

pub record Options : Type 0 where
  pub address : String
  pub path_supported_volume_classes : String
  pub ceph : CephOptions

abbrev pub second : ℕ
second = 10 ^ 9

unfoldable pub defaults : Options → Options
defaults o = record o {
  ceph = record o.ceph {
    connect_timeout = 10 * second;
    burst_factor = 10;
    burst_duration_in_seconds = 15;
    populator_buffer_size = 5 * 1024 * 1024;
    worker_size = 15;
  };
}

-- AddFlags sets each option to the default of its flag, which for all others is the option itself.
unfoldable pub add_flags : Options → Options
add_flags o = record o {
  address = "/var/run/ceph-volume-provider.sock";
  ceph = record o.ceph {
    volume_event_store_options = record {
      max_events = 100;
      ttl = 5 * 60 * second;
      resync_interval = 60 * second;
    };
  };
}

abbrev pub flag_names : List String
flag_names =
    "address" ∷ "supported-volume-classes" ∷ "limits-burst-factor" ∷ "limits-burst-duration"
    ∷ "populator-buffer-size" ∷ "ceph-monitors" ∷ "ceph-connect-timeout" ∷ "ceph-user"
    ∷ "ceph-key-file" ∷ "ceph-keyring-file" ∷ "ceph-pool" ∷ "ceph-client" ∷ "ceph-kek-path"
    ∷ "volume-event-max-events" ∷ "volume-event-ttl" ∷ "volume-event-resync-interval"
    ∷ "worker-size" ∷ []

-- MarkFlagRequired, of the flags that are required so far: it refuses a name that no flag has, and the
-- error is dropped.
unfoldable pub mark_flag_required : List String → String → List String → List String
unfolding contains
mark_flag_required flags name required = if contains flags name then name ∷ required else required

unfoldable pub mark_flags_required : List String → List String
unfolding mark_flag_required
mark_flags_required flags = mark_flag_required flags "ceph-kek-path" (
    mark_flag_required flags "ceph-pool" (
      mark_flag_required flags "ceph-monitors"
        (mark_flag_required flags "available-volume-classes" [])))

-- The functions that Run gives to the error group.
pub data Task : Type 0 where
  image_reconciler snapshot_reconciler image_events snapshot_events : Task
  event_garbage_collector grpc_server : Task

-- The operating system, the event sources of the two stores, and the error group.
pub record Host (C : Type 0) : Type 0 where
  pub read_file : String → Exec C Runes
  -- os.CreateTemp, with the name of the file
  pub create_temp : Exec C String
  pub write_string : String → Runes → Exec C Unit
  pub remove : String → Exec C Unit
  pub new_image_events : Exec C Unit
  pub new_snapshot_events : Exec C Unit
  pub go : Task → Exec C Unit
  pub wait : Exec C Unit

abbrev pub with_key_file : String → CephOptions → CephOptions
with_key_file name opts = record opts { key_file = name }

abbrev pub all_given : Given
all_given = record {
  conn = true;
  images = true;
  snapshots = true;
  image_events = true;
  snapshot_events = true;
  key_encryption = true;
}

abbrev pub image_options : CephOptions → ImageReconcilerOptions
image_options opts = record {
  monitors = opts.monitors;
  client = opts.client;
  pool = opts.pool;
  worker_size = opts.worker_size;
}

abbrev pub snapshot_options : CephOptions → SnapshotReconcilerOptions
snapshot_options opts = record {
  pool = opts.pool;
  populator_buffer_size = opts.populator_buffer_size;
  worker_size = opts.worker_size;
}

module _ {C : Type 0} (host : Host C) where
  -- configureCephAuth: the file that its cleanup removes, none for the cleanup that does nothing, and
  -- the options or the error.
  unfoldable pub configure_ceph_auth : CephOptions → Exec C (Option String × Result CephOptions)
  unfolding get_key_from_keyring
  configure_ceph_auth opts =
      if str_eq opts.key_file "" && str_eq opts.keyring_file ""
      then pure (none, err (new "ceph-key-file or ceph-keyring-file needs to be defined"))
      else if not (str_eq opts.key_file "")
      then pure (none, ok opts)
      else catch (get_key_from_keyring host.read_file opts.keyring_file)
          (λ e. pure (none, err (wrap "failed to get key from keyring" e)))
          λ key.
            catch host.create_temp (λ e. pure (none, err (wrap "failed to create temp file" e)))
              λ name.
                catch (host.write_string name key)
                  (λ e. pure (some name, err (wrap "failed to write key to temp file" e)))
                  (λ u. pure (some name, ok (with_key_file name opts)))

  unfoldable pub cleanup : Option String → Exec C Unit
  cleanup none = pure tt
  cleanup (some name) = host.remove name

  module _ {B K F : Type 0} (crypto : Crypto C B) (cluster : Cluster C K)
      (files : ClassFiles C F) where
    -- The part of Run from the reconcilers on: the tasks are started, and waited for.
    unfoldable pub start_tasks : Options → Exec C Unit
    start_tasks opts = do
      annotate "failed to initialize image reconciler"
          (lift (new_image_reconciler all_given (image_options opts.ceph)))
      host.go image_reconciler
      annotate "failed to initialize snapshot reconciler"
          (lift (new_snapshot_reconciler all_given (snapshot_options opts.ceph)))
      host.go snapshot_reconciler
      host.go image_events
      host.go snapshot_events
      host.go event_garbage_collector
      classes ←
          annotate "failed to load supported volume classes"
            (load_volume_classes_file files opts.path_supported_volume_classes)
      annotate "failed to initialize volume class registry" (lift (new_class_registry classes))
      host.go grpc_server
      host.wait

    -- The part of Run after the authentication.
    unfoldable pub serve : Options → Exec C Unit
    serve opts = do
      encryptor ←
          annotate "failed to init encryptor"
            (new_aes_gcm_encryptor crypto opts.ceph.key_encryption_key_path)
      conn ← annotate "failed to establish rados connection" (
          connect_to_rados cluster (record {
            monitors = opts.ceph.monitors;
            user = opts.ceph.user;
            keyfile = opts.ceph.key_file;
          }))
      annotate "configuration invalid" (check_if_pool_exists cluster conn opts.ceph.pool)
      annotate "failed to initialize image store"
          (lift (check_options (some conn) opts.ceph.pool "ironcore.csi.volumes" (some tt)))
      annotate "failed to initialize image events" host.new_image_events
      annotate "failed to initialize snapshot store"
          (lift (check_options (some conn) opts.ceph.pool "ironcore.csi.snapshots" (some tt)))
      annotate "failed to initialize snapshot events" host.new_snapshot_events
      start_tasks opts

    unfoldable pub run : Options → Exec C Unit
    unfolding configure_ceph_auth cleanup serve
    run opts =
        if int64_lt 1 opts.ceph.worker_size
        then (do
          (file, configured) ← configure_ceph_auth opts.ceph
          elim configured [
            | err e ↦ fail (wrap "failed to configure ceph auth" e)
            | ok ceph ↦ deferring (cleanup file) (serve (record opts { ceph = ceph }))
          ])
        else fail (new "worker-size must be greater than 1")
