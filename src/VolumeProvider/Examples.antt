-- ===== src/VolumeProvider/Examples.antt =====
-- Run on a keyring, in a world that is whether a temporary file is there.
use Prim.Native.Char.{code}
use ceph_provider.Prelude.{String, Bool, true, false, [], ◌∷◌, ◌≡◌, refl, some}
use ceph_provider.Errors.{new}
use ceph_provider.Exec.{ok, err, pure}
use ceph_provider.Exec.Keeps.{Keeps, Keeps-pure}
use ceph_provider.Encryption.{Crypto}
use ceph_provider.Ceph.{Cluster}
use ceph_provider.Ceph.Keyring.{Runes}
use ceph_provider.Classes.{ClassFiles}
use ceph_provider.VolumeProvider.{Host, Options, run}
use ceph_provider.VolumeProvider.KeyFile.{CallsKeep, FileLaws, run-Keeps}

abbrev codes : String → Runes
codes String.[] = []
codes (String.◌∷◌ c s) = code c ∷ codes s

abbrev keyring : Runes
keyring = codes "[client.a]\n\tkey = Q=\n"

abbrev host : Host Bool
host = record {
  read_file = λ path. pure keyring;
  create_temp = λ w. (ok "/tmp/key1", true);
  write_string = λ name key. pure tt;
  remove = λ name w. (ok tt, false);
  new_image_events = pure tt;
  new_snapshot_events = pure tt;
  go = λ task. pure tt;
  wait = pure tt;
}

abbrev crypto : Crypto Bool Unit
crypto = record {
  read_file = λ path. pure [];
  read_random = λ n. pure [];
  new_cipher = λ kek. ok tt;
  new_gcm = λ block. err (new "no cipher");
}

abbrev cluster : Cluster Bool Unit
cluster = record {
  new_conn_with_user = λ user. pure tt;
  parse_cmd_line_args = λ k args. pure tt;
  connect = λ k. pure (some (ok tt));
  list_pools = λ k. pure [];
  mon_command = λ k cmd. pure "";
}

abbrev files : ClassFiles Bool Unit
files = record { open_file = λ path. pure tt; decode = λ f. pure []; close = λ f. pure tt }

abbrev options : Options
options = record {
  address = "";
  path_supported_volume_classes = "";
  ceph = record {
    monitors = "";
    user = "";
    key_file = "";
    keyring_file = "keyring";
    pool = "";
    client = "";
    connect_timeout = 0;
    burst_factor = 0;
    burst_duration_in_seconds = 0;
    populator_buffer_size = 0;
    key_encryption_key_path = "";
    volume_event_store_options = record { max_events = 0; ttl = 0; resync_interval = 0 };
    worker_size = 2;
  };
}

calls_keep : {P : Bool → Type 0} → CallsKeep host crypto cluster files P
calls_keep = record {
  kek = λ path. Keeps-pure [];
  new_conn = λ user. Keeps-pure tt;
  parse = λ k args. Keeps-pure tt;
  connect = λ k. Keeps-pure (some (ok tt));
  list_pools = λ k. Keeps-pure [];
  new_image_events = Keeps-pure tt;
  new_snapshot_events = Keeps-pure tt;
  go = λ t. Keeps-pure tt;
  wait = Keeps-pure tt;
  open_file = λ path. Keeps-pure tt;
  decode = λ f. Keeps-pure [];
  close = λ f. Keeps-pure tt;
}

file_laws : FileLaws host crypto cluster files (λ w. w ≡ false) (λ name w. w ≡ true)
unfolding pure
file_laws = record {
  clean = calls_keep;
  dirty = λ name. calls_keep;
  reads = λ path. Keeps-pure keyring;
  creates = record { at = λ w h. refl };
  writes = λ name key. record { at = λ w h. h };
  removes = λ name. record { at = λ w h. refl };
}

run-Keeps_example : Keeps (λ w. w ≡ false) (run host crypto cluster files options)
run-Keeps_example = run-Keeps host crypto cluster files file_laws options
