-- ===== src/VolumeServer/Start.antt =====
-- New of internal/volumeserver/server.go.
use ceph_provider.Prelude.{ℕ, String, Bool, Option, none, some, Map}
use ceph_provider.Exec.{Exec, pure, ◌>>=◌}
use ceph_provider.Api.{Image, Snapshot}
use ceph_provider.Store.{Store}
use ceph_provider.External.{Encryptor, Json, MetaUtils}
use ceph_provider.Classes.{Registry}
use ceph_provider.Ceph.{PoolStats}
use ceph_provider.VolumeServer.{Server}

-- An id generator that is nil is none.
pub record Options (C : Type 0) : Type 0 where
  pub id_gen : Option (Exec C String)
  pub burst_factor : ℕ
  pub burst_duration_in_seconds : ℕ

module _ {C : Type 0} where
  -- setOptionsDefaults: the id generator, over the default one.
  unfoldable pub id_gen_of : Exec C String → Options C → Exec C String
  id_gen_of default_gen opts = elim opts.id_gen [ none ↦ default_gen | some generate ↦ generate ]

  unfoldable pub new_server :
      Exec C String
      → Json
      → MetaUtils
      → (Map String → Map String → Bool)
      → Store C Image
      → Store C Snapshot
      → Registry
      → Encryptor C
      → Exec C PoolStats
      → Options C
      → Server C
  unfolding id_gen_of
  new_server default_gen json meta matches images snapshots classes encryptor pool_stats opts =
      record {
        generate = id_gen_of default_gen opts;
        image_store = images;
        snapshot_store = snapshots;
        volume_classes = classes;
        pool_stats = (do stats ← pool_stats; pure stats.max_avail);
        burst_factor = opts.burst_factor;
        burst_duration_in_seconds = opts.burst_duration_in_seconds;
        key_encryption = encryptor;
        json = json;
        meta = meta;
        matches = matches;
      }
