-- ===== src/Strategy.antt =====
-- internal/strategy/strategy.go: what the stores set in an object before they create it.
use ceph_provider.Prelude.{String, none}
use ceph_provider.Exec.{Exec, pure, ◌>>=◌}
use ceph_provider.Api.{Image, Snapshot, image_state_pending, snapshot_state_pending}

abbrev pub pending_snapshot : Snapshot → Snapshot
pending_snapshot obj = record obj {
  status = record { state = snapshot_state_pending; digest = ""; size = 0 };
}

abbrev pub pending_image : String → Image → Image
pending_image wwn obj = record obj {
  spec = record obj.spec { wwn = wwn };
  status = record { state = image_state_pending; encryption = ""; access = none; size = 0 };
}

module _ {C : Type 0} where
  unfoldable pub prepare_snapshot : Snapshot → Exec C Snapshot
  prepare_snapshot obj = pure (pending_snapshot obj)

  -- Over the generator of world wide names, which draws random numbers.
  unfoldable pub prepare_image : Exec C String → Image → Exec C Image
  prepare_image generate obj = do wwn ← generate; pure (pending_image wwn obj)
