-- ===== src/VolumeServer/Change.antt =====
-- volume_expand.go, volume_delete.go and volumesnapshot_delete.go of internal/volumeserver.
use ceph_provider.Prelude.{ℕ, String, leb, if◌then◌else◌}
use ceph_provider.Errors.{
  new, wrap, is, sentinel, store_not_found, snapshot_not_found, convert_internal_error_to_grpc,
}
use ceph_provider.Exec.{Exec, pure, fail, lift, catch, annotate, ◌>>=◌, ◌>>◌}
use ceph_provider.Utils.{int64_to_uint64}
use ceph_provider.Api.{Image}
use ceph_provider.VolumeServer.{Server}

abbrev pub resized : ℕ → Image → Image
resized size image = record image { spec = record image.spec { size = size } }

module _ {C : Type 0} (s : Server C) where
  unfoldable pub expand_image : String → ℕ → Exec C Unit
  unfolding int64_to_uint64
  expand_image image_id storage_bytes = do
    image ← annotate "unable to get ceph image" (s.image_store.get image_id)
    size ← lift (int64_to_uint64 storage_bytes)
    if leb size image.spec.size
        then fail (new "requested size must be greater than current size")
        else (do
          annotate "failed to update ceph image" (s.image_store.update (resized size image))
          pure tt)

  unfoldable pub expand_volume : String → ℕ → Exec C Unit
  unfolding expand_image convert_internal_error_to_grpc
  expand_volume volume_id storage_bytes =
      catch (expand_image volume_id storage_bytes)
        (λ e. fail (convert_internal_error_to_grpc (wrap "failed to expand volume" e))) pure

  unfoldable pub delete_volume : String → Exec C Unit
  unfolding convert_internal_error_to_grpc
  delete_volume volume_id =
      catch (s.image_store.delete volume_id)
        (λ e.
          if is e store_not_found
          then fail (
              convert_internal_error_to_grpc
                (wrap "failed to get volume" (sentinel store_not_found)))
          else fail (wrap "error deleting volume" e))
        pure

  unfoldable pub delete_volume_snapshot : String → Exec C Unit
  unfolding convert_internal_error_to_grpc
  delete_volume_snapshot id =
      catch (s.snapshot_store.delete id)
        (λ e.
          if is e snapshot_not_found
          then fail (
              convert_internal_error_to_grpc
                (wrap "failed to delete volume snapshot" (sentinel snapshot_not_found)))
          else fail (wrap "error deleting volume snapshot" e))
        pure
