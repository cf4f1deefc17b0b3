-- ===== src/VolumeServer/Missing.antt =====
-- The requests of internal/volumeserver for the id of a volume that is not stored.
use ceph_provider.Prelude.{String, true, false, some, ◌≡◌, refl, str_eq}
use ceph_provider.Errors.{
  Error, sentinel, wrap, status, internal, is, is_status, code_of, store_not_found,
  convert_internal_error_to_grpc,
}
use ceph_provider.Exec.{err, catch, fail}
use ceph_provider.VolumeServer.{Server}
use ceph_provider.VolumeServer.Change.{delete_volume}
use ceph_provider.VolumeServer.Lists.{Filter, list_volumes, list_volume_by_id, get_iri_volume}

module _ {C : Type 0} (s : Server C) where
  -- ListVolumes for the id of a volume that the store does not have fails with the code Internal: it
  -- does not return an empty list.
  pub list_volumes_missing :
      (filter : Filter) (e : Error) (c c' : C)
      → str_eq filter.id "" ≡ false
      → s.image_store.get filter.id c ≡ (err e, c')
      → is e store_not_found ≡ true
      → list_volumes s (some filter) c
        ≡ (err (status internal (wrap "failed to get image" (sentinel store_not_found))), c')
  unfolding list_volumes list_volume_by_id get_iri_volume catch fail convert_internal_error_to_grpc
      is is_status code_of
  list_volumes_missing filter e c c' named missing nf = rw named (rw missing (rw nf refl))

  -- DeleteVolume of a volume that the store does not have fails with the code Internal, not with
  -- NotFound.
  pub delete_volume_missing :
      (id : String) (e : Error) (c c' : C)
      → s.image_store.delete id c ≡ (err e, c')
      → is e store_not_found ≡ true
      → delete_volume s id c
        ≡ (err (status internal (wrap "failed to get volume" (sentinel store_not_found))), c')
  unfolding delete_volume catch fail convert_internal_error_to_grpc is is_status code_of
  delete_volume_missing id e c c' missing nf = rw missing (rw nf refl)
