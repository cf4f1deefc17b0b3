-- ===== src/VolumeServer/Lists.antt =====
-- volume_list.go, volumesnapshot_list.go and status.go of internal/volumeserver. The selector is that
-- of a filter, none where the filter is nil; the id of a filter is empty where it has none.
use ceph_provider.Prelude.{
  ℕ, String, not, Option, none, some, List, [], ◌∷◌, Map, map, str_eq, ◌||◌, if◌then◌else◌,
}
use ceph_provider.Errors.{
  wrap, is, sentinel, store_not_found, volume_not_found, volume_isnt_managed, snapshot_not_found,
  snapshot_isnt_managed, convert_internal_error_to_grpc,
}
use ceph_provider.Exec.{Exec, Result, ok, err, pure, fail, lift, catch, annotate, ◌>>=◌}
use ceph_provider.Api.{Image, Snapshot, volume_manager}
use ceph_provider.ApiUtils.{is_object_managed_by}
use ceph_provider.Classes.{Class, list_classes}
use ceph_provider.VolumeServer.{
  Server, Volume, VolumeSnapshot, convert_image_to_iri_volume,
  convert_snapshot_to_iri_volume_snapshot,
}

-- iri.VolumeFilter and iri.VolumeSnapshotFilter
pub record Filter : Type 0 where
  pub id : String
  pub label_selector : Map String

module _ {C : Type 0} (s : Server C) where
  unfoldable pub get_iri_volume : String → Exec C Volume
  unfolding is_object_managed_by convert_image_to_iri_volume
  get_iri_volume image_id =
      catch (s.image_store.get image_id)
        (λ e.
          if is e store_not_found
          then fail (wrap "failed to get image" (sentinel store_not_found))
          else fail (wrap "failed to get image" e))
        (λ image.
          if not (is_object_managed_by image.metadata volume_manager)
          then fail (wrap "failed to get image" (sentinel volume_isnt_managed))
          else lift (convert_image_to_iri_volume s.json image))

  unfoldable pub select_volumes : Map String → List Volume → List Volume
  select_volumes selector [] = []
  select_volumes selector (volume ∷ volumes) =
      let rest = select_volumes selector volumes in
      if s.matches selector volume.metadata.labels then volume ∷ rest else rest

  unfoldable pub filter_volumes : List Volume → Option Filter → List Volume
  unfolding select_volumes
  filter_volumes volumes none = volumes
  filter_volumes volumes (some filter) = select_volumes filter.label_selector volumes

  -- The loop over the stored images: those of this provider, converted.
  unfoldable pub convert_images : List Image → Result (List Volume)
  unfolding is_object_managed_by convert_image_to_iri_volume
  convert_images [] = ok []
  convert_images (image ∷ images) =
      let rest = convert_images images in
      if not (is_object_managed_by image.metadata volume_manager)
      then rest
      else elim (convert_image_to_iri_volume s.json image) [
        | err e ↦ err e
        | ok volume ↦ elim rest [ err e ↦ err e | ok volumes ↦ ok (volume ∷ volumes) ]
      ]

  unfoldable pub list_all_volumes : Exec C (List Volume)
  unfolding convert_images
  list_all_volumes = do
    images ← annotate "error listing volumes" s.image_store.list
    lift (convert_images images)

  unfoldable pub list_volume_by_id : String → Exec C (List Volume)
  unfolding get_iri_volume convert_internal_error_to_grpc
  list_volume_by_id id =
      catch (get_iri_volume id)
        (λ e.
          if is e volume_not_found || is e volume_isnt_managed
          then pure []
          else fail (convert_internal_error_to_grpc e))
        (λ volume. pure (volume ∷ []))

  unfoldable pub list_filtered_volumes : Option Filter → Exec C (List Volume)
  unfolding list_all_volumes filter_volumes convert_internal_error_to_grpc
  list_filtered_volumes filter =
      catch list_all_volumes (λ e. fail (convert_internal_error_to_grpc e))
        (λ volumes. pure (filter_volumes volumes filter))

  unfoldable pub list_volumes : Option Filter → Exec C (List Volume)
  unfolding list_volume_by_id list_filtered_volumes
  list_volumes none = list_filtered_volumes none
  list_volumes (some filter) =
      if str_eq filter.id ""
      then list_filtered_volumes (some filter)
      else list_volume_by_id filter.id

  unfoldable pub get_iri_volume_snapshot : String → Exec C VolumeSnapshot
  unfolding is_object_managed_by convert_snapshot_to_iri_volume_snapshot
  get_iri_volume_snapshot snapshot_id =
      catch (s.snapshot_store.get snapshot_id) (λ e. fail (wrap "failed to get snapshot" e))
        (λ snapshot.
          if not (is_object_managed_by snapshot.metadata volume_manager)
          then fail (wrap "failed to get snapshot" (sentinel snapshot_isnt_managed))
          else lift (convert_snapshot_to_iri_volume_snapshot s.json snapshot))

  unfoldable pub select_snapshots : Map String → List VolumeSnapshot → List VolumeSnapshot
  select_snapshots selector [] = []
  select_snapshots selector (snapshot ∷ snapshots) =
      let rest = select_snapshots selector snapshots in
      if s.matches selector snapshot.metadata.labels then snapshot ∷ rest else rest

  unfoldable pub filter_snapshot : List VolumeSnapshot → Option Filter → List VolumeSnapshot
  unfolding select_snapshots
  filter_snapshot snapshots none = snapshots
  filter_snapshot snapshots (some filter) = select_snapshots filter.label_selector snapshots

  unfoldable pub convert_snapshots : List Snapshot → Result (List VolumeSnapshot)
  unfolding is_object_managed_by convert_snapshot_to_iri_volume_snapshot
  convert_snapshots [] = ok []
  convert_snapshots (snapshot ∷ snapshots) =
      let rest = convert_snapshots snapshots in
      if not (is_object_managed_by snapshot.metadata volume_manager)
      then rest
      else elim (convert_snapshot_to_iri_volume_snapshot s.json snapshot) [
        | err e ↦ err e
        | ok converted ↦ elim rest [ err e ↦ err e | ok others ↦ ok (converted ∷ others) ]
      ]

  unfoldable pub list_snapshots : Exec C (List VolumeSnapshot)
  unfolding convert_snapshots
  list_snapshots = do
    snapshots ← annotate "error listing snapshots" s.snapshot_store.list
    lift (convert_snapshots snapshots)

  unfoldable pub list_snapshot_by_id : String → Exec C (List VolumeSnapshot)
  unfolding get_iri_volume_snapshot convert_internal_error_to_grpc
  list_snapshot_by_id id =
      catch (get_iri_volume_snapshot id)
        (λ e.
          if is e snapshot_not_found || is e snapshot_isnt_managed
          then pure []
          else fail (convert_internal_error_to_grpc e))
        (λ snapshot. pure (snapshot ∷ []))

  unfoldable pub list_filtered_snapshots : Option Filter → Exec C (List VolumeSnapshot)
  unfolding list_snapshots filter_snapshot convert_internal_error_to_grpc
  list_filtered_snapshots filter =
      catch list_snapshots (λ e. fail (convert_internal_error_to_grpc e))
        (λ snapshots. pure (filter_snapshot snapshots filter))

  unfoldable pub list_volume_snapshots : Option Filter → Exec C (List VolumeSnapshot)
  unfolding list_snapshot_by_id list_filtered_snapshots
  list_volume_snapshots none = list_filtered_snapshots none
  list_volume_snapshots (some filter) =
      if str_eq filter.id ""
      then list_filtered_snapshots (some filter)
      else list_snapshot_by_id filter.id

  -- Status: each class with the space that is left in the pool.
  unfoldable pub server_status : Exec C (List (Class × ℕ))
  unfolding list_classes convert_internal_error_to_grpc
  server_status =
      catch s.pool_stats
        (λ e. fail (convert_internal_error_to_grpc (wrap "failed to get ceph pool stats" e)))
        (λ max_avail. pure (map (λ class. (class, max_avail)) (list_classes s.volume_classes)))
