-- ===== src/Controllers/Common.antt =====
-- internal/controllers/common.go: the calls of librbd that both reconcilers make.
use ceph_provider.Prelude.{
  String, Bool, true, false, not, Option, none, some, List, [], ◌∷◌, str_eq, str_append,
  if◌then◌else◌,
}
use ceph_provider.Errors.{new, wrap, is, rbd_not_found}
use ceph_provider.Exec.{
  Exec, Result, ok, err, pure, fail, catch, deferring, annotate, when, ◌>>=◌, ◌>>◌,
}
use ceph_provider.Api.{Snapshot}
use ceph_provider.External.{Rbd, Registry, WorkQueue, Platform}

abbrev pub image_rbd_id_prefix : String
image_rbd_id_prefix = "img_"

abbrev pub snapshot_rbd_id_prefix : String
snapshot_rbd_id_prefix = "snap_"

abbrev pub image_snapshot_version : String
image_snapshot_version = "v1"

unfoldable pub image_id_to_rbd_id : String → String
image_id_to_rbd_id id = str_append image_rbd_id_prefix id

unfoldable pub snapshot_id_to_rbd_id : String → String
snapshot_id_to_rbd_id id = str_append snapshot_rbd_id_prefix id

-- The rbd image that holds a snapshot, and the name of the snapshot in it.
unfoldable pub get_snapshot_source_details : Snapshot → Result (String × String)
unfolding image_id_to_rbd_id snapshot_id_to_rbd_id
get_snapshot_source_details s =
    if not (str_eq s.source.ironcore_image "")
    then ok (snapshot_id_to_rbd_id s.metadata.id, image_snapshot_version)
    else if not (str_eq s.source.volume_image_id "")
    then ok (image_id_to_rbd_id s.source.volume_image_id, s.metadata.id)
    else err (new "snapshot source is not present")

-- toPlatform: an architecture on linux.
unfoldable pub to_platform : Option String → Option Platform
to_platform none = none
to_platform (some arch) = some (record { architecture = arch; os = "linux" })

module _ {C Io Img : Type 0} (rbd : Rbd C Io Img) where
  -- openImage: the image itself, not one of its snapshots.
  unfoldable pub open_image : Io → String → Exec C Img
  open_image io name =
      catch (rbd.open_image io name none)
        (λ e. if is e rbd_not_found then fail e else fail (wrap "failed to open image" e)) pure

  -- openImage with its deferred closeImage round the rest of the function.
  unfoldable pub with_image : {A : Type 0} → Io → String → (Img → Exec C A) → Exec C A
  unfolding open_image
  with_image io name body = do img ← open_image io name; deferring (rbd.close img) (body img)

  unfoldable pub flatten_image : String → String → Exec C Unit
  unfolding with_image
  flatten_image pool name = do
    io ← annotate "unable to open io context for pool" (rbd.open_io_context pool)
    with_image io name λ img. annotate "failed to flatten cloned image" (rbd.flatten img)

  unfoldable pub create_snapshot : Io → String → String → Exec C Unit
  unfolding with_image
  create_snapshot io snapshot_name image_name = with_image io image_name λ img. do
    annotate "unable to create snapshot" (rbd.create_snapshot img snapshot_name)
    annotate "unable to protect snapshot" (rbd.protect img snapshot_name)
    annotate "failed to set snapshot" (rbd.set_snapshot img snapshot_name)

  unfoldable pub remove_snapshot : Img → String → Exec C Unit
  remove_snapshot img name = do
    is_protected ← annotate "unable to check if snapshot is protected" (rbd.is_protected img name)
    when is_protected (annotate "unable to unprotect snapshot" (rbd.unprotect img name))
    annotate "unable to remove snapshot" (rbd.remove_snapshot img name)

  -- The loop over the children. `pools[i]` is past the end of a shorter list of pools: a panic,
  -- which librbd's two lists of one length exclude.
  unfoldable pub flatten_all : List String → List String → Exec C Unit
  unfolding flatten_image
  flatten_all pools [] = pure tt
  flatten_all [] (name ∷ names) = fail (new "index out of range")
  flatten_all (pool ∷ pools) (name ∷ names) =
      let rest = flatten_all pools names in flatten_image pool name >> rest

  unfoldable pub flatten_child_images : Img → Exec C Unit
  unfolding flatten_all
  flatten_child_images img = do
    (pools, child_imgs) ← annotate "unable to list children" (rbd.list_children img)
    flatten_all pools child_imgs

  -- Whether the snapshot exists, and whether it is protected. A missing image or snapshot is no
  -- error.
  unfoldable pub snapshot_exists_and_protected : Io → String → String → Exec C (Bool × Bool)
  unfolding open_image
  snapshot_exists_and_protected io image_name snapshot_name =
      catch (open_image io image_name)
        (λ e. if is e rbd_not_found then pure (false, false) else fail e)
        λ img. deferring (rbd.close img) (
          catch (rbd.is_protected img snapshot_name)
            (λ e.
              if is e rbd_not_found
              then pure (false, false)
              else fail (wrap "failed to check if snapshot is protected" e))
            (λ is_protected. if is_protected then pure (true, true) else pure (true, false)))

  unfoldable pub protect_snapshot : Io → String → String → Exec C Unit
  unfolding with_image
  protect_snapshot io image_name snapshot_name = with_image io image_name λ img. do
    annotate "unable to protect existing snapshot" (rbd.protect img snapshot_name)
    annotate "failed to set snapshot" (rbd.set_snapshot img snapshot_name)

module _ {C H : Type 0} (registry : Registry C H) where
  unfoldable pub create_os_image_source : Option Platform → Exec C H
  create_os_image_source none = registry.docker_registry
  create_os_image_source (some platform) = registry.docker_registry_with_platform platform

module _ {C : Type 0} (queue : WorkQueue C) where
  -- processNextWorkItem, which is the same text in both reconcilers: whether the worker goes on.
  unfoldable pub process_next_work_item : (String → Exec C Unit) → Exec C Bool
  process_next_work_item reconcile = do
    item ← queue.get
    elim item [
      | none ↦ pure false
      | some id ↦ deferring (queue.finish id) (
          catch (reconcile id) (λ e. do queue.add_rate_limited id; pure true)
            (λ _. do queue.forget id; pure true))
    ]
