-- ===== src/Omap/Calls.antt =====
-- The calls of the store of internal/omap/omap.go: Create, Delete, Get, Update and List.
use ceph_provider.Prelude.{
  String, Bool, true, false, not, Option, none, some, List, [], ◌∷◌, ◌==◌, length, Map,
  if◌then◌else◌,
}
use ceph_provider.Errors.{
  Error, sentinel, wrap, is, store_not_found, already_exists, resource_version_not_latest,
  rados_not_found,
}
use ceph_provider.Exec.{Exec, Result, ok, err, pure, fail, lift, catch, annotate, ◌>>=◌, ◌>>◌}
use ceph_provider.Api.{Bytes}
use ceph_provider.Store.{Store}
use ceph_provider.Omap.{
  OmapStore, State, created, updated, deleted, enqueue, on_world, open_pool, get_object,
  delete_object, set_object,
}

module _ {C Io E : Type 0} (st : OmapStore C Io E) where
  open st use {rados, object, codec, omap_name}

  unfoldable pub prepare_for_create : E → Exec C E
  prepare_for_create obj = elim st.create_strategy [ none ↦ pure obj | some prepare ↦ prepare obj ]

  -- Create after its get, which has returned an object or an error.
  unfoldable pub create_after : E → Io → Result E → Exec C E
  unfolding prepare_for_create set_object
  create_after obj io (ok found) = fail (wrap "object with id" (sentinel already_exists))
  create_after obj io (err e) =
      if is e store_not_found
      then (do
        prepared ← prepare_for_create obj
        now ← st.now
        set_object st io (object.increment_resource_version (object.set_created_at now prepared)))
      else fail (wrap "failed to get object" e)

  unfoldable pub create_object : E → Exec C E
  unfolding open_pool get_object create_after
  create_object obj = do
    io ← open_pool st
    catch (get_object st io (object.get_id obj)) (λ e. create_after obj io (err e))
        (λ found. create_after obj io (ok found))

  unfoldable pub create : E → Exec (State C E) E
  unfolding create_object enqueue on_world
  create obj = do
    obj' ← on_world (create_object obj)
    enqueue (record { kind = created; object = obj' })
    pure obj'

  -- Delete after its get: the object that it has marked, or none where it has removed the object or
  -- has found it marked.
  unfoldable pub delete_found : String → Io → E → Exec C (Option E)
  unfolding delete_object set_object
  delete_found id io obj =
      if length (object.get_finalizers obj) == 0
      then (do delete_object st io id; pure none)
      else elim (object.get_deleted_at obj) [
        | some t ↦ pure none
        | none ↦ do
          now ← st.now
          marked ← annotate "failed to set object metadata" (
              set_object st io
                (object.increment_resource_version (object.set_deleted_at (some now) obj)))
          pure (some marked)
      ]

  unfoldable pub delete_or_mark : String → Exec C (Option E)
  unfolding open_pool get_object delete_found
  delete_or_mark id = do io ← open_pool st; obj ← get_object st io id; delete_found id io obj

  unfoldable pub delete : String → Exec (State C E) Unit
  unfolding delete_or_mark enqueue on_world
  delete id = do
    marked ← on_world (delete_or_mark id)
    elim marked [ none ↦ pure tt | some obj ↦ enqueue (record { kind = deleted; object = obj }) ]

  unfoldable pub get : String → Exec C E
  unfolding open_pool get_object
  get id = do io ← open_pool st; get_object st io id

  unfoldable pub is_released : E → Bool
  is_released obj = elim (object.get_deleted_at obj) [
    | none ↦ false
    | some t ↦ length (object.get_finalizers obj) == 0
  ]

  -- Update after its get: the object, and whether it has been written (and not removed).
  unfoldable pub update_found : E → Io → E → Exec C (E × Bool)
  unfolding is_released delete_object set_object
  update_found obj io old_obj =
      if is_released obj
      then (do
        annotate "failed to delete object metadata" (delete_object st io (object.get_id obj))
        pure (obj, false))
      else if not (object.get_resource_version old_obj == object.get_resource_version obj)
      then fail (wrap "failed to update object" (sentinel resource_version_not_latest))
      else (do obj' ← set_object st io (object.increment_resource_version obj); pure (obj', true))

  unfoldable pub update_object : E → Exec C (E × Bool)
  unfolding open_pool get_object update_found
  update_object obj = do
    io ← open_pool st
    old_obj ← get_object st io (object.get_id obj)
    update_found obj io old_obj

  unfoldable pub update : E → Exec (State C E) E
  unfolding update_object enqueue on_world
  update obj = do
    (obj', written) ← on_world (update_object obj)
    if written
        then (do enqueue (record { kind = updated; object = obj' }); pure obj')
        else pure obj'

  unfoldable pub unmarshal_all : Map Bytes → Result (List E)
  unmarshal_all [] = ok []
  unmarshal_all ((id, text) ∷ omap) =
      let rest = unmarshal_all omap in
      elim (codec.unmarshal text) [
        | err e ↦ err (wrap "failed to unmarshal object" e)
        | ok obj ↦ elim rest [ err e ↦ err e | ok objs ↦ ok (obj ∷ objs) ]
      ]

  unfoldable pub list : Exec C (List E)
  unfolding open_pool unmarshal_all
  list = do
    io ← open_pool st
    catch (rados.get_all_omap_values io omap_name "" "")
        (λ e. if is e rados_not_found then pure [] else fail e) (λ omap. lift (unmarshal_all omap))

  -- The store that the servers and the reconcilers hold.
  unfoldable pub store : (Error → Option Error) → Store (State C E) E
  unfolding create get update delete list on_world
  store ignore_not_found = record {
    create = create;
    get = λ id. on_world (get id);
    update = update;
    delete = delete;
    list = on_world list;
    ignore_not_found = ignore_not_found;
  }
