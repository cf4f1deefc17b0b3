-- ===== src/Controllers/Frame.antt =====
-- Invariants of the outside world that single calls keep, and the functions of common.go that are
-- made of these calls.
use ceph_provider.Prelude.{ℕ, String, Option, List, [], ◌∷◌}
use ceph_provider.Exec.{Exec}
use ceph_provider.Exec.Keeps.{Keeps, Keeps-catch, Keeps-fail, keeps_rules}
use ceph_provider.Api.{Bytes}
use ceph_provider.External.{Rbd, Registry, Platform}
use ceph_provider.Controllers.Common.{
  open_image, with_image, flatten_image, create_snapshot, remove_snapshot, flatten_all,
  flatten_child_images, snapshot_exists_and_protected, protect_snapshot,
}

-- Every call of librbd keeps `P`.
pub record RbdKeeps {C Io Img : Type 0} (rbd : Rbd C Io Img) (P : C → Type 0) : Type 0 where
  pub open_io_context : (pool : String) → Keeps P (rbd.open_io_context pool)
  pub get_image_names : (io : Io) → Keeps P (rbd.get_image_names io)
  pub data_pool_options : (pool : String) → Keeps P (rbd.data_pool_options pool)
  pub create_image :
      (io : Io) (name : String) (n : ℕ) (o : String) → Keeps P (rbd.create_image io name n o)
  pub remove_image : (io : Io) (name : String) → Keeps P (rbd.remove_image io name)
  pub clone_image :
      (io : Io) (a b : String) (io2 : Io) (c o : String) → Keeps P (rbd.clone_image io a b io2 c o)
  pub open_image :
      (io : Io) (name : String) (snap : Option String) → Keeps P (rbd.open_image io name snap)
  pub close : (img : Img) → Keeps P (rbd.close img)
  pub get_size : (img : Img) → Keeps P (rbd.get_size img)
  pub resize : (img : Img) (n : ℕ) → Keeps P (rbd.resize img n)
  pub set_metadata : (img : Img) (k v : String) → Keeps P (rbd.set_metadata img k v)
  pub encryption_format : (img : Img) (b : Bytes) → Keeps P (rbd.encryption_format img b)
  pub flatten : (img : Img) → Keeps P (rbd.flatten img)
  pub get_snapshot_names : (img : Img) → Keeps P (rbd.get_snapshot_names img)
  pub list_children : (img : Img) → Keeps P (rbd.list_children img)
  pub create_snapshot : (img : Img) (name : String) → Keeps P (rbd.create_snapshot img name)
  pub set_snapshot : (img : Img) (name : String) → Keeps P (rbd.set_snapshot img name)
  pub is_protected : (img : Img) (name : String) → Keeps P (rbd.is_protected img name)
  pub protect : (img : Img) (name : String) → Keeps P (rbd.protect img name)
  pub unprotect : (img : Img) (name : String) → Keeps P (rbd.unprotect img name)
  pub remove_snapshot : (img : Img) (name : String) → Keeps P (rbd.remove_snapshot img name)
  pub write : (img : Img) (b : Bytes) → Keeps P (rbd.write img b)
  pub mon_command : (cmd : String) → Keeps P (rbd.mon_command cmd)

-- Every call of a list keeps `P`.
abbrev pub AllKeep : {C A : Type 0} → (C → Type 0) → List (Exec C A) → Type 0
AllKeep P [] = Unit {0}
AllKeep P (m ∷ ms) = Keeps P m × AllKeep P ms

-- Every call of the registry keeps `P`.
pub record RegistryKeeps {C H : Type 0} (registry : Registry C H) (P : C → Type 0) : Type 0 where
  pub docker_registry : Keeps P registry.docker_registry
  pub docker_registry_with_platform :
      (p : Platform) → Keeps P (registry.docker_registry_with_platform p)
  pub resolve : (h : H) (name : String) → Keeps P (registry.resolve h name)
  pub resolve_root_fs : (h : H) → Keeps P (registry.resolve_root_fs h)
  pub content : (h : H) → Keeps P (registry.content h)
  pub reads : (h : H) → AllKeep P (registry.reads h)
  pub close_reader : (h : H) → Keeps P (registry.close_reader h)

module _ {C Io Img : Type 0} (rbd : Rbd C Io Img) {P : C → Type 0} (k : RbdKeeps rbd P) where
  pub open_image-Keeps : (io : Io) (name : String) → Keeps P (open_image rbd io name)
  unfolding open_image
  open_image-Keeps io name = search (keeps_rules, k.open_image)

  pub with_image-Keeps :
      {A : Type 0} (io : Io) (name : String) (body : Img → Exec C A)
      → ((img : Img) → Keeps P (body img))
      → Keeps P (with_image rbd io name body)
  unfolding with_image
  with_image-Keeps io name body kb = search (keeps_rules, open_image-Keeps, k.close) depth 8

  pub flatten_image-Keeps : (pool name : String) → Keeps P (flatten_image rbd pool name)
  unfolding flatten_image
  flatten_image-Keeps pool name =
      search (keeps_rules, with_image-Keeps, k.open_io_context, k.flatten) depth 8

  pub create_snapshot-Keeps : (io : Io) (s i : String) → Keeps P (create_snapshot rbd io s i)
  unfolding create_snapshot
  create_snapshot-Keeps io s i =
      search (keeps_rules, with_image-Keeps, k.create_snapshot, k.protect, k.set_snapshot) depth 10

  pub remove_snapshot-Keeps : (img : Img) (name : String) → Keeps P (remove_snapshot rbd img name)
  unfolding remove_snapshot
  remove_snapshot-Keeps img name =
      search (keeps_rules, k.is_protected, k.unprotect, k.remove_snapshot) depth 10

  flatten_all-Keeps : (pools names : List String) → Keeps P (flatten_all rbd pools names)
  unfolding flatten_all
  flatten_all-Keeps pools [] = search keeps_rules
  flatten_all-Keeps [] (name ∷ names) = search keeps_rules
  flatten_all-Keeps (pool ∷ pools) (name ∷ names) =
      Keeps-catch _ _ _ (flatten_image-Keeps pool name) (λ e. Keeps-fail e)
        (λ _. flatten_all-Keeps pools names)

  pub flatten_child_images-Keeps : (img : Img) → Keeps P (flatten_child_images rbd img)
  unfolding flatten_child_images
  flatten_child_images-Keeps img = search (keeps_rules, k.list_children, flatten_all-Keeps) depth 8

  pub snapshot_exists_and_protected-Keeps :
      (io : Io) (i s : String) → Keeps P (snapshot_exists_and_protected rbd io i s)
  unfolding snapshot_exists_and_protected
  snapshot_exists_and_protected-Keeps io i s =
      search (keeps_rules, open_image-Keeps, k.close, k.is_protected) depth 10

  pub protect_snapshot-Keeps : (io : Io) (i s : String) → Keeps P (protect_snapshot rbd io i s)
  unfolding protect_snapshot
  protect_snapshot-Keeps io i s =
      search (keeps_rules, with_image-Keeps, k.protect, k.set_snapshot) depth 10
