-- ===== src/Controllers/Still.antt =====
-- An outside world in which every call of librbd and of the registry returns at once and changes
-- nothing, and the invariants that these calls keep.
use ceph_provider.Prelude.{true, Option, none, some, [], if◌then◌else◌}
use ceph_provider.Errors.{Error, sentinel, store_not_found, is}
use ceph_provider.Exec.{ok, pure, fail}
use ceph_provider.Exec.Keeps.{Keeps-pure}
use ceph_provider.Store.{Store}
use ceph_provider.External.{Rbd, Registry, Recorder, Encryptor, Json, MetaUtils}
use ceph_provider.Controllers.Frame.{RbdKeeps, RegistryKeeps}

-- store.IgnoreErrNotFound
abbrev pub ignored : Error → Option Error
ignored e = if is e store_not_found then none else some e

abbrev pub still_json : Json
still_json = record {
  marshal = λ m. ok "";
  unmarshal = λ text. ok [];
  unmarshal_key = λ text. ok text;
}

abbrev pub still_meta : MetaUtils
still_meta = record { set_label = λ m k v. m; set_annotation = λ m k v. m }

module _ {C : Type 0} where
  abbrev pub still_rbd : Rbd C Unit Unit
  still_rbd = record {
    open_io_context = λ pool. pure tt;
    get_image_names = λ io. pure [];
    data_pool_options = λ pool. pure "";
    create_image = λ io name n o. pure tt;
    remove_image = λ io name. pure tt;
    clone_image = λ io a b io2 c o. pure tt;
    open_image = λ io name snap. pure tt;
    close = λ img. pure tt;
    get_size = λ img. pure 0;
    resize = λ img n. pure tt;
    set_metadata = λ img k v. pure tt;
    encryption_format = λ img b. pure tt;
    flatten = λ img. pure tt;
    get_snapshot_names = λ img. pure [];
    list_children = λ img. pure ([], []);
    create_snapshot = λ img name. pure tt;
    set_snapshot = λ img name. pure tt;
    is_protected = λ img name. pure true;
    protect = λ img name. pure tt;
    unprotect = λ img name. pure tt;
    remove_snapshot = λ img name. pure tt;
    write = λ img b. pure 0;
    mon_command = λ cmd. pure "";
  }

  abbrev pub still_registry : Registry C Unit
  still_registry = record {
    docker_registry = pure tt;
    docker_registry_with_platform = λ p. pure tt;
    resolve = λ h name. pure tt;
    digest = λ h. "";
    parse_locator = λ name. ok name;
    resolve_root_fs = λ h. pure none;
    content = λ h. pure tt;
    reads = λ h. [];
    close_reader = λ h. pure tt;
  }

  -- A store that has nothing, and creates and updates by giving the object back.
  abbrev pub still_store : (E : Type 0) → Store C E
  still_store E = record {
    create = λ o. pure o;
    get = λ id. fail (sentinel store_not_found);
    update = λ o. pure o;
    delete = λ id. pure tt;
    list = pure [];
    ignore_not_found = ignored;
  }

  abbrev pub still_recorder : Recorder C
  still_recorder = record { eventf = λ m kind reason c. c }

  abbrev pub still_encryptor : Encryptor C
  still_encryptor = record { encrypt = λ b. pure b; decrypt = λ b. ok b }

  module _ {P : C → Type 0} where
    pub still_rbd-Keeps : RbdKeeps still_rbd P
    still_rbd-Keeps = record {
      open_io_context = λ pool. Keeps-pure tt;
      get_image_names = λ io. Keeps-pure [];
      data_pool_options = λ pool. Keeps-pure "";
      create_image = λ io name n o. Keeps-pure tt;
      remove_image = λ io name. Keeps-pure tt;
      clone_image = λ io a b io2 c o. Keeps-pure tt;
      open_image = λ io name snap. Keeps-pure tt;
      close = λ img. Keeps-pure tt;
      get_size = λ img. Keeps-pure 0;
      resize = λ img n. Keeps-pure tt;
      set_metadata = λ img k v. Keeps-pure tt;
      encryption_format = λ img b. Keeps-pure tt;
      flatten = λ img. Keeps-pure tt;
      get_snapshot_names = λ img. Keeps-pure [];
      list_children = λ img. Keeps-pure ([], []);
      create_snapshot = λ img name. Keeps-pure tt;
      set_snapshot = λ img name. Keeps-pure tt;
      is_protected = λ img name. Keeps-pure true;
      protect = λ img name. Keeps-pure tt;
      unprotect = λ img name. Keeps-pure tt;
      remove_snapshot = λ img name. Keeps-pure tt;
      write = λ img b. Keeps-pure 0;
      mon_command = λ cmd. Keeps-pure "";
    }

    pub still_registry-Keeps : RegistryKeeps still_registry P
    still_registry-Keeps = record {
      docker_registry = Keeps-pure tt;
      docker_registry_with_platform = λ p. Keeps-pure tt;
      resolve = λ h name. Keeps-pure tt;
      resolve_root_fs = λ h. Keeps-pure none;
      content = λ h. Keeps-pure tt;
      reads = λ h. tt;
      close_reader = λ h. Keeps-pure tt;
    }
