-- ===== src/Classes.antt =====
-- internal/vcr/registry.go and internal/bcr/registry.go: the classes of volumes and of buckets, by
-- name. The two files are the same text at two types: what has no name of its own for buckets is
-- shared.
pub mod Names
mod Examples
use ceph_provider.Prelude.{ℕ, String, Option, none, some, List, [], ◌∷◌, Map, lookup, insert, map}
use ceph_provider.Errors.{new, wrap}
use ceph_provider.Exec.{Exec, Result, ok, err, lift, annotate, deferring, ◌>>=◌}

-- iri.VolumeClass and iri.BucketClass, with int64 capabilities.
pub record Class : Type 0 where
  pub name : String
  pub tps : ℕ
  pub iops : ℕ

-- Vcr and Bcr
abbrev pub Registry : Type 0
Registry = Map Class

-- The loop of New over the classes, on the registry that the classes before have made.
unfoldable pub add_classes : List Class → Registry → Result Registry
add_classes [] registry = ok registry
add_classes (class ∷ classes) registry =
    let rest = add_classes classes (insert class.name class registry) in
    elim (lookup class.name registry) [
      | some other ↦ err (new "multiple classes with same name found")
      | none ↦ rest
    ]

unfoldable pub new_class_registry : List Class → Result Registry
unfolding add_classes
new_class_registry classes = add_classes classes []

unfoldable pub get_class : Registry → String → Option Class
get_class registry name = lookup name registry

unfoldable pub list_classes : Registry → List Class
list_classes registry = map (λ entry. entry.1) registry

-- os.Open with its reader as a handle `F`, the decoder of YAML and JSON, and the close.
pub record ClassFiles (C F : Type 0) : Type 0 where
  pub open_file : String → Exec C F
  pub decode : F → Exec C (List Class)
  pub close : F → Exec C Unit

module _ {C F : Type 0} (files : ClassFiles C F) where
  unfoldable pub load_volume_classes : F → Exec C (List Class)
  load_volume_classes reader = annotate "unable to unmarshal volume classes" (files.decode reader)

  unfoldable pub load_volume_classes_file : String → Exec C (List Class)
  unfolding load_volume_classes
  load_volume_classes_file filename = do
    file ← annotate "unable to open volume class file" (files.open_file filename)
    deferring (files.close file) (load_volume_classes file)

  unfoldable pub load_bucket_classes : F → Exec C (List Class)
  load_bucket_classes reader = annotate "unable to unmarshal bucket classes" (files.decode reader)

  unfoldable pub load_bucket_classes_file : String → Exec C (List Class)
  unfolding load_bucket_classes
  load_bucket_classes_file filename = do
    file ← annotate "unable to open bucket class file" (files.open_file filename)
    deferring (files.close file) (load_bucket_classes file)

-- internal/bcr/registry.go
unfoldable pub new_bucket_class_registry : List Class → Result Registry
unfolding add_classes
new_bucket_class_registry classes = add_classes classes []

unfoldable pub get_bucket_class : Registry → String → Option Class
get_bucket_class registry name = lookup name registry

unfoldable pub list_bucket_classes : Registry → List Class
list_bucket_classes registry = map (λ entry. entry.1) registry
