-- ===== src/ApiUtils/Kubernetes.antt =====
-- api/utils.go: the functions on Kubernetes objects. The metadata of such an object has its name as
-- the id, and an absent time of deletion for one that is nil or zero.
use ceph_provider.Prelude.{String, Bool, false, Option, none, some, Map, lookup, str_eq}
use ceph_provider.Errors.{new, wrap}
use ceph_provider.Exec.{Result, ok, err}
use ceph_provider.Api.{labels_annotation, annotations_annotation, class_label, manager_label}
use ceph_provider.Api.Meta.{Metadata}
use ceph_provider.External.{MetaUtils, Json}
use ceph_provider.ApiUtils.{ObjectMetadata, unix_nano, deleted_nano}

module _ (json : Json) where
  unfoldable pub get_labels_annotation : Metadata → Result (Map String)
  get_labels_annotation o = elim (lookup labels_annotation o.annotations) [
    | none ↦ err (new "object has no labels")
    | some text ↦ json.unmarshal text
  ]

  unfoldable pub get_annotations_annotation : Metadata → Result (Map String)
  get_annotations_annotation o = elim (lookup annotations_annotation o.annotations) [
    | none ↦ err (new "object has no annotations")
    | some text ↦ json.unmarshal text
  ]

  unfoldable pub get_object_metadata_from_k8s : Metadata → Result ObjectMetadata
  unfolding get_labels_annotation get_annotations_annotation
  get_object_metadata_from_k8s o = elim (get_annotations_annotation o) [
    | err e ↦ err e
    | ok annotations ↦ elim (get_labels_annotation o) [
      | err e ↦ err e
      | ok labels ↦ ok (record {
        id = o.id;
        annotations = annotations;
        labels = labels;
        generation = o.generation;
        created_at = unix_nano o.created_at;
        deleted_at = deleted_nano json o.deleted_at;
      })
    ]
  ]

  module _ (meta : MetaUtils) where
    unfoldable pub set_labels_annotation : Metadata → Map String → Result Metadata
    set_labels_annotation o labels = elim (json.marshal labels) [
      | err e ↦ err (wrap "error marshalling labels" e)
      | ok text ↦ ok (meta.set_annotation o labels_annotation text)
    ]

    unfoldable pub set_annotations_annotation : Metadata → Map String → Result Metadata
    set_annotations_annotation o annotations = elim (json.marshal annotations) [
      | err e ↦ err (wrap "error marshalling annotations" e)
      | ok text ↦ ok (meta.set_annotation o annotations_annotation text)
    ]

    unfoldable pub set_object_metadata : Metadata → ObjectMetadata → Result Metadata
    unfolding set_annotations_annotation set_labels_annotation
    set_object_metadata o metadata = elim (set_annotations_annotation o metadata.annotations) [
      | err e ↦ err e
      | ok o' ↦ set_labels_annotation o' metadata.labels
    ]

unfoldable pub set_class_label : MetaUtils → Metadata → String → Metadata
set_class_label meta o class = meta.set_label o class_label class

unfoldable pub get_class_label : Metadata → Option String
get_class_label o = lookup class_label o.labels

unfoldable pub set_bucket_manager_label : MetaUtils → Metadata → String → Metadata
set_bucket_manager_label meta bucket manager = meta.set_label bucket manager_label manager

unfoldable pub is_managed_by : Metadata → String → Bool
is_managed_by o manager = elim (lookup manager_label o.labels) [
  | none ↦ false
  | some actual ↦ str_eq actual manager
]
