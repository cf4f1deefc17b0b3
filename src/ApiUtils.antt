-- ===== src/ApiUtils.antt =====
-- api/utils.go: the functions on the metadata of stored objects.
pub mod Kubernetes
pub mod RoundTrip
mod Examples
use ceph_provider.Prelude.{
  ℕ, ◌+◌, ◌-◌, ◌*◌, ◌%◌, ◌^◌, String, Bool, false, Option, none, some, Map, lookup, str_eq, ◌==◌,
  if◌then◌else◌,
}
use ceph_provider.Prelude.Words.{two_64}
use ceph_provider.Errors.{new, wrap}
use ceph_provider.Exec.{Result, ok, err}
use ceph_provider.Api.{labels_annotation, annotations_annotation, class_label, manager_label}
use ceph_provider.Api.Meta.{Metadata}
use ceph_provider.External.{MetaUtils, Json, AnnotationUtils}

-- irimeta.ObjectMetadata, with the fields that the program sets.
pub record ObjectMetadata : Type 0 where
  pub id : String
  pub annotations : Map String
  pub labels : Map String
  pub generation : ℕ
  pub created_at : ℕ
  pub deleted_at : ℕ

-- The time of Go's zero time to that of Unix, in nanoseconds.
abbrev pub unix_epoch : ℕ
unix_epoch = 62135596800 * 10 ^ 9

-- Time.UnixNano, an int64
unfoldable pub unix_nano : ℕ → ℕ
unix_nano t = (t + (two_64 - unix_epoch % two_64)) % two_64

-- Over the getters of provider-utils. A deletion time that is set is converted, also Go's zero time.
unfoldable pub get_object_metadata : AnnotationUtils → Metadata → Result ObjectMetadata
get_object_metadata utils m = elim (utils.get_annotations_annotation m annotations_annotation) [
  | err e ↦ err e
  | ok annotations ↦ elim (utils.get_labels_annotation m labels_annotation) [
    | err e ↦ err e
    | ok labels ↦ ok (record {
      id = m.id;
      annotations = annotations;
      labels = labels;
      generation = m.generation;
      created_at = unix_nano m.created_at;
      deleted_at = elim m.deleted_at [ none ↦ 0 | some t ↦ unix_nano t ];
    })
  ]
]

module _ (json : Json) where
  -- The annotation at a key, and the map that it is the JSON of.
  unfoldable pub read_annotation : Metadata → String → Result (Map String)
  read_annotation m key = elim (lookup key m.annotations) [
    | none ↦ err (new "object has no annotation")
    | some text ↦ json.unmarshal text
  ]

  unfoldable pub get_annotations_annotation_for_metadata : Metadata → Result (Map String)
  unfolding read_annotation
  get_annotations_annotation_for_metadata m = read_annotation m annotations_annotation

  unfoldable pub get_labels_annotation_for_metadata : Metadata → Result (Map String)
  unfolding read_annotation
  get_labels_annotation_for_metadata m = read_annotation m labels_annotation

  -- A deletion time that is absent or zero is zero here.
  abbrev pub deleted_nano : Option ℕ → ℕ
  deleted_nano none = 0
  deleted_nano (some t) = if t == 0 then 0 else unix_nano t

  unfoldable pub get_object_metadata_from_object_id : Metadata → Result ObjectMetadata
  unfolding get_annotations_annotation_for_metadata get_labels_annotation_for_metadata
  get_object_metadata_from_object_id m = elim (get_annotations_annotation_for_metadata m) [
    | err e ↦ err e
    | ok annotations ↦ elim (get_labels_annotation_for_metadata m) [
      | err e ↦ err e
      | ok labels ↦ ok (record {
        id = m.id;
        annotations = annotations;
        labels = labels;
        generation = m.generation;
        created_at = unix_nano m.created_at;
        deleted_at = deleted_nano m.deleted_at;
      })
    ]
  ]

  module _ (meta : MetaUtils) where
    unfoldable pub set_labels_annotation_for_object : Metadata → Map String → Result Metadata
    set_labels_annotation_for_object m labels = elim (json.marshal labels) [
      | err e ↦ err (wrap "error marshalling labels" e)
      | ok text ↦ ok (meta.set_annotation m labels_annotation text)
    ]

    unfoldable pub set_annotations_annotation_for_object : Metadata → Map String → Result Metadata
    set_annotations_annotation_for_object m annotations = elim (json.marshal annotations) [
      | err e ↦ err (wrap "error marshalling annotations" e)
      | ok text ↦ ok (meta.set_annotation m annotations_annotation text)
    ]

    unfoldable pub set_object_metadata_from_metadata : Metadata → ObjectMetadata → Result Metadata
    unfolding set_annotations_annotation_for_object set_labels_annotation_for_object
    set_object_metadata_from_metadata m metadata =
        elim (set_annotations_annotation_for_object m metadata.annotations) [
          | err e ↦ err e
          | ok m' ↦ set_labels_annotation_for_object m' metadata.labels
        ]

unfoldable pub get_class_label_from_object : Metadata → Option String
get_class_label_from_object m = lookup class_label m.labels

unfoldable pub set_class_label_for_object : MetaUtils → Metadata → String → Metadata
set_class_label_for_object meta m class = meta.set_label m class_label class

unfoldable pub set_manager_label : MetaUtils → Metadata → String → Metadata
set_manager_label meta m manager = meta.set_label m manager_label manager

unfoldable pub is_object_managed_by : Metadata → String → Bool
is_object_managed_by m manager = elim (lookup manager_label m.labels) [
  | none ↦ false
  | some actual ↦ str_eq actual manager
]
