-- ===== src/ApiUtils/RoundTrip.antt =====
-- The metadata of a request, written to the annotations of an object and read back.
use ceph_provider.Prelude.{String, some, Map, lookup, ◌≡◌, ap, ◌∙◌, str_eq, arith, if◌then◌else◌}
use ceph_provider.Exec.{ok}
use ceph_provider.Api.{labels_annotation, annotations_annotation}
use ceph_provider.Api.Meta.{Metadata}
use ceph_provider.External.{MetaUtils, Json}
use ceph_provider.ApiUtils.{
  ObjectMetadata, unix_nano, deleted_nano, get_object_metadata_from_object_id,
  set_object_metadata_from_metadata,
}

-- Two maps with the same value at each key: Go's maps have no order.
abbrev pub SameMap : Map String → Map String → Type 0
SameMap x y = (key : String) → lookup key x ≡ lookup key y

-- SetAnnotation changes one annotation and nothing else.
pub record AnnotationLaws (meta : MetaUtils) : Type 0 where
  pub lookup_set :
      (m : Metadata) (k key v : String)
      → lookup key (meta.set_annotation m k v).annotations
        ≡ (if str_eq k key then some v else lookup key m.annotations)
  pub id_set : (m : Metadata) (k v : String) → (meta.set_annotation m k v).id ≡ m.id
  pub generation_set :
      (m : Metadata) (k v : String) → (meta.set_annotation m k v).generation ≡ m.generation
  pub created_set :
      (m : Metadata) (k v : String) → (meta.set_annotation m k v).created_at ≡ m.created_at
  pub deleted_set :
      (m : Metadata) (k v : String) → (meta.set_annotation m k v).deleted_at ≡ m.deleted_at

-- What JSON does with a map of strings: it marshals, and reads back as a map with the same values.
pub record RoundTrips (json : Json) (x : Map String) : Type 0 where
  pub text : String
  pub back : Map String
  pub marshals : json.marshal x ≡ ok text
  pub unmarshals : json.unmarshal text ≡ ok back
  pub same : SameMap x back

-- The metadata that a reader of the object `m` gets for the request `wanted`.
pub record ReadsAs (m : Metadata) (wanted got : ObjectMetadata) (json : Json) : Type 0 where
  pub annotations : SameMap wanted.annotations got.annotations
  pub labels : SameMap wanted.labels got.labels
  pub id : got.id ≡ m.id
  pub generation : got.generation ≡ m.generation
  pub created_at : got.created_at ≡ unix_nano m.created_at
  pub deleted_at : got.deleted_at ≡ deleted_nano json m.deleted_at

module _ (json : Json) (meta : MetaUtils) (laws : AnnotationLaws meta) where
  abbrev annotated : Metadata → String → String → Metadata
  annotated m a l =
      meta.set_annotation (meta.set_annotation m annotations_annotation a) labels_annotation l

  reads_annotations :
      (m : Metadata) (a l : String)
      → lookup annotations_annotation (annotated m a l).annotations ≡ some a
  reads_annotations m a l =
      laws.lookup_set _ labels_annotation annotations_annotation l
      ∙ laws.lookup_set m annotations_annotation annotations_annotation a

  reads_labels :
      (m : Metadata) (a l : String)
      → lookup labels_annotation (annotated m a l).annotations ≡ some l
  reads_labels m a l = laws.lookup_set _ labels_annotation labels_annotation l

  written :
      (m : Metadata) (wanted : ObjectMetadata) (a l : String)
      → json.marshal wanted.annotations ≡ ok a
      → json.marshal wanted.labels ≡ ok l
      → set_object_metadata_from_metadata json meta m wanted ≡ ok (annotated m a l)
  unfolding set_object_metadata_from_metadata
  written m wanted a l ma ml = ground arith

  read_back :
      (m : Metadata) (a l : String) (annotations labels : Map String)
      → lookup annotations_annotation m.annotations ≡ some a
      → lookup labels_annotation m.annotations ≡ some l
      → json.unmarshal a ≡ ok annotations
      → json.unmarshal l ≡ ok labels
      → get_object_metadata_from_object_id json m
        ≡ ok (record {
          id = m.id;
          annotations = annotations;
          labels = labels;
          generation = m.generation;
          created_at = unix_nano m.created_at;
          deleted_at = deleted_nano json m.deleted_at;
        })
  unfolding get_object_metadata_from_object_id
  read_back m a l annotations labels ra rl ua ul = ground arith

  -- The metadata of a request is always written to an object, and is read back from it: the same
  -- labels and annotations, beside the id, the generation and the times of the object; where JSON
  -- gives the two maps back.
  pub get_object_metadata-set :
      (m : Metadata) (wanted : ObjectMetadata)
      → RoundTrips json wanted.annotations
      → RoundTrips json wanted.labels
      → (m' : Metadata) × (got : ObjectMetadata) × (set_object_metadata_from_metadata json meta m
            wanted
          ≡ ok m')
        × (get_object_metadata_from_object_id json m' ≡ ok got)
        × ReadsAs m wanted got json
  get_object_metadata-set m wanted x y =
      let m' = annotated m x.text y.text in
      (
        m',
        record {
          id = m'.id;
          annotations = x.back;
          labels = y.back;
          generation = m'.generation;
          created_at = unix_nano m'.created_at;
          deleted_at = deleted_nano json m'.deleted_at;
        },
        written m wanted x.text y.text x.marshals y.marshals,
        read_back m' x.text y.text x.back y.back (reads_annotations m x.text y.text)
            (reads_labels m x.text y.text) x.unmarshals y.unmarshals,
        record {
          annotations = x.same;
          labels = y.same;
          id = laws.id_set _ _ _ ∙ laws.id_set _ _ _;
          generation = laws.generation_set _ _ _ ∙ laws.generation_set _ _ _;
          created_at = ap unix_nano (laws.created_set _ _ _ ∙ laws.created_set _ _ _);
          deleted_at = ap (deleted_nano json) (laws.deleted_set _ _ _ ∙ laws.deleted_set _ _ _);
        },
      )
