-- ===== src/ApiUtils/Examples.antt =====
-- The metadata of a request with one label, over a JSON that knows the maps of the request.
use ceph_provider.Prelude.{
  String, [], ◌∷◌, Map, insert, lookup-insert, ◌≡◌, refl, str_eq, if◌then◌else◌,
}
use ceph_provider.Exec.{ok}
use ceph_provider.Api.Meta.{Metadata, with_id}
use ceph_provider.External.{MetaUtils, Json}
use ceph_provider.ApiUtils.{
  ObjectMetadata, get_object_metadata_from_object_id, set_object_metadata_from_metadata,
}
use ceph_provider.ApiUtils.RoundTrip.{AnnotationLaws, RoundTrips, ReadsAs, get_object_metadata-set}

abbrev entries : Map String
entries = ("app", "db") ∷ []

abbrev text_of : Map String → String
text_of [] = "{}"
text_of (entry ∷ rest) = "{\"app\":\"db\"}"

abbrev json : Json
json = record {
  marshal = λ m. ok (text_of m);
  unmarshal = λ text. ok (if str_eq text "{}" then [] else entries);
  unmarshal_key = λ text. ok text;
}

abbrev meta : MetaUtils
meta = record {
  set_label = λ m k v. record m { labels = insert k v m.labels };
  set_annotation = λ m k v. record m { annotations = insert k v m.annotations };
}

annotation_laws : AnnotationLaws meta
annotation_laws = record {
  lookup_set = λ m k key v. lookup-insert k key v m.annotations;
  id_set = λ m k v. refl;
  generation_set = λ m k v. refl;
  created_set = λ m k v. refl;
  deleted_set = λ m k v. refl;
}

abbrev wanted : ObjectMetadata
wanted = record {
  id = "";
  annotations = [];
  labels = entries;
  generation = 0;
  created_at = 0;
  deleted_at = 0;
}

no_annotations : RoundTrips json []
no_annotations = record {
  text = "{}";
  back = [];
  marshals = refl;
  unmarshals = refl;
  same = λ key. refl;
}

one_label : RoundTrips json entries
one_label = record {
  text = "{\"app\":\"db\"}";
  back = entries;
  marshals = refl;
  unmarshals = refl;
  same = λ key. refl;
}

get_object_metadata-set_example :
    (m' : Metadata) × (got : ObjectMetadata) × (set_object_metadata_from_metadata json meta
        (with_id "a")
        wanted
      ≡ ok m')
    × (get_object_metadata_from_object_id json m' ≡ ok got)
    × ReadsAs (with_id "a") wanted got json
get_object_metadata-set_example =
    get_object_metadata-set json meta annotation_laws (with_id "a") wanted no_annotations one_label
