-- ===== src/Api/Meta.antt =====
-- The metadata that every object embeds (the fields of apiutils.Metadata that the program reads
-- and writes). A time is its distance from Go's zero time, in nanoseconds.
use ceph_provider.Prelude.{ℕ, String, Option, none, List, [], Map}

pub record Metadata : Type 0 where
  pub id : String
  pub annotations : Map String
  pub labels : Map String
  pub created_at : ℕ
  pub deleted_at : Option ℕ
  pub generation : ℕ
  pub resource_version : ℕ
  pub finalizers : List String

-- apiutils.Metadata{ID: id}
abbrev pub with_id : String → Metadata
with_id id = record {
  id = id;
  annotations = [];
  labels = [];
  created_at = 0;
  deleted_at = none;
  generation = 0;
  resource_version = 0;
  finalizers = [];
}
