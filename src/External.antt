-- ===== src/External.antt =====
-- What the program calls and does not implement: go-ceph (rados, librbd), the event recorder, the
-- container registry, the label helpers and JSON at the types that the reconcilers hand to it.
-- All of it acts on a state `C` of the outside world, and may fail at any call.
use ceph_provider.Prelude.{ℕ, String, Bool, Option, List, Map}
use ceph_provider.Errors.{Error}
use ceph_provider.Exec.{Exec, Result}
use ceph_provider.Api.{Bytes}
use ceph_provider.Api.Meta.{Metadata}

-- ocispec.Platform, with the fields that the program sets.
pub record Platform : Type 0 where
  pub architecture : String
  pub os : String

-- librbd. `Io` is an IO context, `Img` an open image. A snapshot of go-ceph is an open image and a
-- name.
pub record Rbd (C Io Img : Type 0) : Type 0 where
  pub open_io_context : String → Exec C Io
  pub get_image_names : Io → Exec C (List String)
  -- image options with the data pool set
  pub data_pool_options : String → Exec C String
  pub create_image : Io → String → ℕ → String → Exec C Unit
  pub remove_image : Io → String → Exec C Unit
  pub clone_image : Io → String → String → Io → String → String → Exec C Unit
  -- image name, and snapshot name or none for NoSnapshot
  pub open_image : Io → String → Option String → Exec C Img
  pub close : Img → Exec C Unit
  pub get_size : Img → Exec C ℕ
  pub resize : Img → ℕ → Exec C Unit
  pub set_metadata : Img → String → String → Exec C Unit
  pub encryption_format : Img → Bytes → Exec C Unit
  pub flatten : Img → Exec C Unit
  pub get_snapshot_names : Img → Exec C (List String)
  -- pools and image names, side by side
  pub list_children : Img → Exec C (List String × List String)
  pub create_snapshot : Img → String → Exec C Unit
  pub set_snapshot : Img → String → Exec C Unit
  pub is_protected : Img → String → Exec C Bool
  pub protect : Img → String → Exec C Unit
  pub unprotect : Img → String → Exec C Unit
  pub remove_snapshot : Img → String → Exec C Unit
  -- io.Writer: the count of bytes written
  pub write : Img → Bytes → Exec C ℕ
  pub mon_command : String → Exec C String

-- The container registry and the layers of an image. `H` is a handle: an image source, a resolved
-- image or a reader.
pub record Registry (C H : Type 0) : Type 0 where
  pub docker_registry : Exec C H
  pub docker_registry_with_platform : Platform → Exec C H
  pub resolve : H → String → Exec C H
  -- Descriptor().Digest
  pub digest : H → String
  -- reference.Parse, its Locator
  pub parse_locator : String → Result String
  -- ironcoreimage.ResolveImage: its RootFS, none for nil, as a handle and a size (int64)
  pub resolve_root_fs : H → Exec C (Option (H × ℕ))
  pub content : H → Exec C H
  -- The reads from a reader, one after another up to the one that returns io.EOF: each gives the
  -- bytes that it has read and its error, if it has one other than io.EOF.
  pub reads : H → List (Exec C (Bytes × Option Error))
  pub close_reader : H → Exec C Unit

-- workqueue.TypedRateLimitingInterface; Get gives none on shutdown.
pub record WorkQueue (C : Type 0) : Type 0 where
  pub get : Exec C (Option String)
  pub add : String → Exec C Unit
  pub add_rate_limited : String → Exec C Unit
  pub forget : String → Exec C Unit
  pub finish : String → Exec C Unit

-- The two kinds of events, and the recorder's Eventf with the reason of the event.
pub data EventType : Type 0 where
  normal warning : EventType

pub record Recorder (C : Type 0) : Type 0 where
  pub eventf : Metadata → EventType → String → C → C

-- metautils.SetLabel and SetAnnotation
pub record MetaUtils : Type 0 where
  pub set_label : Metadata → String → String → Metadata
  pub set_annotation : Metadata → String → String → Metadata

-- json.Marshal and json.Unmarshal at maps of strings, and at the reply of `auth get-key`.
pub record Json : Type 0 where
  pub marshal : Map String → Result String
  pub unmarshal : String → Result (Map String)
  pub unmarshal_key : String → Result String

-- The Encryptor interface of internal/encryption; Encrypt draws a random initialization vector.
pub record Encryptor (C : Type 0) : Type 0 where
  pub encrypt : Bytes → Exec C Bytes
  pub decrypt : Bytes → Result Bytes

-- GetLabelsAnnotation and GetAnnotationsAnnotation of provider-utils, by metadata and key.
pub record AnnotationUtils : Type 0 where
  pub get_labels_annotation : Metadata → String → Result (Map String)
  pub get_annotations_annotation : Metadata → String → Result (Map String)

-- recorder.Event, with an int64 time.
pub record Event : Type 0 where
  pub involved_object_meta : Metadata
  pub reason : String
  pub message : String
  pub kind : String
  pub event_time : ℕ
