-- ===== src/BucketServer/Start.antt =====
-- New of internal/bucketserver/server.go.
use ceph_provider.Prelude.{String, Bool, Option, none, some, Map, str_eq, if◌then◌else◌}
use ceph_provider.Errors.{wrap}
use ceph_provider.Exec.{Exec, Result, ok, err}
use ceph_provider.External.{Json, MetaUtils}
use ceph_provider.BucketServer.{Server, Kube, Phases}

-- An id generator that is nil is none.
pub record Options (C : Type 0) : Type 0 where
  pub id_gen : Option (Exec C String)
  pub namespace : String
  pub bucket_endpoint : String
  pub bucket_pool_storage_class_name : String

-- corev1.NamespaceDefault
abbrev pub namespace_default : String
namespace_default = "default"

module _ {C : Type 0} where
  unfoldable pub set_options_defaults : Exec C String → Options C → Options C
  set_options_defaults default_gen o = record o {
    namespace = if str_eq o.namespace "" then namespace_default else o.namespace;
    id_gen = elim o.id_gen [ none ↦ some default_gen | some generate ↦ some generate ];
  }

  abbrev pub gen_or : Exec C String → Option (Exec C String) → Exec C String
  gen_or default_gen none = default_gen
  gen_or default_gen (some generate) = generate

  -- Over client.New, which gives the client of a namespace.
  unfoldable pub new_server :
      Exec C String
      → Json
      → MetaUtils
      → (Map String → Map String → Bool)
      → Phases
      → (String → Result (Kube C))
      → Options C
      → Result (Server C)
  unfolding set_options_defaults
  new_server default_gen json meta matches phases new_client given =
      let opts = set_options_defaults default_gen given in
      elim (new_client opts.namespace) [
        | err e ↦ err (wrap "error creating client" e)
        | ok client ↦ ok (record {
          generate = gen_or default_gen opts.id_gen;
          client = client;
          phases = phases;
          bucket_endpoint = opts.bucket_endpoint;
          bucket_pool_storage_class_name = opts.bucket_pool_storage_class_name;
          json = json;
          meta = meta;
          matches = matches;
        })
      ]
