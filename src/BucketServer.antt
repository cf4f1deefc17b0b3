-- ===== src/BucketServer.antt =====
-- internal/bucketserver: the requests of the bucket runtime interface (IRI) against the object bucket
-- claims of a Kubernetes namespace. The metadata of a claim is that of `Api.Meta`, with the name as
-- its id.

pub mod Lists
pub mod Classes
pub mod Start
pub mod Managed
mod Examples
use ceph_provider.Prelude.{
  ℕ, String, Bool, not, Option, none, some, List, [], ◌∷◌, Map, str_eq, str_append, ◌||◌,
  if◌then◌else◌,
}
use ceph_provider.Errors.{
  new, wrap, is, sentinel, api_not_found, bucket_not_found, bucket_isnt_managed,
  convert_internal_error_to_grpc,
}
use ceph_provider.Exec.{Exec, Result, ok, err, pure, fail, lift, catch, annotate, ◌>>=◌}
use ceph_provider.Api.{Bytes, bucket_manager, manager_label}
use ceph_provider.Api.Meta.{Metadata, with_id}
use ceph_provider.ApiUtils.{ObjectMetadata}
use ceph_provider.ApiUtils.Kubernetes.{
  get_object_metadata_from_k8s, set_object_metadata, get_class_label, set_class_label,
  set_bucket_manager_label, is_managed_by,
}
use ceph_provider.External.{Json, MetaUtils}
use ceph_provider.VolumeServer.Lists.{Filter}

-- objectbucketv1alpha1.ObjectBucketClaim and corev1.Secret, with the fields that the server uses.
pub record Claim : Type 0 where
  pub metadata : Metadata
  pub storage_class_name : String
  pub generate_bucket_name : String
  pub bucket_name : String
  pub phase : String

pub record Secret : Type 0 where
  pub name : String
  pub content : Map Bytes

-- The phases of a claim.
pub record Phases : Type 0 where
  pub pending : String
  pub bound : String
  pub failed : String
  pub released : String

-- The client of Kubernetes in the server's namespace, what its scheme knows of claims, and the getter
-- of a listed secret by its name.
pub record Kube (C : Type 0) : Type 0 where
  pub create : Claim → Exec C Claim
  pub get_claim : String → Exec C Claim
  pub get_secret : String → Exec C Secret
  pub delete : Claim → Exec C Unit
  pub list_claims : Map String → Exec C (List Claim)
  pub list_secrets : Exec C (List Secret)
  pub gvk : Result (Unit {0})
  pub object_getter : List Secret → Result (String → Result Secret)

pub record Server (C : Type 0) : Type 0 where
  pub generate : Exec C String
  pub client : Kube C
  pub phases : Phases
  pub bucket_endpoint : String
  pub bucket_pool_storage_class_name : String
  pub json : Json
  pub meta : MetaUtils
  pub matches : Map String → Map String → Bool

pub data BucketState : Type 0 where
  bucket_pending bucket_available bucket_error : BucketState

pub record BucketAccess : Type 0 where
  pub endpoint : String
  pub secret_data : Map Bytes

pub record Bucket : Type 0 where
  pub metadata : ObjectMetadata
  pub class : String
  pub state : BucketState
  pub access : Option BucketAccess

module _ {C : Type 0} (s : Server C) where
  unfoldable pub convert_bucket_claim_state : String → Result BucketState
  convert_bucket_claim_state state =
      if str_eq state ""
      then ok bucket_pending
      else if str_eq state s.phases.pending
      then ok bucket_pending
      else if str_eq state s.phases.bound
      then ok bucket_available
      else if str_eq state s.phases.failed
      then ok bucket_error
      else if str_eq state s.phases.released
      then ok bucket_pending
      else err (new "unknown bucket state")

  unfoldable pub convert_access_secret : Claim → Option Secret → Result (Option BucketAccess)
  convert_access_secret claim secret =
      if not (str_eq claim.phase s.phases.bound) then ok none else elim secret [
        | none ↦ err (new "access secret not contained in aggregate bucket")
        | some found ↦ ok (
            some (record {
              endpoint = str_append claim.bucket_name (str_append "." s.bucket_endpoint);
              secret_data = found.content;
            }))
      ]

  unfoldable pub convert_bucket : Claim → Option Secret → Result Bucket
  unfolding convert_bucket_claim_state convert_access_secret get_object_metadata_from_k8s
      get_class_label
  convert_bucket claim secret = elim (get_object_metadata_from_k8s s.json claim.metadata) [
    | err e ↦ err (wrap "failed to get bucket claim object metadata" e)
    | ok metadata ↦ elim (convert_bucket_claim_state claim.phase) [
      | err e ↦ err (wrap "failed to convert bucket claim state to bucket state" e)
      | ok state ↦ elim (get_class_label claim.metadata) [
        | none ↦ err (new "failed to get bucket class")
        | some class ↦ elim (convert_access_secret claim secret) [
          | err e ↦ err (wrap "failed to convert access secret to bucket access" e)
          | ok access ↦
              ok (record { metadata = metadata; class = class; state = state; access = access })
        ]
      ]
    ]
  ]

  -- A claim that another manager owns is not found.
  unfoldable pub get_managed_and_created : String → Exec C Claim
  unfolding is_managed_by
  get_managed_and_created name = do
    claim ← s.client.get_claim name
    if not (is_managed_by claim.metadata bucket_manager)
        then elim s.client.gvk [ err e ↦ fail e | ok u ↦ fail (sentinel api_not_found) ]
        else pure claim

  unfoldable pub get_bucket_claim_for_id : String → Exec C Claim
  unfolding get_managed_and_created
  get_bucket_claim_for_id id =
      catch (get_managed_and_created id)
        (λ e.
          if is e api_not_found
          then fail (wrap "failed to get bucket" (sentinel bucket_isnt_managed))
          else fail (wrap "error getting bucket claim" e))
        pure

  unfoldable pub get_bucket_access_secret_if_required :
      Claim → (String → Exec C Secret) → Exec C (Option Secret)
  get_bucket_access_secret_if_required claim get_secret =
      if not (str_eq claim.phase s.phases.bound)
      then pure none
      else (do secret ← get_secret claim.metadata.id; pure (some secret))

  unfoldable pub get_access_secret_for_bucket_claim :
      Claim → (String → Exec C Secret) → Exec C (Option Secret)
  unfolding get_bucket_access_secret_if_required
  get_access_secret_for_bucket_claim claim get_secret =
      annotate "error getting bucket access secret"
        (get_bucket_access_secret_if_required claim get_secret)

  abbrev pub claim_of : String → Metadata → Claim
  claim_of name metadata = record {
    metadata = metadata;
    storage_class_name = s.bucket_pool_storage_class_name;
    generate_bucket_name = name;
    bucket_name = "";
    phase = "";
  }

  -- The metadata of a new claim, from the metadata and the class of the request.
  unfoldable pub claim_metadata : String → ObjectMetadata → String → Result Metadata
  unfolding set_object_metadata set_class_label set_bucket_manager_label
  claim_metadata name requested class =
      elim (set_object_metadata s.json s.meta (with_id name) requested) [
        | err e ↦ err e
        | ok m ↦
            ok (set_bucket_manager_label s.meta (set_class_label s.meta m class) bucket_manager)
      ]

  unfoldable pub create_claim_and_secret : ObjectMetadata → String → Exec C (Claim × Option Secret)
  unfolding claim_metadata get_bucket_access_secret_if_required
  create_claim_and_secret requested class = do
    name ← s.generate
    metadata ← lift (claim_metadata name requested class)
    claim ← annotate "failed to create bucket claim" (s.client.create (claim_of name metadata))
    secret ← get_bucket_access_secret_if_required claim s.client.get_secret
    pure (claim, secret)

  unfoldable pub create_bucket : ObjectMetadata → String → Exec C Bucket
  unfolding create_claim_and_secret convert_bucket convert_internal_error_to_grpc
  create_bucket requested class =
      catch (create_claim_and_secret requested class)
        (λ e. fail (convert_internal_error_to_grpc (wrap "error getting bucket config" e)))
        (λ made.
          catch (lift (convert_bucket made.0 made.1)) (λ e. fail (convert_internal_error_to_grpc e))
            pure)

  unfoldable pub delete_bucket : String → Exec C Unit
  unfolding get_bucket_claim_for_id convert_internal_error_to_grpc
  delete_bucket id =
      catch (get_bucket_claim_for_id id) (λ e. fail (convert_internal_error_to_grpc e))
        (λ claim.
          catch (s.client.delete claim)
            (λ e.
              if is e api_not_found
              then fail (
                  convert_internal_error_to_grpc
                    (wrap "failed to delete bucket claim" (sentinel bucket_not_found)))
              else fail (wrap "error deleting bucket claim" e))
            pure)
