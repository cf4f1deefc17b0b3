-- ===== src/BucketServer/Lists.antt =====
-- bucket_list.go of internal/bucketserver.
use ceph_provider.Prelude.{
  String, Option, none, some, List, [], ◌∷◌, Map, str_eq, ◌||◌, if◌then◌else◌,
}
use ceph_provider.Errors.{
  wrap, is, sentinel, api_not_found, bucket_not_found, bucket_isnt_managed,
  convert_internal_error_to_grpc,
}
use ceph_provider.Exec.{Exec, Result, pure, fail, lift, catch, annotate, ◌>>=◌}
use ceph_provider.Api.{bucket_manager, manager_label}
use ceph_provider.VolumeServer.Lists.{Filter}
use ceph_provider.BucketServer.{
  Server, Claim, Secret, Bucket, convert_bucket, get_managed_and_created,
  get_access_secret_for_bucket_claim,
}

module _ {C : Type 0} (s : Server C) where
  unfoldable pub get_bucket_for_id : String → Exec C Bucket
  unfolding get_managed_and_created get_access_secret_for_bucket_claim convert_bucket
  get_bucket_for_id id =
      catch (get_managed_and_created s id)
        (λ e.
          if is e api_not_found
          then fail (wrap "failed to get bucket" (sentinel bucket_isnt_managed))
          else fail (wrap "error getting bucket" e))
        (λ claim. do
          secret ←
              annotate "failed to get access secret for bucket"
                (get_access_secret_for_bucket_claim s claim s.client.get_secret)
          lift (convert_bucket s claim secret))

  unfoldable pub convert_claims : (String → Result Secret) → List Claim → Exec C (List Bucket)
  unfolding get_access_secret_for_bucket_claim convert_bucket
  convert_claims getter [] = pure []
  convert_claims getter (claim ∷ claims) =
      let rest = convert_claims getter claims in
      do
        secret ←
            annotate "error aggregating bucket"
              (get_access_secret_for_bucket_claim s claim (λ name. lift (getter name)))
        bucket ← lift (convert_bucket s claim secret)
        buckets ← rest
        pure (bucket ∷ buckets)

  unfoldable pub get_all_managed_buckets : Exec C (List Bucket)
  unfolding convert_claims
  get_all_managed_buckets = do
    claims ←
        annotate "error listing buckets"
          (s.client.list_claims ((manager_label, bucket_manager) ∷ []))
    secrets ← annotate "error listing secrets" s.client.list_secrets
    getter ← annotate "error constructing secret getter" (lift (s.client.object_getter secrets))
    convert_claims getter claims

  unfoldable pub select_buckets : Map String → List Bucket → List Bucket
  select_buckets selector [] = []
  select_buckets selector (bucket ∷ buckets) =
      let rest = select_buckets selector buckets in
      if s.matches selector bucket.metadata.labels then bucket ∷ rest else rest

  unfoldable pub filter_buckets : List Bucket → Option Filter → List Bucket
  unfolding select_buckets
  filter_buckets buckets none = buckets
  filter_buckets buckets (some filter) = select_buckets filter.label_selector buckets

  unfoldable pub list_bucket_by_id : String → Exec C (List Bucket)
  unfolding get_bucket_for_id convert_internal_error_to_grpc
  list_bucket_by_id id =
      catch (get_bucket_for_id id)
        (λ e.
          if is e bucket_not_found || is e bucket_isnt_managed
          then pure []
          else fail (convert_internal_error_to_grpc e))
        (λ bucket. pure (bucket ∷ []))

  unfoldable pub list_filtered_buckets : Option Filter → Exec C (List Bucket)
  unfolding get_all_managed_buckets filter_buckets convert_internal_error_to_grpc
  list_filtered_buckets filter =
      catch get_all_managed_buckets (λ e. fail (convert_internal_error_to_grpc e))
        (λ buckets. pure (filter_buckets buckets filter))

  unfoldable pub list_buckets : Option Filter → Exec C (List Bucket)
  unfolding list_bucket_by_id list_filtered_buckets
  list_buckets none = list_filtered_buckets none
  list_buckets (some filter) =
      if str_eq filter.id ""
      then list_filtered_buckets (some filter)
      else list_bucket_by_id filter.id
