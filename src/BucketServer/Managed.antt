-- ===== src/BucketServer/Managed.antt =====
-- Whose claims internal/bucketserver deletes.
use ceph_provider.Prelude.{String, Bool, true, false, not, ◌≡◌, refl, if◌then◌else◌}
use ceph_provider.Errors.{sentinel, is, api_not_found}
use ceph_provider.Exec.{Result, ok, err, pure, fail}
use ceph_provider.Exec.Keeps.{Keeps, Keeps-catch, Keeps-fail, Keeps-pure, Keeps-if}
use ceph_provider.Exec.Triple.{
  Triple, Triple-catch, Triple-bind, Triple-pure, Triple-fail, Triple-if, Triple-given,
}
use ceph_provider.Api.{bucket_manager}
use ceph_provider.ApiUtils.Kubernetes.{is_managed_by}
use ceph_provider.BucketServer.{
  Server, Claim, get_managed_and_created, get_bucket_claim_for_id, delete_bucket,
}

-- A claim that this provider manages, where the result is one.
abbrev pub Managed : Result Claim → Type 0
Managed (ok claim) = is_managed_by claim.metadata bucket_manager ≡ true
Managed (err e) = Unit {0}

module _ {C : Type 0} (s : Server C) {P : C → Type 0}
    (gets : (name : String) → Keeps P (s.client.get_claim name))
    (deletes : (claim : Claim)
      → is_managed_by claim.metadata bucket_manager ≡ true
      → Keeps P (s.client.delete claim)) where
  get_managed_and_created-Managed :
      (name : String) → Triple P (get_managed_and_created s name) (λ r c. P c × Managed r)
  unfolding get_managed_and_created
  get_managed_and_created-Managed name =
      Triple-bind (λ r c. P c) _ _ (record { at = (gets name).after }) (λ e c h. (h, tt))
        λ claim. checked claim (is_managed_by claim.metadata bucket_manager) refl
    where
      unmanaged :
          (g : Result (Unit {0}))
          → Triple P
              (elim g [ err e ↦ fail e | ok u ↦ fail (sentinel api_not_found) ])
              (λ r c. P c × Managed r)
      unmanaged (err e) = Triple-fail e (λ c h. (h, tt))
      unmanaged (ok u) = Triple-fail _ (λ c h. (h, tt))

      checked :
          (claim : Claim) (b : Bool)
          → is_managed_by claim.metadata bucket_manager ≡ b
          → Triple P
              (if not b
                then elim s.client.gvk [ err e ↦ fail e | ok u ↦ fail (sentinel api_not_found) ]
                else pure claim)
              (λ r c. P c × Managed r)
      checked claim true e = Triple-pure claim (λ c h. (h, e))
      checked claim false e = unmanaged s.client.gvk

  get_bucket_claim_for_id-Managed :
      (id : String) → Triple P (get_bucket_claim_for_id s id) (λ r c. P c × Managed r)
  unfolding get_bucket_claim_for_id
  get_bucket_claim_for_id-Managed id =
      Triple-catch _ _ _ _ (get_managed_and_created-Managed id)
        (λ e.
          Triple-if (is e api_not_found) _ _ (λ _. Triple-fail _ (λ c h. (h.0, tt)))
            (λ _. Triple-fail _ (λ c h. (h.0, tt))))
        (λ claim. Triple-pure claim (λ c h. h))

  delete_bucket-Triple : (id : String) → Triple P (delete_bucket s id) (λ r c. P c)
  unfolding delete_bucket
  delete_bucket-Triple id =
      Triple-catch _ _ _ _ (get_bucket_claim_for_id-Managed id) (λ e. Triple-fail _ (λ c h. h.0))
        λ claim. Triple-given λ managed. record {
          at =
              (Keeps-catch _ _ _ (deletes claim managed)
                (λ e. Keeps-if (is e api_not_found) _ _ (λ _. Keeps-fail _) (λ _. Keeps-fail _))
                Keeps-pure).after;
        }

  -- DeleteBucket deletes no claim but one that carries the label of this manager: what reading a claim
  -- keeps, and what the deletion of such a claim keeps, it keeps.
  pub delete_bucket-Keeps : (id : String) → Keeps P (delete_bucket s id)
  delete_bucket-Keeps id = record { after = (delete_bucket-Triple id).at }
