-- ===== src/Controllers/Naming.antt =====
-- The names of rbd images and snapshots that internal/controllers/common.go gives.
use Prim.Native.Char.{code}
use text.Mathlib.TextLemmas.{append_cancel_left, cons-append, head-eq_of_cons-eq}
use ceph_provider.Prelude.{
  String, ◌≡◌, sym, ◌∙◌, ap, arith, str_eq, str_append, Bool-cases, inl, inr,
}
use ceph_provider.Exec.{ok}
use ceph_provider.Api.{Snapshot}
use ceph_provider.Controllers.Common.{
  get_snapshot_source_details, image_id_to_rbd_id, snapshot_id_to_rbd_id,
}

apart : (x y : String) → str_append "snap_" x ≡ str_append "img_" y → ⊥
apart x y h = absurd (
    omega (
      arith,
      ap code (head-eq_of_cons-eq (sym (cons-append "s" "nap_" x) ∙ h ∙ cons-append "i" "mg_" y)),
    ))

-- What getSnapshotSourceDetails gives for the two kinds of sources.
data Named (s : Snapshot) (p : String × String) : Type 0 where
  os_image : p.0 ≡ snapshot_id_to_rbd_id s.metadata.id → Named s p
  volume : p.0 ≡ image_id_to_rbd_id s.source.volume_image_id → p.1 ≡ s.metadata.id → Named s p

naming : (s : Snapshot) (p : String × String) → get_snapshot_source_details s ≡ ok p → Named s p
unfolding get_snapshot_source_details
naming s p h = elim (Bool-cases (str_eq s.source.ironcore_image "")) [
  | inr n ↦ let q = named (rw n at h) in os_image q.0
  | inl y ↦ elim (Bool-cases (str_eq s.source.volume_image_id "")) [
    | inr n ↦ let q = named (rw (y, n) at h) in volume q.0 q.1
    | inl z ↦ absurd (cc (rw (y, z) at h))
  ]
]
  where
    named : {q : String × String} → ok q ≡ ok p → (p.0 ≡ q.0) × (p.1 ≡ q.1)
    named e = (cc e, cc e)

-- Two snapshots that have the same rbd snapshot have the same id.
get_snapshot_source_details_inj :
    (a b : Snapshot) (p : String × String)
    → get_snapshot_source_details a ≡ ok p
    → get_snapshot_source_details b ≡ ok p
    → a.metadata.id ≡ b.metadata.id
unfolding image_id_to_rbd_id snapshot_id_to_rbd_id
get_snapshot_source_details_inj a b p ha hb = go (naming a p ha) (naming b p hb)
  where
    go : Named a p → Named b p → a.metadata.id ≡ b.metadata.id
    go (os_image x) (os_image y) =
        append_cancel_left "snap_" a.metadata.id b.metadata.id (sym x ∙ y)
    go (os_image x) (volume y z) = absurd (apart _ _ (sym x ∙ y))
    go (volume x z) (os_image y) = absurd (apart _ _ (sym y ∙ x))
    go (volume x w) (volume y z) = sym w ∙ z
