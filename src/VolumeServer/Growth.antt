-- ===== src/VolumeServer/Growth.antt =====
-- ExpandVolume of internal/volumeserver/volume_expand.go against the sizes of the stored images.
use ceph_provider.Prelude.{
  ℕ, String, false, Option, none, some, ◌≡◌, sym, subst, ap, ◌⊎◌, inl, inr, ◌≤◌, str_eq, eq_iff,
  leb, if◌then◌else◌, Bool-cases, arith,
}
use ceph_provider.Errors.{new}
use ceph_provider.Exec.{Result, ok, err, pure, fail, lift, annotate, ◌>>=◌, ◌>>◌}
use ceph_provider.Exec.Triple.{
  Triple, Triple-bind, Triple-pure, Triple-fail, Triple-if, Triple-annotate, Triple-given,
  Triple-of,
}
use ceph_provider.Api.{Image}
use ceph_provider.Store.{Store}
use ceph_provider.Utils.{int64_to_uint64}
use ceph_provider.VolumeServer.{Server}
use ceph_provider.VolumeServer.Change.{expand_image, resized}

-- The size of the spec of each stored image.
abbrev pub Sizes : Type 0
Sizes = String → Option ℕ

abbrev pub set_size : Sizes → String → Option ℕ → Sizes
set_size v id x k = if str_eq id k then x else v k

abbrev pub Found : Sizes → String → Result Image → Type 0
Found v id (ok image) = (v id ≡ some image.spec.size) × (image.metadata.id ≡ id)
Found v id (err e) = Unit {0}

-- A Get returns the stored image. An Update leaves the sizes as they are, writes the size of its
-- image, or removes the image.
pub record StoreLaws {C : Type 0} (store : Store C Image) (view : C → Sizes) : Type 0 where
  pub get_reads :
      (v : Sizes) (id : String)
      → Triple (λ s. view s ≡ v) (store.get id) (λ r s. (view s ≡ v) × Found v id r)
  pub update_writes :
      (v : Sizes) (o : Image)
      → Triple
          (λ s. view s ≡ v)
          (store.update o)
          (λ r s.
            (view s ≡ v)
            ⊎ ((x : Option ℕ) × ((x ≡ none) ⊎ (x ≡ some o.spec.size))
                × (view s ≡ set_size v o.metadata.id x)))

-- No image has a smaller size than before.
abbrev pub Grown : Sizes → Sizes → Type 0
Grown v w = (k : String) (a b : ℕ) → v k ≡ some a → w k ≡ some b → a ≤ b

same-Grown : (v w : Sizes) → w ≡ v → Grown v w
same-Grown v w e k a b h h' = let q : a ≡ b = cc (e, h, h') in omega (arith, q)

set-Grown :
    (v w : Sizes) (id : String) (old grown_to : ℕ) (x : Option ℕ)
    → v id ≡ some old
    → old ≤ grown_to
    → (x ≡ none) ⊎ (x ≡ some grown_to)
    → w ≡ set_size v id x
    → Grown v w
set-Grown v w id old grown_to x held le made e k a b h h' = elim (Bool-cases (str_eq id k)) [
  | inl y ↦
      let at_x : x ≡ some b = cc (rw y at at_k, h') in
      let q : a ≡ old = cc ((eq_iff id k).0 y, held, h) in
      elim made [
        | inl n ↦ absurd (cc (n, at_x))
        | inr n ↦ let q' : b ≡ grown_to = cc (n, at_x) in omega (arith, q, q', le)
      ]
  | inr n ↦ let q : a ≡ b = cc (rw n at at_k, h, h') in omega (arith, q)
]
  where
    at_k : w k ≡ (if str_eq id k then x else v k)
    at_k = ap (λ (u : Sizes). u k) e

module _ {C : Type 0} (s : Server C) {view : C → Sizes} (laws : StoreLaws s.image_store view) where
  write_resized :
      (v : Sizes) (id : String) (image : Image) (size : ℕ)
      → (v id ≡ some image.spec.size) × (image.metadata.id ≡ id)
      → leb size image.spec.size ≡ false
      → Triple
          (λ c. view c ≡ v)
          (do
            annotate "failed to update ceph image" (s.image_store.update (resized size image))
            pure tt)
          (λ r c. Grown v (view c))
  write_resized v id image size (held, same) larger =
      Triple-bind (λ r c. Grown v (view c)) _ _
        (Triple-annotate (λ r c. Grown v (view c)) _ _
          (Triple-of _ (laws.update_writes v (resized size image)) λ r c h. elim h [
            | inl q ↦ same-Grown v (view c) q
            | inr (x, made, q) ↦
                set-Grown v (view c) image.metadata.id image.spec.size size x
                  (subst (λ k. v k ≡ some image.spec.size) (sym same) held) (ground arith) made q
          ])
          (λ e c h. h) (λ a c h. h))
        (λ e c h. h) (λ a. Triple-pure tt (λ c h. h))

  size_given :
      (v : Sizes) (id : String) (image : Image) (r : Result ℕ)
      → Found v id (ok image)
      → Triple
          (λ c. view c ≡ v)
          (do
            size ← lift r
            if leb size image.spec.size
                then fail (new "requested size must be greater than current size")
                else (do
                  annotate "failed to update ceph image" (s.image_store.update (resized size image))
                  pure tt))
          (λ r c. Grown v (view c))
  unfolding lift
  size_given v id image r found =
      Triple-bind (λ r c. view c ≡ v) _ _ (record { at = λ c h. h })
        (λ e c h. same-Grown v (view c) h)
        λ size.
          Triple-if (leb size image.spec.size) _ _
            (λ _. Triple-fail _ λ c h. same-Grown v (view c) h)
            (λ larger. write_resized v id image size found larger)

  -- ExpandVolume never lowers the size of a stored image, whether it succeeds or fails.
  pub expand_image-Grown :
      (v : Sizes) (id : String) (storage_bytes : ℕ)
      → Triple (λ c. view c ≡ v) (expand_image s id storage_bytes) (λ r c. Grown v (view c))
  unfolding expand_image
  expand_image-Grown v id storage_bytes =
      Triple-bind (λ r c. (view c ≡ v) × Found v id r) _ _
        (Triple-annotate _ _ _ (laws.get_reads v id) (λ e c h. (h.0, tt)) (λ a c h. h))
        (λ e c h. same-Grown v (view c) h.0)
        λ image. Triple-given λ found. size_given v id image (int64_to_uint64 storage_bytes) found
