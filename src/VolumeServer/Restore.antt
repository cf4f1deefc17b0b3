-- ===== src/VolumeServer/Restore.antt =====
-- The size of a volume that is created from a snapshot (internal/volumeserver/volume_create.go).
use ceph_provider.Prelude.{
  ℕ, String, false, Option, none, some, Map, ◌≡◌, ◌≤◌, lookup, str_eq, ltb, ◌==◌, arith, inl, inr,
  Bool-cases,
}
use ceph_provider.Errors.{new}
use ceph_provider.Exec.{Exec, Result, ok, err, pure, fail, lift, catch, annotate, ◌>>=◌}
use ceph_provider.Exec.Keeps.{
  Keeps, Keeps-catch, Keeps-fail, Keeps-pure, Keeps-lift, Keeps-annotate,
}
use ceph_provider.Exec.Triple.{
  Triple, Triple-bind, Triple-pure, Triple-fail, Triple-if, Triple-annotate, Triple-given,
}
use ceph_provider.Api.{Bytes, Image, Snapshot, EncryptionSpec, encryption_type_encrypted}
use ceph_provider.Classes.{Class, get_class}
use ceph_provider.VolumeServer.{Server}
use ceph_provider.VolumeServer.Create.{
  VolumeRequest, DataSource, Source, restore_size, encryption_spec, snapshot_source, volume_source,
  store_image, create_image_from_volume, create_volume, requested_metadata, image_of,
  encryption_secret_data_passphrase_key,
}

-- A result with at least `n` bytes, where it is one.
abbrev pub AtLeast : {A : Type 0} → ℕ → (A → ℕ) → Result A → Type 0
AtLeast n size (ok a) = n ≤ size a
AtLeast n size (err e) = Unit {0}

-- A result that is a snapshot of the volume `source_id`, where it is one.
abbrev pub IsOf : String → Result Snapshot → Type 0
IsOf source_id (ok snapshot) = snapshot.source.volume_image_id ≡ source_id
IsOf source_id (err e) = Unit {0}

restore_size-AtLeast : (n asked held : ℕ) → n ≤ held → AtLeast n (λ x. x) (restore_size asked held)
unfolding restore_size
restore_size-AtLeast n asked held le = elim (Bool-cases (asked == 0)) [
  | inl y ↦ rw y le
  | inr m ↦ elim (Bool-cases (ltb asked held)) [
    | inl y ↦ rw (m, y) tt
    | inr m' ↦ rw (m, m') (above asked held n m' le)
  ]
]
  where
    above : (a h k : ℕ) → ltb a h ≡ false → k ≤ h → k ≤ a
    above a h k m le' = ground arith

module _ {C : Type 0} (s : Server C) {P : C → Type 0} (n : ℕ) (generates : Keeps P s.generate)
    (encrypts : (b : Bytes) → Keeps P (s.key_encryption.encrypt b)) (id source_id : String)
    (snapshot_gets : Triple P (s.snapshot_store.get id) (λ r c. P c × IsOf source_id r))
    (image_gets : Triple P
      (s.image_store.get source_id)
      (λ r c. P c × AtLeast n (λ (i : Image). i.spec.size) r))
    (creates : (i : Image) → n ≤ i.spec.size → Keeps P (s.image_store.create i)) where
  abbrev Large : Result Source → C → Type 0
  Large r c = P c × AtLeast n (λ (x : Source). x.image_size) r

  kept : {A : Type 0} {m : Exec C A} → Keeps P m → Triple P m (λ r c. P c)
  kept km = record { at = km.after }

  lifted_size :
      (asked held : ℕ)
      → n ≤ held
      → Triple P
          (do
            size ← lift (restore_size asked held)
            pure (record { vol_image = ""; snapshot_id = some id; image_size = size }))
          Large
  unfolding lift
  lifted_size asked held le =
      Triple-bind (λ r c. P c × AtLeast n (λ x. x) r) _ _
        (record { at = λ c h. (h, restore_size-AtLeast n asked held le) }) (λ e c h. (h.0, tt))
        (λ size. Triple-pure _ λ c h. h)

  volume_gets :
      (volume_id : String)
      → volume_id ≡ source_id
      → Triple P
          (annotate "failed to get snapshot source volume from store" (s.image_store.get volume_id))
          (λ r c. P c × AtLeast n (λ (i : Image). i.spec.size) r)
  volume_gets volume_id same =
      Triple-annotate (λ r c. P c × AtLeast n (λ (i : Image). i.spec.size) r) _ _ gets
        (λ e c h. (h.0, tt)) (λ a c h. h)
    where
      gets :
          Triple P
            (s.image_store.get volume_id)
            (λ r c. P c × AtLeast n (λ (i : Image). i.spec.size) r)
      gets = rw same image_gets

  snapshot_source-Large : (asked : ℕ) → Triple P (snapshot_source s id asked) Large
  unfolding snapshot_source
  snapshot_source-Large asked =
      Triple-bind (λ r c. P c × IsOf source_id r) _ _
        (Triple-annotate _ _ _ snapshot_gets (λ e c h. (h.0, tt)) (λ a c h. h)) (λ e c h. (h.0, tt))
        λ snapshot. Triple-given λ same.
          Triple-if (str_eq snapshot.source.volume_image_id "") _ _
            (λ _. Triple-fail _ λ c h. (h, tt))
            λ _.
              Triple-bind (λ r c. P c × AtLeast n (λ (i : Image). i.spec.size) r) _ _
                (volume_gets snapshot.source.volume_image_id same) (λ e c h. (h.0, tt))
                (λ volume. Triple-given λ le. lifted_size asked volume.spec.size le)

  encryption_spec-Keeps : (e : Option (Option (Map Bytes))) → Keeps P (encryption_spec s e)
  unfolding encryption_spec
  encryption_spec-Keeps none = Keeps-pure none
  encryption_spec-Keeps (some none) = Keeps-fail _
  encryption_spec-Keeps (some (some secret_data)) =
      with_passphrase (lookup encryption_secret_data_passphrase_key secret_data)
    where
      with_passphrase :
          (o : Option Bytes)
          → Keeps {A = Option EncryptionSpec} P (elim o [
            | none ↦ fail (new "encryption enabled but secret data missing")
            | some passphrase ↦
                catch
                  (annotate "failed to encrypt passphrase" (s.key_encryption.encrypt passphrase))
                  fail
                  (λ encrypted. pure (
                    some (record {
                      kind = encryption_type_encrypted;
                      encrypted_passphrase = encrypted;
                    })))
          ])
      with_passphrase none = Keeps-fail _
      with_passphrase (some passphrase) =
          Keeps-catch _ _ _ (Keeps-annotate _ _ (encrypts passphrase)) Keeps-fail
            (λ x. Keeps-pure _)

  store_image-Keeps :
      (volume : VolumeRequest) (source : Source) (e : Option EncryptionSpec)
      → n ≤ source.image_size
      → Keeps P (store_image s volume source e)
  unfolding store_image
  store_image-Keeps volume source e le = classed (get_class s.volume_classes volume.class)
    where
      classed :
          (o : Option Class)
          → Keeps {A = Image} P (elim o [
            | none ↦ fail (new "volume class not supported")
            | some class ↦ catch s.generate fail (λ id.
                catch
                  (annotate "failed to set metadata"
                    (lift (requested_metadata s id volume.metadata)))
                  fail
                  (λ metadata.
                    annotate "failed to create image"
                      (s.image_store.create (image_of s volume metadata source class e))))
          ])
      classed none = Keeps-fail _
      classed (some class) = Keeps-catch _ _ _ generates Keeps-fail λ id.
          Keeps-catch _ _ _ (Keeps-annotate _ _ (Keeps-lift _)) Keeps-fail
            λ metadata. Keeps-annotate _ _ (creates _ le)

  module _ (volume : VolumeRequest) (source : DataSource)
      (from : volume.volume_data_source ≡ some source)
      (snapshot : source.snapshot_data_source ≡ some id) where
    volume_source-Large : (asked : ℕ) → Triple P (volume_source s volume asked) Large
    unfolding volume_source
    volume_source-Large asked =
        rw (from, volume_source) (rw (snapshot) (snapshot_source-Large asked))

    create_image_from_volume-Keeps : Keeps P (create_image_from_volume s (some volume))
    unfolding create_image_from_volume
    create_image_from_volume-Keeps = Keeps-catch _ _ _ (Keeps-lift _) Keeps-fail λ asked.
        Keeps-catch _ _ _ (encryption_spec-Keeps volume.encryption) Keeps-fail
          λ e. record { after = (stored asked e).at }
      where
        stored :
            (asked : ℕ) (e : Option EncryptionSpec)
            → Triple P
                (catch (volume_source s volume asked) fail (λ found. store_image s volume found e))
                (λ r c. P c)
        stored asked e =
            Triple-bind _ _ _ (volume_source-Large asked) (λ x c h. h.0)
              (λ found. Triple-given λ le. kept (store_image-Keeps volume found e le))

    -- CreateVolume from the snapshot `id`, whose source volume `source_id` has at least `n` bytes,
    -- hands the store only an image of at least `n` bytes: what its other calls keep, and a Create of
    -- such an image keeps, it keeps. Of the two reads it is assumed that the snapshot stored under
    -- `id` is one of `source_id` and that the image stored under `source_id` has the bytes.
    pub create_volume-Keeps : Keeps P (create_volume s (some volume))
    unfolding create_volume
    create_volume-Keeps =
        Keeps-catch _ _ _
          (Keeps-catch _ _ _ create_image_from_volume-Keeps Keeps-fail (λ image. Keeps-lift _))
          (λ e. Keeps-fail _) Keeps-pure
