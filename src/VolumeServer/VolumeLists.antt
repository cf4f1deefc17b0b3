-- ===== src/VolumeServer/VolumeLists.antt =====
-- Which volumes ListVolumes of internal/volumeserver gives, where the request has no id.
use ceph_provider.Prelude.{
  Bool, true, false, Option, none, some, List, [], ◌∷◌, ◌≡◌, refl, ◌∙◌, sym, subst, ap, eq_iff,
  Bool-cases, inl, inr, ◌⊎◌,
}
use ceph_provider.Errors.{Error, wrap, convert_internal_error_to_grpc}
use ceph_provider.Exec.{Result, ok, err, catch, fail, pure, lift, annotate}
use ceph_provider.Api.{Image, volume_manager}
use ceph_provider.ApiUtils.{is_object_managed_by}
use ceph_provider.VolumeServer.{Server, Volume, convert_image_to_iri_volume}
use ceph_provider.VolumeServer.Lists.{
  Filter, filter_volumes, select_volumes, convert_images, list_all_volumes, list_filtered_volumes,
  list_volumes,
}

-- A request without a filter, or with one that has no id.
abbrev pub IsBroad : Option Filter → Type 0
IsBroad none = Unit {0}
IsBroad (some filter) = filter.id ≡ ""

module _ {C : Type 0} (s : Server C) where
  -- The volumes that a filter selects by their labels.
  abbrev pub Selected : Option Filter → Volume → Type 0
  Selected none v = Unit {0}
  Selected (some filter) v = s.matches filter.label_selector v.metadata.labels ≡ true

  abbrev pub is_managed : Image → Bool
  is_managed image = is_object_managed_by image.metadata volume_manager

  -- What a request for the volumes that `P` has may return, from the stored images: the volumes of
  -- the images of this provider, all of them in their order, or the error of the first of these
  -- images that is no volume, whether `P` has it or not.
  pub data Lists (P : Volume → Type 0) : List Image → Result (List Volume) → Type 0 where
    done : Lists P [] (ok [])
    other :
        {image : Image} {images : List Image} {r : Result (List Volume)}
        → is_managed image ≡ false
        → Lists P images r
        → Lists P (image ∷ images) r
    keep :
        {image : Image} {images : List Image} {v : Volume} {out : List Volume}
        → is_managed image ≡ true
        → convert_image_to_iri_volume s.json image ≡ ok v
        → P v
        → Lists P images (ok out)
        → Lists P (image ∷ images) (ok (v ∷ out))
    drop :
        {image : Image} {images : List Image} {v : Volume} {out : List Volume}
        → is_managed image ≡ true
        → convert_image_to_iri_volume s.json image ≡ ok v
        → ¬ P v
        → Lists P images (ok out)
        → Lists P (image ∷ images) (ok out)
    broken :
        {image : Image} {images : List Image} {e : Error}
        → is_managed image ≡ true
        → convert_image_to_iri_volume s.json image ≡ err e
        → Lists P (image ∷ images) (err (convert_internal_error_to_grpc e))
    later :
        {image : Image} {images : List Image} {v : Volume} {e : Error}
        → is_managed image ≡ true
        → convert_image_to_iri_volume s.json image ≡ ok v
        → Lists P images (err e)
        → Lists P (image ∷ images) (err e)

  abbrev final : Option Filter → Result (List Volume) → Result (List Volume)
  final filter (ok volumes) = ok (filter_volumes s volumes filter)
  final filter (err e) = err (convert_internal_error_to_grpc e)

  filter_cases :
      (filter : Option Filter) (v : Volume) (vs : List Volume)
      → (Selected filter v × (filter_volumes s (v ∷ vs) filter ≡ v ∷ filter_volumes s vs filter))
        ⊎ ((¬ Selected filter v) × (filter_volumes s (v ∷ vs) filter ≡ filter_volumes s vs filter))
  unfolding filter_volumes select_volumes
  filter_cases none v vs = inl (tt, refl)
  filter_cases (some f) v vs = elim (Bool-cases (s.matches f.label_selector v.metadata.labels)) [
    | inl y ↦ inl (y, rw y refl)
    | inr n ↦ inr ((λ y. cc (y, n)), rw n refl)
  ]

  convert_images-Lists :
      (filter : Option Filter) (images : List Image)
      → Lists (Selected filter) images (final filter (convert_images s images))
  unfolding convert_images filter_volumes select_volumes
  convert_images-Lists none [] = done
  convert_images-Lists (some f) [] = done
  convert_images-Lists filter (image ∷ images) =
      let ih = convert_images-Lists filter images in
      elim (Bool-cases (is_managed image)) [
        | inr n ↦ rw n (other n ih)
        | inl y ↦ rw y (converted y _ refl _ ih)
      ]
    where
      converted :
          is_managed image ≡ true
          → (r : Result Volume) → convert_image_to_iri_volume s.json image ≡ r
          → (rest : Result (List Volume)) → Lists (Selected filter) images (final filter rest)
          → Lists (Selected filter) (image ∷ images) (
              final filter (elim r [
                | err e ↦ err e
                | ok volume ↦ elim rest [ err e ↦ err e | ok volumes ↦ ok (volume ∷ volumes) ]
              ]))
      converted y (err e) h rest ih = broken y h
      converted y (ok v) h (err e) ih = later y h ih
      converted y (ok v) h (ok vs) ih = elim (filter_cases filter v vs) [
        | inl (p, same) ↦
            subst (λ l. Lists (Selected filter) (image ∷ images) (ok l)) (sym same) (keep y h p ih)
        | inr (n, same) ↦
            subst (λ l. Lists (Selected filter) (image ∷ images) (ok l)) (sym same) (drop y h n ih)
      ]

  converted_list :
      (filter : Option Filter) (r : Result (List Volume)) (c : C)
      → catch
          (lift r)
          (λ e. fail (convert_internal_error_to_grpc e))
          (λ volumes. pure (filter_volumes s volumes filter))
          c
        ≡ (final filter r, c)
  unfolding catch lift fail pure
  converted_list filter (ok vs) c = refl
  converted_list filter (err e) c = refl

  list_filtered_volumes_of :
      (filter : Option Filter) (images : List Image) (c c' : C)
      → s.image_store.list c ≡ (ok images, c')
      → list_filtered_volumes s filter c ≡ (final filter (convert_images s images), c')
  unfolding list_filtered_volumes list_all_volumes catch annotate fail lift pure
  list_filtered_volumes_of filter images c c' h =
      rw h (converted_list filter (convert_images s images) c')

  list_volumes_of :
      (filter : Option Filter) (c : C)
      → IsBroad filter
      → list_volumes s filter c ≡ list_filtered_volumes s filter c
  unfolding list_volumes
  list_volumes_of none c b = refl
  list_volumes_of (some filter) c b = rw ((eq_iff filter.id "").1 b) refl

  listed :
      (filter : Option Filter) (images : List Image) (c c' : C)
      → IsBroad filter
      → s.image_store.list c ≡ (ok images, c')
      → Lists (Selected filter) images (list_volumes s filter c).0
  listed filter images c c' b h =
      subst (λ r. Lists (Selected filter) images r)
        (sym (
          ap (λ (x : Result (List Volume) × C). x.0)
            (list_volumes_of filter c b ∙ list_filtered_volumes_of filter images c c' h)))
        (convert_images-Lists filter images)

  -- What ListVolumes may return, from the outcome of the listing.
  abbrev pub Answers : (Volume → Type 0) → Result (List Image) → Result (List Volume) → Type 0
  Answers P (ok images) r = Lists P images r
  Answers P (err e) r = r ≡ err (convert_internal_error_to_grpc (wrap "error listing volumes" e))

  list_failed :
      (filter : Option Filter) (e : Error) (c c' : C)
      → IsBroad filter
      → s.image_store.list c ≡ (err e, c')
      → (list_volumes s filter c).0
        ≡ err (convert_internal_error_to_grpc (wrap "error listing volumes" e))
  unfolding list_filtered_volumes list_all_volumes catch annotate fail lift pure
  list_failed filter e c c' b h = rw (list_volumes_of filter c b, h) refl

  -- ListVolumes without an id, where the store lists its images, returns the volumes of those that
  -- this provider manages, all that the labels of the filter select and in the order of the store, or,
  -- where such an image cannot be converted, selected or not, the error of the first; where the
  -- listing fails, it returns the error of the listing, wrapped. Both errors are converted to gRPC.
  pub list_volumes-Lists :
      (filter : Option Filter) (c : C)
      → IsBroad filter
      → Answers (Selected filter) (s.image_store.list c).0 (list_volumes s filter c).0
  list_volumes-Lists filter c b = answered (s.image_store.list c).0 (s.image_store.list c).1 refl
    where
      answered :
          (r : Result (List Image)) (c' : C)
          → s.image_store.list c ≡ (r, c')
          → Answers (Selected filter) r (list_volumes s filter c).0
      answered (ok images) c' h = listed filter images c c' b h
      answered (err e) c' h = list_failed filter e c c' b h
