-- ===== src/Omap/Updates.antt =====
-- Update of the store: what it does to the contents of the omaps, on every branch.
use ceph_provider.Prelude.{
  ℕ, String, Bool, true, false, not, none, ◌≡◌, refl, subst, ◌⊎◌, inl, inr, arith, ◌==◌,
}
use ceph_provider.Exec.{Result, ok, err, pure, annotate, ◌>>=◌, ◌>>◌}
use ceph_provider.Exec.Triple.{
  Triple, Triple-bind, Triple-if, Triple-fail, Triple-pure, Triple-given,
}
use ceph_provider.Omap.{OmapStore, set_object, delete_object}
use ceph_provider.Omap.Calls.{is_released, update_object, update_found}
use ceph_provider.Omap.Laws.{Contents, put, RadosLaws, CodecLaws, ObjectLaws}
use ceph_provider.Omap.Reads.{Stored, opened, get_object-Got}
use ceph_provider.Omap.Writes.{WroteObject, set_object-Set, delete_object-Wrote, write_annotated}

module _ {C Io E : Type 0} (st : OmapStore C Io E) {view : C → Contents}
    (laws : RadosLaws st.rados view) (codec_laws : CodecLaws st.codec)
    (object_laws : ObjectLaws st.object) where
  open st use {object, omap_name}

  -- The removal of an object, in contents.
  abbrev pub Removed : Contents → String → Contents → Type 0
  Removed v id w = w ≡ put v omap_name id none

  abbrev pub version : E → ℕ
  version o = object.get_resource_version o

  -- What an Update may do to an id that holds `old`: remove a released object, or write the
  -- object, with its version advanced, over one of the same version.
  abbrev pub Replaced : Contents → E → Contents → Type 0
  Replaced v o w =
      (old : E) × Stored st laws v (object.get_id o) old
      × (version old ≡ version o)
      × (is_released st o ≡ false)
      × WroteObject st laws codec_laws v (object.get_id o) (object.increment_resource_version o) w

  abbrev pub Updated : Contents → E → Result (E × Bool) → Contents → Type 0
  Updated v o (ok (o', written)) w =
      ((old : E) × Stored st laws v (object.get_id o) old)
      × (((written ≡ false) × (is_released st o ≡ true) × (o' ≡ o) × Removed v (object.get_id o) w)
          ⊎ ((written ≡ true) × (o' ≡ object.increment_resource_version o) × Replaced v o w))
  Updated v o (err e) w =
      (w ≡ v) ⊎ (((is_released st o ≡ true) × Removed v (object.get_id o) w) ⊎ Replaced v o w)

  remove_released :
      (v : Contents) (io : Io) (o old : E)
      → Stored st laws v (object.get_id o) old
      → is_released st o ≡ true
      → Triple
          (λ s. view s ≡ v)
          (do
            annotate "failed to delete object metadata" (delete_object st io (object.get_id o))
            pure (o, false))
          (λ r s. Updated v o r (view s))
  remove_released v io o old held released =
      Triple-bind _ _ _
        (write_annotated st laws codec_laws v (object.get_id o) none _ _
          (delete_object-Wrote st laws codec_laws v io (object.get_id o)))
        (λ e s h. elim h.1 [ inl q ↦ inl q | inr q ↦ inr (inl (released, q)) ])
        (λ u. Triple-pure _ λ s h. ((old, held), inl (refl, released, refl, h)))

  replace_latest :
      (v : Contents) (io : Io) (o old : E)
      → Stored st laws v (object.get_id o) old
      → version old ≡ version o
      → is_released st o ≡ false
      → Triple
          (λ s. view s ≡ v)
          (do obj' ← set_object st io (object.increment_resource_version o); pure (obj', true))
          (λ r s. Updated v o r (view s))
  replace_latest v io o old held same kept =
      Triple-bind _ _ _ (set_object-Set st laws codec_laws v io _)
        (λ e s h. elim h.1 [
          | inl q ↦ inl q
          | inr q ↦ inr (
              inr (
                old,
                held,
                same,
                kept,
                at_id
                    (λ k.
                      WroteObject st laws codec_laws v k (object.increment_resource_version o)
                        (view s))
                    q,
              ))
        ])
        (λ o'. Triple-pure _ λ s h. (
          (old, held),
          inr (
            refl,
            h.0,
            (
              old,
              held,
              same,
              kept,
              at_id
                  (λ k.
                    WroteObject st laws codec_laws v k (object.increment_resource_version o)
                      (view s))
                  h.1,
            ),
          ),
        ))
    where
      at_id :
          (P : String → Type 0)
          → P (object.get_id (object.increment_resource_version o))
          → P (object.get_id o)
      at_id P = subst P (object_laws.id-increment o)

  -- Update after its get, which has read the contents as they are.
  pub update_found-Updated :
      (v : Contents) (io : Io) (o old : E)
      → Stored st laws v (object.get_id o) old
      → Triple (λ s. view s ≡ v) (update_found st o io old) (λ r s. Updated v o r (view s))
  unfolding update_found
  update_found-Updated v io o old held =
      Triple-if (is_released st o) _ _ (remove_released v io o old held) λ kept.
        Triple-if (not (version old == version o)) _ _ (λ _. Triple-fail _ λ s h. inl h)
          λ same. replace_latest v io o old held (ground arith) kept

  pub update_object-Updated :
      (v : Contents) (o : E)
      → Triple (λ s. view s ≡ v) (update_object st o) (λ r s. Updated v o r (view s))
  unfolding update_object
  update_object-Updated v o =
      Triple-bind _ _ _ (opened st laws v) (λ e s h. inl h.0)
        λ io. Triple-given λ _.
          Triple-bind _ _ _ (get_object-Got st laws codec_laws v io (object.get_id o))
            (λ e s h. inl h.0) λ old. Triple-given λ held. update_found-Updated v io o old held
