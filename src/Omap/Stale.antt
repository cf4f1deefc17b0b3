-- ===== src/Omap/Stale.antt =====
-- What an Update of internal/omap/omap.go does from a version of the object that is not the stored one.
use ceph_provider.Prelude.{String, false, some, ◌≡◌, ◌≢◌, ◌⊎◌, subst, ap, ◌∙◌, inl, inr}
use ceph_provider.Errors.{Error}
use ceph_provider.Exec.{Result, ok, err}
use ceph_provider.Exec.Triple.{Triple, Triple-of}
use ceph_provider.Omap.{OmapStore}
use ceph_provider.Omap.Calls.{update, is_released}
use ceph_provider.Omap.Laws.{Contents, RadosLaws, CodecLaws, EnvLaws, ObjectLaws}
use ceph_provider.Omap.Reads.{Stored}
use ceph_provider.Omap.Writes.{WroteObject, put_self}
use ceph_provider.Omap.Updates.{Replaced}
use ceph_provider.Omap.Contract.{update-UpdatedTo, UpdatedTo}

abbrev pub Failed {ℓ} : {A : Type ℓ} → Result A → Type 0
Failed (ok a) = ⊥
Failed (err e) = Unit {0}

module _ {C Io E : Type 0} (st : OmapStore C Io E) {view : C → Contents}
    (laws : RadosLaws st.rados view) (codec_laws : CodecLaws st.codec)
    (object_laws : ObjectLaws st.object) (env_laws : EnvLaws st view) where
  open st use {object, omap_name, codec}

  pub Stored-unique :
      (v : Contents) (id : String) (a b : E) → Stored st laws v id a → Stored st laws v id b → a ≡ b
  Stored-unique v id a b (x, p, q) (y, r, t) = cc

  pub wrote-Stored :
      (v w : Contents) (id : String) (o : E)
      → WroteObject st laws codec_laws v id o w
      → Stored st laws w id o
  wrote-Stored v w id o (b, p, q) =
      (b, ap (λ (u : Contents). u omap_name id) p ∙ put_self v omap_name id (some b), q)

  -- The object that an Update replaces has the version of the new one.
  Replaced-version :
      (v w : Contents) (o old : E)
      → Stored st laws v (object.get_id o) old
      → Replaced st laws codec_laws object_laws v o w
      → object.get_resource_version old ≡ object.get_resource_version o
  Replaced-version v w o old held (x, stored, same, _, _) =
      subst (λ y. object.get_resource_version y ≡ object.get_resource_version o)
        (Stored-unique v (object.get_id o) x old stored held) same

  stale_outcome :
      (v w : Contents) (o old : E) (r : Result E)
      → Stored st laws v (object.get_id o) old
      → object.get_resource_version old ≢ object.get_resource_version o
      → is_released st o ≡ false
      → UpdatedTo st laws codec_laws object_laws env_laws v o r w
      → Failed r × (w ≡ v)
  stale_outcome v w o old (ok o') held stale kept (_, (_, inl (_, released, _, _))) =
      absurd (cc released)
  stale_outcome v w o old (ok o') held stale kept (_, (_, inr (_, _, q))) =
      absurd (stale (Replaced-version v w o old held q))
  stale_outcome v w o old (err e) held stale kept (inl q) = (tt, q)
  stale_outcome v w o old (err e) held stale kept (inr (inl (released, _))) = absurd (cc released)
  stale_outcome v w o old (err e) held stale kept (inr (inr q)) =
      absurd (stale (Replaced-version v w o old held q))

  -- An Update from a version that is not the stored one fails, and leaves all omaps as they are.
  pub update_stale :
      (v : Contents) (o old : E)
      → Stored st laws v (object.get_id o) old
      → object.get_resource_version old ≢ object.get_resource_version o
      → is_released st o ≡ false
      → Triple (λ s. view s.world ≡ v) (update st o) (λ r s. Failed r × (view s.world ≡ v))
  update_stale v o old held stale kept =
      Triple-of _ (update-UpdatedTo st laws codec_laws object_laws env_laws v o)
        λ r s h. stale_outcome v (view s.world) o old r held stale kept h

  pub written_of_ok :
      (v w : Contents) (o o' : E)
      → is_released st o ≡ false
      → UpdatedTo st laws codec_laws object_laws env_laws v o (ok o') w
      → WroteObject st laws codec_laws v (object.get_id o) (object.increment_resource_version o) w
  written_of_ok v w o o' kept (_, (_, inl (_, released, _, _))) = absurd (cc released)
  written_of_ok v w o o' kept (_, (_, inr (_, _, (_, _, _, _, q)))) = q

  pub written_of_err :
      (v w : Contents) (o : E) (e : Error)
      → is_released st o ≡ false
      → UpdatedTo st laws codec_laws object_laws env_laws v o (err e) w
      → (w ≡ v)
        ⊎ WroteObject st laws codec_laws v (object.get_id o) (object.increment_resource_version o) w
  written_of_err v w o e kept (inl q) = inl q
  written_of_err v w o e kept (inr (inl (released, _))) = absurd (cc released)
  written_of_err v w o e kept (inr (inr (_, _, _, _, q))) = inr q
