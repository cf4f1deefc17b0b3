-- ===== src/Omap/Deletes.antt =====
-- Delete of the store: what it does to the contents of the omaps, on every branch.
use ceph_provider.Prelude.{
  ℕ, String, Bool, true, false, not, Option, none, some, ◌≡◌, ◌≢◌, refl, sym, subst, ◌∙◌, ◌⊎◌, inl,
  inr, length, ◌==◌,
}
use ceph_provider.Errors.{is}
use ceph_provider.Exec.{Result, ok, err, pure, annotate, ◌>>=◌, ◌>>◌}
use ceph_provider.Exec.Triple.{
  Triple, Triple-bind, Triple-annotate, Triple-if, Triple-pure, Triple-given,
}
use ceph_provider.Omap.{OmapStore, set_object, delete_object}
use ceph_provider.Omap.Calls.{delete_or_mark, delete_found}
use ceph_provider.Omap.Laws.{Contents, RadosLaws, CodecLaws, EnvLaws, ObjectLaws}
use ceph_provider.Omap.Reads.{Stored, opened, get_object-Got}
use ceph_provider.Omap.Writes.{WroteObject, Set, set_object-Set, delete_object-Wrote}
use ceph_provider.Omap.Updates.{Removed}

module _ {C Io E : Type 0} (st : OmapStore C Io E) {view : C → Contents}
    (laws : RadosLaws st.rados view) (codec_laws : CodecLaws st.codec)
    (object_laws : ObjectLaws st.object) where
  open st use {object, omap_name}

  abbrev pub mark : ℕ → E → E
  mark t o = object.increment_resource_version (object.set_deleted_at (some t) o)

  abbrev pub HasFinalizers : E → Bool → Type 0
  HasFinalizers o b = (length (object.get_finalizers o) == 0) ≡ not b

  -- What a Delete may do to an object: remove it if it has no finalizers; if it has some, keep it
  -- where it is marked already, or else mark it with a time and advance its version.
  abbrev pub Deleted : Contents → String → Result (Option E) → Contents → Type 0
  Deleted v id (ok none) w =
      (old : E) × Stored st laws v id old
      × ((HasFinalizers old false × Removed st laws codec_laws object_laws v id w)
          ⊎ (HasFinalizers old true × (object.get_deleted_at old ≢ none) × (w ≡ v)))
  Deleted v id (ok (some o')) w =
      (old : E) × Stored st laws v id old
      × HasFinalizers old true
      × (object.get_deleted_at old ≡ none)
      × ((t : ℕ) × (o' ≡ mark t old))
      × WroteObject st laws codec_laws v (object.get_id old) o' w
  Deleted v id (err e) w =
      (w ≡ v)
      ⊎ ((old : E) × Stored st laws v id old
          × ((HasFinalizers old false × Removed st laws codec_laws object_laws v id w)
              ⊎ (HasFinalizers old true
                  × (object.get_deleted_at old ≡ none)
                  × ((t : ℕ) × WroteObject st laws codec_laws v (object.get_id old) (mark t old)
                        w))))

  remove_unfinalized :
      (v : Contents) (io : Io) (id : String) (old : E)
      → Stored st laws v id old
      → HasFinalizers old false
      → Triple
          (λ s. view s ≡ v)
          (do delete_object st io id; pure none)
          (λ r s. Deleted v id r (view s))
  remove_unfinalized v io id old held bare =
      Triple-bind _ _ _ (delete_object-Wrote st laws codec_laws v io id)
        (λ e s h. elim h.1 [ inl q ↦ inl q | inr q ↦ inr (old, held, inl (bare, q)) ])
        (λ u. Triple-pure _ λ s h. (old, held, inl (bare, h)))

  module _ (env_laws : EnvLaws st view) where
    mark_finalized :
        (v : Contents) (io : Io) (id : String) (old : E) (d : Option ℕ)
        → Stored st laws v id old
        → HasFinalizers old true
        → object.get_deleted_at old ≡ d
        → Triple
            (λ s. view s ≡ v)
            (elim d [
              | some t ↦ pure none
              | none ↦ do
                now ← st.now
                marked ← annotate "failed to set object metadata" (set_object st io (mark now old))
                pure (some marked)
            ])
            (λ r s. Deleted v id r (view s))
    unfolding is
    mark_finalized v io id old (some t) held fs m =
        Triple-pure _ λ s h. (old, held, inr (fs, (λ e. cc), h))
    mark_finalized v io id old none held fs m =
        Triple-bind _ _ _ (env_laws.now_keeps v) (λ e s h. inl h.0)
          λ now. Triple-given λ _.
            Triple-bind (λ r s. Set st laws codec_laws v (mark now old) r (view s)) _ _
              (Triple-annotate _ _ _ (set_object-Set st laws codec_laws v io (mark now old))
                (λ e s h. (h.0, h.1)) (λ o' s h. h))
              (λ e s h. elim h.1 [
                | inl q ↦ inl q
                | inr q ↦ inr (old, held, inr (fs, m, (now, at_id now (mark now old) _ q)))
              ])
              (λ o'. Triple-pure _ λ s h. (
                old,
                held,
                fs,
                m,
                (now, h.0),
                at_id now o' _ (
                    subst
                      (λ x.
                        WroteObject st laws codec_laws v (object.get_id (mark now old)) x (view s))
                      (sym h.0) h.1),
              ))
      where
        at_id :
            (t : ℕ) (o' : E) (w : Contents)
            → WroteObject st laws codec_laws v (object.get_id (mark t old)) o' w
            → WroteObject st laws codec_laws v (object.get_id old) o' w
        at_id t o' w =
            subst (λ k. WroteObject st laws codec_laws v k o' w)
              (object_laws.id-increment _ ∙ object_laws.id-set_deleted_at (some t) old)

    -- Delete after its get, which has read the contents as they are.
    pub delete_found-Deleted :
        (v : Contents) (io : Io) (id : String) (old : E)
        → Stored st laws v id old
        → Triple (λ s. view s ≡ v) (delete_found st id io old) (λ r s. Deleted v id r (view s))
    unfolding delete_found
    delete_found-Deleted v io id old held =
        Triple-if _ _ _ (remove_unfinalized v io id old held)
          (λ fs. mark_finalized v io id old _ held fs refl)

    pub delete_or_mark-Deleted :
        (v : Contents) (id : String)
        → Triple (λ s. view s ≡ v) (delete_or_mark st id) (λ r s. Deleted v id r (view s))
    unfolding delete_or_mark
    delete_or_mark-Deleted v id =
        Triple-bind _ _ _ (opened st laws v) (λ e s h. inl h.0)
          λ io. Triple-given λ _.
            Triple-bind _ _ _ (get_object-Got st laws codec_laws v io id) (λ e s h. inl h.0)
              λ old. Triple-given λ held. delete_found-Deleted v io id old held
