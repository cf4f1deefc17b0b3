-- ===== src/Omap/Reads.antt =====
-- What `get_object` and Get return.
use text.Mathlib.Text.{starts_with}
use text.Mathlib.TextEquality.{starts_with_iff}
use text.Mathlib.TextLemmas.{append-nil}
use ceph_provider.Prelude.{
  String, Bool, true, false, not, none, some, lookup, ◌≡◌, refl, sym, ◌∙◌, inl, inr, Option-cases,
}
use ceph_provider.Errors.{is, store_not_found, rados_not_found}
use ceph_provider.Exec.{Result, ok, err, lift, annotate}
use ceph_provider.Exec.Triple.{
  Triple, Triple-bind, Triple-catch, Triple-annotate, Triple-if, Triple-fail, Triple-pure,
}
use ceph_provider.Api.{Bytes}
use ceph_provider.Omap.{OmapStore, open_pool, get_single_omap_value, get_object}
use ceph_provider.Omap.Calls.{get}
use ceph_provider.Omap.Laws.{Contents, IsForeign, RadosLaws, CodecLaws}

starts_with_self : (s : String) → starts_with s s ≡ true
starts_with_self s = (starts_with_iff s s).1 ("", append-nil s)

not-false : (b : Bool) → not b ≡ false → b ≡ true
not-false true h = refl
not-false false h = sym h

module _ {C Io E : Type 0} (st : OmapStore C Io E) {view : C → Contents}
    (laws : RadosLaws st.rados view) where
  open st use {codec, omap_name}

  abbrev pub Single : Contents → String → Result Bytes → Type 0
  Single v key (ok b) = v omap_name key ≡ some b
  Single v key (err e) =
      (is e store_not_found ≡ false) × (is e rados_not_found ≡ true → v omap_name key ≡ none)

  pub get_single_omap_value-Single :
      (v : Contents) (io : Io) (key : String)
      → Triple
          (λ s. view s ≡ v)
          (get_single_omap_value st io key)
          (λ r s. (view s ≡ v) × Single v key r)
  unfolding get_single_omap_value is
  get_single_omap_value-Single v io key =
      Triple-bind _ _ _ (laws.get_reads v io omap_name key)
        (λ e s h. (h.0, (h.1.0, λ nf. h.1.1 nf key)))
        λ m. elim (Option-cases (lookup key m)) [
          | inl e ↦
              rw e
                (Triple-fail _ λ s h. (h.0, (refl, λ _. sym (h.1 key (starts_with_self key)) ∙ e)))
          | inr (b, e) ↦ rw e (Triple-pure b λ s h. (h.0, sym (h.1 key (starts_with_self key)) ∙ e))
        ]

  pub opened :
      (v : Contents) → Triple (λ s. view s ≡ v) (open_pool st) (λ r s. (view s ≡ v) × IsForeign r)
  unfolding open_pool is
  opened v =
      Triple-annotate _ _ _ (laws.open_keeps v st.pool) (λ e s h. (h.0, h.1)) (λ a s h. (h.0, tt))

  -- The object that the omap holds under an id.
  abbrev pub Stored : Contents → String → E → Type 0
  Stored v id o = (b : Bytes) × (v omap_name id ≡ some b) × (codec.unmarshal b ≡ ok o)

  -- What a Get may return: the object that is stored, not-found only where there is none, or some
  -- other error.
  abbrev pub Got : Contents → String → Result E → Type 0
  Got v id (ok o) = Stored v id o
  Got v id (err e) = is e store_not_found ≡ true → v omap_name id ≡ none

  module _ (codec_laws : CodecLaws codec) where
    decode-Got :
        (v : Contents) (id : String) (b : Bytes) (r : Result E)
        → codec.unmarshal b ≡ r
        → IsForeign r
        → v omap_name id ≡ some b
        → Triple
            (λ s. view s ≡ v)
            (annotate "failed to unmarshal object" (lift r))
            (λ r s. (view s ≡ v) × Got v id r)
    unfolding annotate lift is
    decode-Got v id b (ok o) e f h = record { at = λ s p. (p, (b, h, e)) }
    decode-Got v id b (err x) e f h = record { at = λ s p. (p, λ nf. cc) }

    pub get_object-Got :
        (v : Contents) (io : Io) (id : String)
        → Triple (λ s. view s ≡ v) (get_object st io id) (λ r s. (view s ≡ v) × Got v id r)
    unfolding get_object is
    get_object-Got v io id =
        Triple-catch _ _ _ _ (get_single_omap_value-Single v io id)
          (λ e.
            Triple-if _ _ _ (λ n. Triple-fail _ λ s h. (h.0, λ nf. cc (h.1.0)))
              (λ y. Triple-fail _ λ s h. (h.0, λ _. h.1.1 (not-false _ y))))
          (λ b. record {
            at = λ s h.
                (decode-Got v id b (codec.unmarshal b) refl (codec_laws.unmarshal_foreign b) h.1).at
                  s h.0;
          })

    -- Get returns what is stored, and leaves all omaps as they are.
    pub get-Got :
        (v : Contents) (id : String)
        → Triple (λ s. view s ≡ v) (get st id) (λ r s. (view s ≡ v) × Got v id r)
    unfolding get
    get-Got v id =
        Triple-bind _ _ _ (opened v) (λ e s h. (h.0, λ nf. cc (h.1)))
          (λ io. record { at = λ s h. (get_object-Got v io id).at s h.0 })
