-- ===== src/Omap/Writes.antt =====
-- What the writes of the store do to the contents of the omaps, on every branch. A write that
-- returns an error may have been applied; the theorems say which write that can be.
use text.Mathlib.TextPositions.{eq_refl}
use ceph_provider.Prelude.{
  ℕ, String, false, Option, none, some, ◌≡◌, refl, sym, subst, ap, ◌∙◌, ◌⊎◌, inl, inr,
}
use ceph_provider.Errors.{is, store_not_found}
use ceph_provider.Exec.{Exec, Result, ok, err, pure, lift, annotate, ◌>>=◌, ◌>>◌}
use ceph_provider.Exec.Triple.{
  Triple, Triple-bind, Triple-catch, Triple-annotate, Triple-if, Triple-fail, Triple-pure,
  Triple-of, Triple-given, Triple-run,
}
use ceph_provider.Api.{Bytes}
use ceph_provider.Omap.{OmapStore, set_object, set_omap_value, delete_object, delete_omap_value}
use ceph_provider.Omap.Calls.{prepare_for_create, create_object, create_after}
use ceph_provider.Omap.Laws.{
  Contents, put, IsForeign, Wrote, RadosLaws, CodecLaws, EnvLaws, ObjectLaws, SameId,
}
use ceph_provider.Omap.Reads.{Got, opened, get_object-Got}

pub put_self : (v : Contents) (n k : String) (x : Option Bytes) → put v n k x n k ≡ x
put_self v n k x = rw (eq_refl n, eq_refl k)

module _ {C Io E : Type 0} (st : OmapStore C Io E) {view : C → Contents}
    (laws : RadosLaws st.rados view) (codec_laws : CodecLaws st.codec) where
  open st use {codec, object, omap_name}

  -- `w` is `v` with the object written at the id, as a text that reads back as the object.
  abbrev pub WroteObject : Contents → String → E → Contents → Type 0
  WroteObject v id o w =
      (b : Bytes) × (w ≡ put v omap_name id (some b)) × (codec.unmarshal b ≡ ok o)

  abbrev pub Set : Contents → E → Result E → Contents → Type 0
  Set v o (ok o') w = (o' ≡ o) × WroteObject v (object.get_id o) o w
  Set v o (err e) w =
      (is e store_not_found ≡ false) × ((w ≡ v) ⊎ WroteObject v (object.get_id o) o w)

  pub write_annotated :
      {A : Type 0} (v : Contents) (k : String) (x : Option Bytes) (text : String) (m : Exec C A)
      → Triple (λ s. view s ≡ v) m (λ r s. Wrote v omap_name k x r (view s))
      → Triple (λ s. view s ≡ v) (annotate text m) (λ r s. Wrote v omap_name k x r (view s))
  unfolding is
  write_annotated v k x text m t = Triple-annotate _ text m t (λ e s h. h) (λ a s h. h)

  set_text :
      (v : Contents) (io : Io) (o : E) (r : Result Bytes)
      → codec.marshal o ≡ r
      → IsForeign r
      → Triple
          (λ s. view s ≡ v)
          (do
            text ← annotate "failed to marshal obj" (lift r)
            annotate "failed to put os object mapping" (set_omap_value st io (object.get_id o) text)
            pure o)
          (λ r s. Set v o r (view s))
  unfolding set_omap_value is annotate lift
  set_text v io o (ok b) m f =
      Triple-bind _ _ _
        (write_annotated v (object.get_id o) (some b) "failed to put os object mapping" _ (
          write_annotated v (object.get_id o) (some b) "unable to set omap values" _
            (laws.set_writes v io omap_name (object.get_id o) b)))
        (λ e s h. elim h.1 [
          | inl q ↦ (h.0, inl q)
          | inr q ↦ (h.0, inr (b, q, codec_laws.round_trip o b m))
        ])
        (λ u. Triple-pure _ λ s h. (refl, (b, h, codec_laws.round_trip o b m)))
  set_text v io o (err e) m f = record { at = λ s h. (f, inl h) }

  pub set_object-Set :
      (v : Contents) (io : Io) (o : E)
      → Triple (λ s. view s ≡ v) (set_object st io o) (λ r s. Set v o r (view s))
  unfolding set_object
  set_object-Set v io o = set_text v io o (codec.marshal o) refl (codec_laws.marshal_foreign o)

  -- A removal of the object at an id.
  pub delete_object-Wrote :
      (v : Contents) (io : Io) (id : String)
      → Triple
          (λ s. view s ≡ v)
          (delete_object st io id)
          (λ r s. Wrote v omap_name id none r (view s))
  unfolding delete_object delete_omap_value
  delete_object-Wrote v io id =
      write_annotated v id none _ _
        (write_annotated v id none _ _ (laws.rm_writes v io omap_name id))

  module _ (env_laws : EnvLaws st view) (object_laws : ObjectLaws object) where
    -- A run of a call in a world with the contents `v` has returned `a`.
    abbrev pub Ran : {A : Type 0} → Contents → Exec C A → A → Type 0
    Ran v m a = (s : C) × (view s ≡ v) × ((m s).0 ≡ ok a)

    -- What the create strategy makes of an object: the object itself where there is none.
    abbrev pub IsPrepared : Contents → Option (E → Exec C E) → E → E → Type 0
    IsPrepared v none o p = p ≡ o
    IsPrepared v (some prepare) o p = Ran v (prepare o) p

    -- What a Create makes of an object: the strategy prepares it, the time of the clock is its time
    -- of creation, and its version advances.
    abbrev pub IsMade : Contents → E → E → Type 0
    IsMade v o o' =
        (t : ℕ) × (p : E) × (object.get_id p ≡ object.get_id o)
        × IsPrepared v st.create_strategy o p
        × Ran v st.now t
        × (o' ≡ object.increment_resource_version (object.set_created_at t p))

    -- What a Create may do: write what it makes of the object, under an id that had none.
    abbrev pub Created : Contents → E → Result E → Contents → Type 0
    Created v o (ok o') w =
        (v omap_name (object.get_id o) ≡ none)
        × IsMade v o o'
        × WroteObject v (object.get_id o) o' w
    Created v o (err e) w =
        (w ≡ v)
        ⊎ ((v omap_name (object.get_id o) ≡ none)
            × ((o' : E) × IsMade v o o' × WroteObject v (object.get_id o) o' w))

    abbrev Prepared : Contents → Option (E → Exec C E) → E → Result E → Type 0
    Prepared v strategy o (ok p) = (object.get_id p ≡ object.get_id o) × IsPrepared v strategy o p
    Prepared v strategy o (err e) = Unit {0}

    prepared :
        (v : Contents) (o : E) (strategy : Option (E → Exec C E))
        → st.create_strategy ≡ strategy
        → Triple
            (λ s. view s ≡ v)
            (elim strategy [ none ↦ pure o | some prepare ↦ prepare o ])
            (λ r s. (view s ≡ v) × Prepared v strategy o r)
    prepared v o none e = Triple-pure o λ s h. (h, (refl, refl))
    prepared v o (some f) e =
        Triple-of _ (Triple-run (f o) (env_laws.prepare_keeps v f o e)) (ran v f o)
      where
        ran :
            (v : Contents) (f : E → Exec C E) (o : E) (r : Result E) (s : C)
            → ((view s ≡ v) × SameId st r o)
              × ((before : C) × (view before ≡ v) × ((f o before).0 ≡ r))
            → (view s ≡ v) × Prepared v (some f) o r
        ran v f o (ok p) s h = (h.0.0, (h.0.1, h.1))
        ran v f o (err e) s h = (h.0.0, tt)

    prepare_keeps :
        (v : Contents) (o : E)
        → Triple
            (λ s. view s ≡ v)
            (prepare_for_create st o)
            (λ r s. (view s ≡ v) × Prepared v st.create_strategy o r)
    unfolding prepare_for_create
    prepare_keeps v o = prepared v o st.create_strategy refl

    abbrev stamp : ℕ → E → E
    stamp t p = object.increment_resource_version (object.set_created_at t p)

    id-stamped : (t : ℕ) (p : E) → object.get_id (stamp t p) ≡ object.get_id p
    id-stamped t p = object_laws.id-increment _ ∙ object_laws.id-set_created_at t p

    pub id-IsMade : (v : Contents) (o o' : E) → IsMade v o o' → object.get_id o' ≡ object.get_id o
    id-IsMade v o o' (t, p, same, _, _, made) = ap object.get_id made ∙ id-stamped t p ∙ same

    stamped-Created :
        (v w : Contents) (o p : E) (t : ℕ) (r : Result E)
        → v omap_name (object.get_id o) ≡ none
        → (object.get_id p ≡ object.get_id o) × IsPrepared v st.create_strategy o p
        → Ran v st.now t
        → Set v (object.increment_resource_version (object.set_created_at t p)) r w
        → Created v o r w
    stamped-Created v w o p t (ok o') n (same, made) now h = (
      n,
      (t, p, same, made, now, h.0),
      subst (λ k. WroteObject v k o' w) (id-stamped t p ∙ same)
          (subst (λ x. WroteObject v (object.get_id (stamp t p)) x w) (sym h.0) h.1),
    )
    stamped-Created v w o p t (err e) n (same, made) now h = elim h.1 [
      | inl q ↦ inl q
      | inr q ↦ inr (
        n,
        (
          stamp t p,
          (t, p, same, made, now, refl),
          subst (λ k. WroteObject v k (stamp t p) w) (id-stamped t p ∙ same) q,
        ),
      )
    ]

    write_new :
        (v : Contents) (io : Io) (o : E)
        → v omap_name (object.get_id o) ≡ none
        → Triple
            (λ s. view s ≡ v)
            (do
              prepared ← prepare_for_create st o
              now ← st.now
              set_object st io
                  (object.increment_resource_version (object.set_created_at now prepared)))
            (λ r s. Created v o r (view s))
    write_new v io o n =
        Triple-bind _ _ _ (prepare_keeps v o) (λ e s h. inl h.0)
          λ p. Triple-given λ made.
            Triple-bind _ _ _ (Triple-run st.now (env_laws.now_keeps v)) (λ e s h. inl h.0.0)
              λ t. record {
                at = λ s h.
                    (Triple-of _ (set_object-Set v io _)
                        (λ r s' q. stamped-Created v (view s') o p t r n made h.1 q)).at
                      s h.0.0;
              }

    -- Create after its get, which has read the contents as they are.
    pub create_after-Created :
        (v : Contents) (io : Io) (o : E) (r : Result E)
        → Got st laws v (object.get_id o) r
        → Triple (λ s. view s ≡ v) (create_after st o io r) (λ r s. Created v o r (view s))
    unfolding create_after
    create_after-Created v io o (ok found) got = Triple-fail _ λ s h. inl h
    create_after-Created v io o (err e) got =
        Triple-if _ _ _ (λ y. write_new v io o (got y)) (λ n. Triple-fail _ λ s h. inl h)

    pub create_object-Created :
        (v : Contents) (o : E)
        → Triple (λ s. view s ≡ v) (create_object st o) (λ r s. Created v o r (view s))
    unfolding create_object
    create_object-Created v o =
        Triple-bind _ _ _ (opened st laws v) (λ e s h. inl h.0)
          λ io. Triple-given λ _.
            Triple-catch _ _ _ _ (get_object-Got st laws codec_laws v io (object.get_id o))
              (λ e. Triple-given λ got. create_after-Created v io o (err e) got)
              (λ found. Triple-given λ got. create_after-Created v io o (ok found) got)
