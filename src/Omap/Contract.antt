-- ===== src/Omap/Contract.antt =====
-- The contract of the store, on the calls that its clients make: what Create, Get, Update and Delete
-- do to the contents of the omaps and what they return, on every branch.
use ceph_provider.Prelude.{String, Bool, true, false, Option, none, some, ◌≡◌, if◌then◌else◌}
use ceph_provider.Exec.{Exec, Result, ok, err, pure, catch, ◌>>◌}
use ceph_provider.Exec.Triple.{Triple, Triple-bind, Triple-pure}
use ceph_provider.Omap.{OmapStore, State, WatchEvent, on_world, enqueue, updated, deleted}
use ceph_provider.Omap.Calls.{create, update, delete}
use ceph_provider.Omap.Laws.{Contents, RadosLaws, CodecLaws, EnvLaws, ObjectLaws}
use ceph_provider.Omap.Writes.{Created, create_object-Created}
use ceph_provider.Omap.Updates.{Updated, update_object-Updated}
use ceph_provider.Omap.Deletes.{Deleted, delete_or_mark-Deleted}

module _ {C E : Type 0} where
  pub lifted :
      {A : Type 0} {P : C → Type 0} {Q : Result A → C → Type 0} {m : Exec C A}
      → Triple P m Q
      → Triple (λ s. P s.world) (on_world {E = E} m) (λ r s. Q r s.world)
  unfolding on_world
  lifted t = record { at = λ s p. t.at s.world p }

  -- The send of an event touches the watches only.
  announced :
      {A : Type 0} (P : C → Type 0) (Q : Result A → C → Type 0) (evt : WatchEvent E) (a : A)
      → ((c : C) → P c → Q (ok a) c)
      → Triple (λ s. P s.world) (do enqueue evt; pure a) (λ r s. Q r s.world)
  unfolding enqueue catch pure
  announced P Q evt a h = record { at = λ s p. h s.world p }

module _ {C Io E : Type 0} (st : OmapStore C Io E) {view : C → Contents}
    (laws : RadosLaws st.rados view) (codec_laws : CodecLaws st.codec)
    (object_laws : ObjectLaws st.object) (env_laws : EnvLaws st view) where
  open st use {object, omap_name}

  -- A Create of an id that has no object writes what the create strategy has made of the object (the
  -- object itself where there is no strategy), with the time that the clock has given as its time of
  -- creation and its version advanced, and returns it; a Create that returns an error has left the
  -- omaps as they were, or has written such an object under an id that had none. Nothing else is
  -- written.
  pub create-Created :
      (v : Contents) (o : E)
      → Triple
          (λ s. view s.world ≡ v)
          (create st o)
          (λ r s. Created st laws codec_laws env_laws object_laws v o r (view s.world))
  unfolding create
  create-Created v o =
      Triple-bind _ _ _ (lifted (create_object-Created st laws codec_laws env_laws object_laws v o))
        (λ e s h. h)
        λ o'. announced (λ c. Post o (ok o') (view c)) (λ r c. Post o r (view c)) _ o' (λ c h. h)
    where
      Post : E → Result E → Contents → Type 0
      Post = Created st laws codec_laws env_laws object_laws v

  abbrev pub UpdatedTo : Contents → E → Result E → Contents → Type 0
  UpdatedTo v o (ok o') w =
      (written : Bool) × Updated st laws codec_laws object_laws v o (ok (o', written)) w
  UpdatedTo v o (err e) w = Updated st laws codec_laws object_laws v o (err e) w

  -- An Update of an object that is stored either removes it, where it is marked as deleted and has no
  -- finalizers, or writes it with its version advanced, where its version is the stored one. An
  -- Update that returns an error has left the omaps as they were, or has made one of these changes.
  pub update-UpdatedTo :
      (v : Contents) (o : E)
      → Triple (λ s. view s.world ≡ v) (update st o) (λ r s. UpdatedTo v o r (view s.world))
  unfolding update
  update-UpdatedTo v o =
      Triple-bind _ _ _ (lifted (update_object-Updated st laws codec_laws object_laws v o))
        (λ e s h. h) (λ p. send p.0 p.1)
    where
      UpdatedAt : Result (E × Bool) → Contents → Type 0
      UpdatedAt = Updated st laws codec_laws object_laws v o

      send :
          (o' : E) (written : Bool)
          → Triple
              (λ s. UpdatedAt (ok (o', written)) (view s.world))
              (if written
                then (do enqueue (record { kind = updated; object = o' }); pure o')
                else pure o')
              (λ r s. UpdatedTo v o r (view s.world))
      send o' true =
          announced (λ c. UpdatedAt (ok (o', true)) (view c)) (λ r c. UpdatedTo v o r (view c)) _ o'
            (λ c h. (true, h))
      send o' false = Triple-pure _ λ s h. (false, h)

  abbrev pub DeletedTo : Contents → String → Result (Unit {0}) → Contents → Type 0
  DeletedTo v id (ok u) w =
      (marked : Option E) × Deleted st laws codec_laws object_laws v id (ok marked) w
  DeletedTo v id (err e) w = Deleted st laws codec_laws object_laws v id (err e) w

  -- A Delete removes a stored object that has no finalizers; it marks one that has finalizers, once,
  -- and leaves a marked one as it is. A Delete that returns an error has left the omaps as they were,
  -- or has made one of these changes.
  pub delete-DeletedTo :
      (v : Contents) (id : String)
      → Triple (λ s. view s.world ≡ v) (delete st id) (λ r s. DeletedTo v id r (view s.world))
  unfolding delete enqueue
  delete-DeletedTo v id =
      Triple-bind _ _ _
        (lifted (delete_or_mark-Deleted st laws codec_laws object_laws env_laws v id)) (λ e s h. h)
        send
    where
      DeletedAt : Result (Option E) → Contents → Type 0
      DeletedAt = Deleted st laws codec_laws object_laws v id

      send :
          (marked : Option E)
          → Triple {S = State C E}
              (λ s. DeletedAt (ok marked) (view s.world))
              (elim marked [
                | none ↦ pure tt
                | some obj ↦ enqueue (record { kind = deleted; object = obj })
              ])
              (λ r s. DeletedTo v id r (view s.world))
      send none = Triple-pure _ λ s h. (none, h)
      send (some obj) = record { at = λ s h. (some obj, h) }
