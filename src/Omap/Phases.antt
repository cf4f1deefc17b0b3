-- ===== src/Omap/Phases.antt =====
-- Create, Delete and Update of internal/omap/omap.go in two parts: the get of the object, and what
-- follows it. Both are between the Lock and the Unlock of the object's id; other calls may come
-- between them.
use ceph_provider.Prelude.{String, Bool, Option, ◌≡◌, refl, fun_ext, inl}
use ceph_provider.Exec.{Exec, Result, ok, err, pure, fail, catch, resume, ◌>>=◌}
use ceph_provider.Exec.Triple.{
  Triple, Triple-bind, Triple-catch, Triple-pure, Triple-fail, Triple-given,
}
use ceph_provider.Omap.{OmapStore, open_pool, get_object}
use ceph_provider.Omap.Calls.{
  create_after, create_object, delete_found, delete_or_mark, update_found, update_object,
}
use ceph_provider.Omap.Laws.{Contents, RadosLaws, CodecLaws, EnvLaws, ObjectLaws}
use ceph_provider.Omap.Reads.{Got, opened, get_object-Got}
use ceph_provider.Omap.Writes.{Created, create_after-Created}
use ceph_provider.Omap.Updates.{Updated, update_found-Updated}
use ceph_provider.Omap.Deletes.{Deleted, delete_found-Deleted}

pub data Request (E : Type 0) : Type 0 where
  creates updates : E → Request E
  deletes : String → Request E

-- What a request returns where it succeeds.
abbrev pub Response : {E : Type 0} → Request E → Type 0
Response {E = E} (creates o) = E
Response {E = E} (updates o) = E × Bool
Response {E = E} (deletes id) = Option E

module _ {C Io E B : Type 0} (k : Io → Result E → Exec C B) where
  resume-read :
      (io : Io) (x : Result E × C)
      → resume fail
          (λ (p : Io × Result E). k p.0 p.1)
          (resume (λ e. pure (io, err e)) (λ o. pure (io, ok o)) x)
        ≡ resume (λ e. k io (err e)) (λ o. k io (ok o)) x
  unfolding pure
  resume-read io (ok o, s) = refl
  resume-read io (err e, s) = refl

  -- A get, and what follows it on either result.
  catch-read :
      (get_in : Io → Exec C E) (x : Result Io × C)
      → resume fail
          (λ (p : Io × Result E). k p.0 p.1)
          (resume fail (λ io. catch (get_in io) (λ e. pure (io, err e)) (λ o. pure (io, ok o))) x)
        ≡ resume fail (λ io. catch (get_in io) (λ e. k io (err e)) (λ o. k io (ok o))) x
  unfolding catch fail
  catch-read get_in (ok io, s) = resume-read io (get_in io s)
  catch-read get_in (err e, s) = refl

module _ {C Io E : Type 0} (st : OmapStore C Io E) where
  open st use {object}

  -- The key of the mutex that a request takes.
  abbrev pub request_id : Request E → String
  request_id (creates o) = object.get_id o
  request_id (updates o) = object.get_id o
  request_id (deletes id) = id

  unfoldable pub read_phase : String → Exec C (Io × Result E)
  unfolding open_pool get_object
  read_phase id = do
    io ← open_pool st
    catch (get_object st io id) (λ e. pure (io, err e)) (λ o. pure (io, ok o))

  unfoldable pub write_phase : (q : Request E) → Io → Result E → Exec C (Response q)
  unfolding create_after update_found delete_found
  write_phase (creates o) io found = create_after st o io found
  write_phase (updates o) io (err e) = fail e
  write_phase (updates o) io (ok old) = update_found st o io old
  write_phase (deletes id) io (err e) = fail e
  write_phase (deletes id) io (ok old) = delete_found st id io old

  abbrev pub whole : (q : Request E) → Exec C (Response q)
  whole (creates o) = create_object st o
  whole (updates o) = update_object st o
  whole (deletes id) = delete_or_mark st id

  -- Each request is its get and then its write phase: one after the other they are the call, with
  -- the same result and the same world, errors included.
  phases : (q : Request E) → (do p ← read_phase (request_id q); write_phase q p.0 p.1) ≡ whole q
  unfolding read_phase write_phase create_object update_object delete_or_mark catch
  phases (creates o) = fun_ext λ s.
      catch-read (write_phase (creates o)) (λ io. get_object st io (object.get_id o))
        (open_pool st s)
  phases (updates o) = fun_ext λ s.
      catch-read (write_phase (updates o)) (λ io. get_object st io (object.get_id o))
        (open_pool st s)
  phases (deletes id) =
      fun_ext
        λ s. catch-read (write_phase (deletes id)) (λ io. get_object st io id) (open_pool st s)

module _ {C Io E : Type 0} (st : OmapStore C Io E) {view : C → Contents}
    (laws : RadosLaws st.rados view) (codec_laws : CodecLaws st.codec)
    (object_laws : ObjectLaws st.object) (env_laws : EnvLaws st view) where
  -- What a request may do to the contents `v`, and return: the contract of the store.
  abbrev pub Meets : Contents → (q : Request E) → Result (Response q) → Contents → Type 0
  Meets v (creates o) r w = Created st laws codec_laws env_laws object_laws v o r w
  Meets v (updates o) r w = Updated st laws codec_laws object_laws v o r w
  Meets v (deletes id) r w = Deleted st laws codec_laws object_laws v id r w

  abbrev pub FoundAt : Contents → String → Result (Io × Result E) → Type 0
  FoundAt v id (ok (io, r)) = Got st laws v id r
  FoundAt v id (err e) = Unit {0}

  pub read_phase-FoundAt :
      (v : Contents) (id : String)
      → Triple (λ s. view s ≡ v) (read_phase st id) (λ r s. (view s ≡ v) × FoundAt v id r)
  unfolding read_phase
  read_phase-FoundAt v id =
      Triple-bind _ _ _ (opened st laws v) (λ e s h. (h.0, tt))
        λ io. Triple-given λ _.
          Triple-catch _ _ _ _ (get_object-Got st laws codec_laws v io id)
            (λ e. Triple-pure _ λ s h. h) (λ o. Triple-pure _ λ s h. h)

  -- The rest of a request does what the contract says, from any contents that have at its id what
  -- its get has found.
  pub write_phase-Meets :
      (v : Contents) (q : Request E) (io : Io) (r : Result E)
      → Got st laws v (request_id st q) r
      → Triple (λ s. view s ≡ v) (write_phase st q io r) (λ r s. Meets v q r (view s))
  unfolding write_phase
  write_phase-Meets v (creates o) io r got =
      create_after-Created st laws codec_laws env_laws object_laws v io o r got
  write_phase-Meets v (updates o) io (err e) got = Triple-fail e λ s h. inl h
  write_phase-Meets v (updates o) io (ok old) got =
      update_found-Updated st laws codec_laws object_laws v io o old got
  write_phase-Meets v (deletes id) io (err e) got = Triple-fail e λ s h. inl h
  write_phase-Meets v (deletes id) io (ok old) got =
      delete_found-Deleted st laws codec_laws object_laws env_laws v io id old got
