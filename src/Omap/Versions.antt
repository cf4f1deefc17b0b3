-- ===== src/Omap/Versions.antt =====
-- What follows from the contract of the store for the clients that share it: a Get after a Create, and
-- updates made from an old version.
use ceph_provider.Prelude.{
  String, false, ◌≡◌, ◌≢◌, ◌⊎◌, refl, sym, subst, ◌∙◌, inl, inr, Bool-cases,
}
use ceph_provider.Errors.{Error, is, store_not_found}
use ceph_provider.Exec.{Exec, Result, ok, err, pure, catch, ◌>>=◌}
use ceph_provider.Exec.Triple.{Triple, Triple-bind, Triple-catch, Triple-pure}
use ceph_provider.Omap.{OmapStore, State, on_world}
use ceph_provider.Omap.Calls.{create, get, update, is_released}
use ceph_provider.Omap.Laws.{Contents, RadosLaws, CodecLaws, EnvLaws, ObjectLaws}
use ceph_provider.Omap.Reads.{Stored, Got, get-Got}
use ceph_provider.Omap.Writes.{WroteObject}
use ceph_provider.Omap.Stale.{
  Failed, Stored-unique, wrote-Stored, update_stale, written_of_ok, written_of_err,
}
use ceph_provider.Omap.Contract.{create-Created, update-UpdatedTo, lifted}

module _ {C Io E : Type 0} (st : OmapStore C Io E) {view : C → Contents}
    (laws : RadosLaws st.rados view) (codec_laws : CodecLaws st.codec)
    (object_laws : ObjectLaws st.object) (env_laws : EnvLaws st view) where
  open st use {object, omap_name, codec}

  -- Both outcomes of an Update and of the Update that follows it, whatever the first has returned.
  abbrev pub both_updates : E → E → Exec (State C E) (Result E × Result E)
  both_updates first second = do
    r1 ← catch (update st first) (λ e. pure (err e)) (λ o'. pure (ok o'))
    catch (update st second) (λ e. pure (r1, err e)) (λ o'. pure (r1, ok o'))

  -- The omaps `v` with what an Update makes of the object.
  abbrev pub Written : Contents → E → Contents → Type 0
  Written v o w =
      WroteObject st laws codec_laws v (object.get_id o) (object.increment_resource_version o) w

  -- The outcomes of two Updates of one version: where the first has succeeded, the second fails and
  -- leaves the omaps with the object of the first; where the first has failed, the second fails too
  -- and none of them or the first is written, or the second is, and the first is not.
  abbrev pub OneWins : Contents → E → E → Result (Result E × Result E) → Contents → Type 0
  OneWins v first second (ok (ok o', r2)) w = Failed r2 × Written v first w
  OneWins v first second (ok (err e, r2)) w =
      (Failed r2 × ((w ≡ v) ⊎ Written v first w)) ⊎ Written v second w
  OneWins v first second (err e) w = ⊥

  module _
      (moves : (o : E)
        → object.get_resource_version (object.increment_resource_version o)
          ≢ object.get_resource_version o)
      (v : Contents) (first second : E) (same_id : object.get_id first ≡ object.get_id second)
      (same_version : object.get_resource_version first ≡ object.get_resource_version second)
      (kept : is_released st first ≡ false) (kept' : is_released st second ≡ false) where
    abbrev After : Result (Result E) → Contents → Type 0
    After (ok (ok o')) w = Written v first w
    After (ok (err e)) w = (w ≡ v) ⊎ Written v first w
    After (err e) w = ⊥

    stale_second :
        (w : Contents)
        → Written v first w
        → Triple (λ s. view s.world ≡ w) (update st second) (λ r s. Failed r × (view s.world ≡ w))
    stale_second w wrote =
        update_stale st laws codec_laws object_laws env_laws w second
          (object.increment_resource_version first)
          (subst (λ k. Stored st laws w k (object.increment_resource_version first)) same_id
            (wrote-Stored st laws codec_laws object_laws env_laws v w (object.get_id first) _
              wrote))
          (λ e. moves first (e ∙ sym same_version)) kept'

    same_written : (w w' : Contents) → Written v first w → w' ≡ w → Written v first w'
    same_written w w' wrote e = subst (λ u. Written v first u) (sym e) wrote

    abbrev second_after : Result E → Exec (State C E) (Result E × Result E)
    second_after r1 = catch (update st second) (λ e. pure (r1, err e)) (λ o2. pure (r1, ok o2))

    -- The first is written, whatever it has returned.
    after_written :
        (w : Contents) (r1 : Result E)
        → Written v first w
        → Triple
            (λ s. view s.world ≡ w)
            (second_after r1)
            (λ r s. OneWins v first second r (view s.world))
    after_written w (ok o') wrote =
        Triple-catch _ _ _ _ (stale_second w wrote)
          (λ e. Triple-pure (ok o', err e) λ s h. (tt, same_written w (view s.world) wrote h.1))
          (λ o2. Triple-pure (ok o', ok o2) λ s h. absurd h.0)
    after_written w (err e) wrote =
        Triple-catch _ _ _ _ (stale_second w wrote)
          (λ e2.
            Triple-pure (err e, err e2)
              λ s h. inl (tt, inr (same_written w (view s.world) wrote h.1)))
          (λ o2. Triple-pure (err e, ok o2) λ s h. absurd h.0)

    after_nothing :
        (e : Error)
        → Triple
            (λ s. view s.world ≡ v)
            (second_after (err e))
            (λ r s. OneWins v first second r (view s.world))
    after_nothing e =
        Triple-catch _ _ _ _ (update-UpdatedTo st laws codec_laws object_laws env_laws v second)
          (λ e2.
            Triple-pure (err e, err e2)
              λ s h.
                elim (written_of_err st laws codec_laws object_laws env_laws v (view s.world) second
                  e2 kept' h) [ inl q ↦ inl (tt, inl q) | inr q ↦ inr q ])
          (λ o2.
            Triple-pure (err e, ok o2)
              λ s h. inr (
                written_of_ok st laws codec_laws object_laws env_laws v (view s.world) second o2
                  kept' h))

    ended :
        (r1 : Result E)
        → Triple
            (λ s. After (ok r1) (view s.world))
            (second_after r1)
            (λ r s. OneWins v first second r (view s.world))
    ended (ok o') = record { at = λ s h. (after_written (view s.world) (ok o') h).at s refl }
    ended (err e) = record {
      at = λ s h. elim h [
        | inl q ↦ (after_nothing e).at s q
        | inr wrote ↦ (after_written (view s.world) (err e) wrote).at s refl
      ];
    }

  -- What a Create followed by a Get of its id returns.
  abbrev pub SameObject : Result (E × Result E) → Type 0
  SameObject (ok (o', ok found)) = found ≡ o'
  SameObject (ok (o', err e)) = is e store_not_found ≡ false
  SameObject (err e) = Unit {0}

  missing :
      (w : Contents) (id : String) (e : Error) (o : E)
      → Stored st laws w id o
      → Got st laws w id (err e)
      → is e store_not_found ≡ false
  missing w id e o (b, p, _) h = elim (Bool-cases (is e store_not_found)) [
    | inl y ↦ absurd (cc (h y, p))
    | inr n ↦ n
  ]

  get-Stored :
      (w : Contents) (id : String) (o : E)
      → Stored st laws w id o
      → Triple
          (λ s. view s.world ≡ w)
          (catch
            (on_world {E = E} (get st id))
            (λ e. pure (o, err e))
            (λ found. pure (o, ok found)))
          (λ r s. SameObject r)
  get-Stored w id o held =
      Triple-catch _ _ _ _ (lifted (get-Got st laws codec_laws w id))
        (λ e. Triple-pure _ λ s h. missing w id e o held h.1)
        (λ found.
          Triple-pure _
            λ s h. Stored-unique st laws codec_laws object_laws env_laws w id found o h.1 held)

  -- A Get after a Create returns the object that the Create returned; where rados or JSON fail, the
  -- error is not the store's not-found.
  pub get-create :
      (v : Contents) (o : E)
      → Triple
          (λ s. view s.world ≡ v)
          (do
            o' ← create st o
            catch
                (on_world {E = E} (get st (object.get_id o)))
                (λ e. pure (o', err e))
                (λ found. pure (o', ok found)))
          (λ r s. SameObject r)
  get-create v o =
      Triple-bind _ _ _ (create-Created st laws codec_laws object_laws env_laws v o) (λ e s h. tt)
        λ o'. record {
          at = λ s h.
              (get-Stored (view s.world) (object.get_id o) o' (
                  wrote-Stored st laws codec_laws object_laws env_laws v (view s.world)
                    (object.get_id o) o' h.2)).at
                s refl;
        }
