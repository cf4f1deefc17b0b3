-- ===== src/Omap/WellFormed.antt =====
-- The ids under which internal/omap/omap.go stores its objects, after any calls of its clients.
use text.Mathlib.TextPositions.{eq_refl}
use ceph_provider.Prelude.{
  ℕ, String, Option, none, some, ◌≡◌, refl, sym, subst, ap, ◌∙◌, inl, inr, if◌then◌else◌,
  Bool-cases, eq_iff, str_eq, List, [], ◌∷◌,
}
use ceph_provider.Exec.{Result, ok, err}
use ceph_provider.Api.{Bytes}
use ceph_provider.Omap.{OmapStore, State}
use ceph_provider.Omap.Calls.{create, update, delete}
use ceph_provider.Omap.Laws.{Contents, put, RadosLaws, CodecLaws, EnvLaws, ObjectLaws}
use ceph_provider.Omap.Writes.{WroteObject, Created, id-IsMade}
use ceph_provider.Omap.Updates.{Replaced}
use ceph_provider.Omap.Deletes.{mark}
use ceph_provider.Omap.Contract.{
  create-Created, update-UpdatedTo, delete-DeletedTo, UpdatedTo, DeletedTo,
}

pub put_at :
    (v : Contents) (n i k : String) (x : Option Bytes)
    → put v n i x n k ≡ (if str_eq i k then x else v n k)
put_at v n i k x = rw (eq_refl n)

module _ {C Io E : Type 0} (st : OmapStore C Io E) {view : C → Contents}
    (laws : RadosLaws st.rados view) (codec_laws : CodecLaws st.codec)
    (object_laws : ObjectLaws st.object) (env_laws : EnvLaws st view) where
  open st use {object, omap_name, codec}

  -- Each object is stored under its own id.
  unfoldable pub IsWellFormed : Contents → Type 0
  IsWellFormed v =
      (id : String) (b : Bytes)
      → v omap_name id ≡ some b
      → (o : E) × (codec.unmarshal b ≡ ok o) × (object.get_id o ≡ id)

  WroteObject-IsWellFormed :
      (v w : Contents) (id : String) (o : E)
      → object.get_id o ≡ id
      → WroteObject st laws codec_laws v id o w
      → IsWellFormed v
      → IsWellFormed w
  unfolding IsWellFormed
  WroteObject-IsWellFormed v w id o same (b, p, q) wf k c h = elim (Bool-cases (str_eq id k)) [
    | inl y ↦ (o, cc (rw y at read, q), same ∙ (eq_iff id k).0 y)
    | inr n ↦ wf k c (rw n at read)
  ]
    where
      read : (if str_eq id k then some b else v omap_name k) ≡ some c
      read =
          sym (put_at v omap_name id k (some b)) ∙ sym (ap (λ (u : Contents). u omap_name k) p) ∙ h

  Removed-IsWellFormed :
      (v w : Contents) (id : String) → w ≡ put v omap_name id none → IsWellFormed v → IsWellFormed w
  unfolding IsWellFormed
  Removed-IsWellFormed v w id p wf k c h = elim (Bool-cases (str_eq id k)) [
    | inl y ↦ absurd (cc (rw y at read))
    | inr n ↦ wf k c (rw n at read)
  ]
    where
      read : (if str_eq id k then none else v omap_name k) ≡ some c
      read = sym (put_at v omap_name id k none) ∙ sym (ap (λ (u : Contents). u omap_name k) p) ∙ h

  kept : (v w : Contents) → w ≡ v → IsWellFormed v → IsWellFormed w
  kept v w p wf = subst IsWellFormed (sym p) wf

  pub Created-IsWellFormed :
      (v w : Contents) (o : E) (r : Result E)
      → Created st laws codec_laws env_laws object_laws v o r w
      → IsWellFormed v
      → IsWellFormed w
  Created-IsWellFormed v w o (ok o') (n, made, q) wf =
      WroteObject-IsWellFormed v w _ o'
        (id-IsMade st laws codec_laws env_laws object_laws v o o' made) q wf
  Created-IsWellFormed v w o (err e) (inl q) wf = kept v w q wf
  Created-IsWellFormed v w o (err e) (inr (n, (o', made, q))) wf =
      WroteObject-IsWellFormed v w _ o'
        (id-IsMade st laws codec_laws env_laws object_laws v o o' made) q wf

  Replaced-IsWellFormed :
      (v w : Contents) (o : E)
      → Replaced st laws codec_laws object_laws v o w
      → IsWellFormed v
      → IsWellFormed w
  Replaced-IsWellFormed v w o (old, held, same, live, q) wf =
      WroteObject-IsWellFormed v w _ _ (object_laws.id-increment o) q wf

  pub UpdatedTo-IsWellFormed :
      (v w : Contents) (o : E) (r : Result E)
      → UpdatedTo st laws codec_laws object_laws env_laws v o r w
      → IsWellFormed v
      → IsWellFormed w
  UpdatedTo-IsWellFormed v w o (ok o') (b, (held, inl (_, _, _, q))) wf =
      Removed-IsWellFormed v w _ q wf
  UpdatedTo-IsWellFormed v w o (ok o') (b, (held, inr (_, _, q))) wf =
      Replaced-IsWellFormed v w o q wf
  UpdatedTo-IsWellFormed v w o (err e) (inl q) wf = kept v w q wf
  UpdatedTo-IsWellFormed v w o (err e) (inr (inl (_, q))) wf = Removed-IsWellFormed v w _ q wf
  UpdatedTo-IsWellFormed v w o (err e) (inr (inr q)) wf = Replaced-IsWellFormed v w o q wf

  marked-IsWellFormed :
      (v w : Contents) (old : E) (t : ℕ)
      → WroteObject st laws codec_laws v
          (object.get_id old)
          (mark st laws codec_laws object_laws t old)
          w
      → IsWellFormed v
      → IsWellFormed w
  marked-IsWellFormed v w old t q wf =
      WroteObject-IsWellFormed v w _ _
        (object_laws.id-increment _ ∙ object_laws.id-set_deleted_at (some t) old) q wf

  pub DeletedTo-IsWellFormed :
      (v w : Contents) (id : String) (r : Result Unit)
      → DeletedTo st laws codec_laws object_laws env_laws v id r w
      → IsWellFormed v
      → IsWellFormed w
  DeletedTo-IsWellFormed v w id (ok u) (none, (old, held, inl (_, q))) wf =
      Removed-IsWellFormed v w id q wf
  DeletedTo-IsWellFormed v w id (ok u) (none, (old, held, inr (_, _, q))) wf = kept v w q wf
  DeletedTo-IsWellFormed v w id (ok u) (some o', (old, held, fs, live, (t, made), q)) wf =
      marked-IsWellFormed v w old t
        (subst (λ x. WroteObject st laws codec_laws v (object.get_id old) x w) made q) wf
  DeletedTo-IsWellFormed v w id (err e) (inl q) wf = kept v w q wf
  DeletedTo-IsWellFormed v w id (err e) (inr (old, held, inl (_, q))) wf =
      Removed-IsWellFormed v w id q wf
  DeletedTo-IsWellFormed v w id (err e) (inr (old, held, inr (_, _, (t, q)))) wf =
      marked-IsWellFormed v w old t q wf

  -- A call of a client that changes the store.
  pub data Call : Type 0 where
    creates updates : E → Call
    deletes : String → Call

  abbrev pub after_call : Call → State C E → State C E
  after_call (creates o) s = (create st o s).1
  after_call (updates o) s = (update st o s).1
  after_call (deletes id) s = (delete st id s).1

  pub call-IsWellFormed :
      (c : Call) (s : State C E)
      → IsWellFormed (view s.world)
      → IsWellFormed (view (after_call c s).world)
  call-IsWellFormed (creates o) s wf =
      Created-IsWellFormed (view s.world) (view (create st o s).1.world) o _
        ((create-Created st laws codec_laws object_laws env_laws (view s.world) o).at s refl) wf
  call-IsWellFormed (updates o) s wf =
      UpdatedTo-IsWellFormed (view s.world) (view (update st o s).1.world) o _
        ((update-UpdatedTo st laws codec_laws object_laws env_laws (view s.world) o).at s refl) wf
  call-IsWellFormed (deletes id) s wf =
      DeletedTo-IsWellFormed (view s.world) (view (delete st id s).1.world) id _
        ((delete-DeletedTo st laws codec_laws object_laws env_laws (view s.world) id).at s refl) wf

  abbrev pub after_calls : List Call → State C E → State C E
  after_calls [] s = s
  after_calls (c ∷ cs) s = after_calls cs (after_call c s)

  -- After any calls of the clients, whether they succeed or fail, each object is stored under its
  -- own id, if that was so before.
  pub calls-IsWellFormed :
      (cs : List Call) (s : State C E)
      → IsWellFormed (view s.world)
      → IsWellFormed (view (after_calls cs s).world)
  calls-IsWellFormed [] s wf = wf
  calls-IsWellFormed (c ∷ cs) s wf =
      calls-IsWellFormed cs (after_call c s) (call-IsWellFormed c s wf)
