-- ===== src/Omap/Interleaving/Frame.antt =====
-- What a request of internal/omap/omap.go leaves alone: each omap but the store's, and in that each
-- id but its own.
use ceph_provider.Prelude.{
  String, Bool, [], false, Option, none, some, ◌≡◌, refl, ap, ◌∙◌, subst, ◌⊎◌, inl, inr, str_eq,
}
use ceph_provider.Errors.{is, rados_not_found}
use ceph_provider.Exec.{Result, ok, err, lift, pure, fail}
use ceph_provider.Exec.Triple.{
  Triple, Triple-bind, Triple-catch, Triple-if, Triple-pure, Triple-fail,
}
use ceph_provider.Api.{Bytes}
use ceph_provider.Omap.{OmapStore}
use ceph_provider.Omap.Calls.{list}
use ceph_provider.Omap.Laws.{Contents, put, RadosLaws, CodecLaws, EnvLaws, ObjectLaws}
use ceph_provider.Omap.Reads.{Got, Stored, opened}
use ceph_provider.Omap.Writes.{WroteObject, Created}
use ceph_provider.Omap.Updates.{Updated}
use ceph_provider.Omap.Deletes.{Deleted}
use ceph_provider.Omap.WellFormed.{
  put_at, IsWellFormed, Created-IsWellFormed, UpdatedTo-IsWellFormed, DeletedTo-IsWellFormed,
}
use ceph_provider.Omap.Phases.{Request, creates, updates, deletes, Response, request_id, Meets}

-- `w` is `v`, or has another text or none at one key.
abbrev pub OnlyAt : String → Contents → String → Contents → Type 0
OnlyAt name v id w = (w ≡ v) ⊎ ((x : Option Bytes) × (w ≡ put v name id x))

pub OnlyAt-other :
    (name : String) (v w : Contents) (id k : String)
    → OnlyAt name v id w
    → str_eq id k ≡ false
    → w name k ≡ v name k
OnlyAt-other name v w id k (inl q) n = ap (λ (u : Contents). u name k) q
OnlyAt-other name v w id k (inr (x, q)) n =
    ap (λ (u : Contents). u name k) q ∙ put_at v name id k x ∙ rw n refl

module _ {C Io E : Type 0} (st : OmapStore C Io E) {view : C → Contents}
    (laws : RadosLaws st.rados view) (codec_laws : CodecLaws st.codec)
    (object_laws : ObjectLaws st.object) (env_laws : EnvLaws st view) where
  open st use {object, omap_name}

  wrote :
      (v w : Contents) (k : String) (o : E)
      → WroteObject st laws codec_laws v k o w
      → OnlyAt omap_name v k w
  wrote v w k o (b, q, d) = inr (some b, q)

  Got-cong :
      (v w : Contents) (id : String) (r : Result E)
      → w omap_name id ≡ v omap_name id
      → Got st laws v id r
      → Got st laws w id r
  Got-cong v w id (ok o) e (b, h, d) = (b, e ∙ h, d)
  Got-cong v w id (err x) e h = λ nf. e ∙ h nf

  -- What has been found at an id is there in any contents that agree at it.
  pub Got-other :
      (v w : Contents) (id k : String) (r : Result E)
      → OnlyAt omap_name v id w
      → str_eq id k ≡ false
      → Got st laws v k r
      → Got st laws w k r
  Got-other v w id k r only n = Got-cong v w k r (OnlyAt-other omap_name v w id k only n)

  abbrev pub WellFormed : Contents → Type 0
  WellFormed = IsWellFormed st laws codec_laws object_laws env_laws

  -- Delete writes a marked object under the object's own id: that is the id it has been found at.
  same_id :
      (v : Contents) (id : String) (old : E)
      → WellFormed v
      → Stored st laws v id old
      → object.get_id old ≡ id
  unfolding IsWellFormed
  same_id v id old wf (b, h, d) = let (o, d', same) = wf id b h in cc (d, d', same)

  marked :
      (v w : Contents) (id : String) (old o' : E)
      → WellFormed v
      → Stored st laws v id old
      → WroteObject st laws codec_laws v (object.get_id old) o' w
      → OnlyAt omap_name v id w
  marked v w id old o' wf held q =
      subst (λ k. OnlyAt omap_name v k w) (same_id v id old wf held) (wrote v w _ o' q)

  Deleted-OnlyAt :
      (v w : Contents) (id : String) (r : Result (Option E))
      → WellFormed v
      → Deleted st laws codec_laws object_laws v id r w
      → OnlyAt omap_name v id w
  Deleted-OnlyAt v w id (ok none) wf (old, held, inl (_, q)) = inr (none, q)
  Deleted-OnlyAt v w id (ok none) wf (old, held, inr (_, _, q)) = inl q
  Deleted-OnlyAt v w id (ok (some o')) wf (old, held, fs, live, made, q) =
      marked v w id old o' wf held q
  Deleted-OnlyAt v w id (err e) wf (inl q) = inl q
  Deleted-OnlyAt v w id (err e) wf (inr (old, held, inl (_, q))) = inr (none, q)
  Deleted-OnlyAt v w id (err e) wf (inr (old, held, inr (_, _, (t, q)))) =
      marked v w id old _ wf held q

  Updated-OnlyAt :
      (v w : Contents) (o : E) (r : Result (E × Bool))
      → Updated st laws codec_laws object_laws v o r w
      → OnlyAt omap_name v (object.get_id o) w
  Updated-OnlyAt v w o (ok (o', b)) (held, inl (_, _, _, q)) = inr (none, q)
  Updated-OnlyAt v w o (ok (o', b)) (held, inr (_, _, (old, h, same, live, q))) = wrote v w _ _ q
  Updated-OnlyAt v w o (err e) (inl q) = inl q
  Updated-OnlyAt v w o (err e) (inr (inl (_, q))) = inr (none, q)
  Updated-OnlyAt v w o (err e) (inr (inr (old, h, same, live, q))) = wrote v w _ _ q

  Created-OnlyAt :
      (v w : Contents) (o : E) (r : Result E)
      → Created st laws codec_laws env_laws object_laws v o r w
      → OnlyAt omap_name v (object.get_id o) w
  Created-OnlyAt v w o (ok o') (n, made, q) = wrote v w _ o' q
  Created-OnlyAt v w o (err e) (inl q) = inl q
  Created-OnlyAt v w o (err e) (inr (n, (o', same, q))) = wrote v w _ o' q

  pub Meets-OnlyAt :
      (v w : Contents) (q : Request E) (r : Result (Response q))
      → WellFormed v
      → Meets st laws codec_laws object_laws env_laws v q r w
      → OnlyAt omap_name v (request_id st q) w
  Meets-OnlyAt v w (creates o) r wf m = Created-OnlyAt v w o r m
  Meets-OnlyAt v w (updates o) r wf m = Updated-OnlyAt v w o r m
  Meets-OnlyAt v w (deletes id) r wf m = Deleted-OnlyAt v w id r wf m

  pub Meets-IsWellFormed :
      (v w : Contents) (q : Request E) (r : Result (Response q))
      → WellFormed v
      → Meets st laws codec_laws object_laws env_laws v q r w
      → WellFormed w
  Meets-IsWellFormed v w (creates o) r wf m =
      Created-IsWellFormed st laws codec_laws object_laws env_laws v w o r m wf
  Meets-IsWellFormed v w (updates o) (ok (o', b)) wf m =
      UpdatedTo-IsWellFormed st laws codec_laws object_laws env_laws v w o (ok o') (b, m) wf
  Meets-IsWellFormed v w (updates o) (err e) wf m =
      UpdatedTo-IsWellFormed st laws codec_laws object_laws env_laws v w o (err e) m wf
  Meets-IsWellFormed v w (deletes id) (ok marked) wf m =
      DeletedTo-IsWellFormed st laws codec_laws object_laws env_laws v w id (ok tt) (marked, m) wf
  Meets-IsWellFormed v w (deletes id) (err e) wf m =
      DeletedTo-IsWellFormed st laws codec_laws object_laws env_laws v w id (err e) m wf

  pub list_keeps : (v : Contents) → Triple (λ s. view s ≡ v) (list st) (λ r s. view s ≡ v)
  unfolding list lift
  list_keeps v =
      Triple-bind _ _ _ (opened st laws v) (λ e s h. h.0)
        λ io.
          Triple-catch (λ r s. view s ≡ v) _ _ _
            (record { at = λ s h. ((laws.get_reads v io omap_name "").at s h.0).0 })
            (λ e.
              Triple-if (is e rados_not_found) (pure []) (fail e) (λ y. Triple-pure [] λ s h. h)
                (λ n. Triple-fail e λ s h. h))
            (λ m. record { at = λ s h. h })
