-- ===== src/Omap/Laws.antt =====
-- What the store relies on of rados, of JSON and of the objects, as named laws over the contents of
-- the omaps: the text that each omap has at each key. A write that returns an error may have been
-- applied or not.
use text.Mathlib.Text.{starts_with}
use ceph_provider.Prelude.{
  ℕ, String, true, false, Option, none, some, List, [], ◌∷◌, str_eq, lookup, ◌≡◌, ◌⊎◌, ◌&&◌,
  if◌then◌else◌,
}
use ceph_provider.Errors.{is, store_not_found, rados_not_found}
use ceph_provider.Exec.{Exec, Result, ok, err}
use ceph_provider.Exec.Triple.{Triple}
use ceph_provider.Api.{Bytes}
use ceph_provider.Omap.{Rados, Object, Codec, OmapStore}

abbrev pub Contents : Type 0
Contents = String → String → Option Bytes

-- The contents with `x` at one key of one omap.
abbrev pub put : Contents → String → String → Option Bytes → Contents
put v name key x n k = if str_eq name n && str_eq key k then x else v n k

-- An error that is not the object store's own not-found.
abbrev pub IsForeign {ℓ} : {A : Type ℓ} → Result A → Type 0
IsForeign (ok a) = Unit {0}
IsForeign (err e) = is e store_not_found ≡ false

-- A write of `x`: done if no error came back, done or not if one did.
abbrev pub Wrote {ℓ} :
    {A : Type ℓ} → Contents → String → String → Option Bytes → Result A → Contents → Type 0
Wrote v name key x (ok a) w = w ≡ put v name key x
Wrote v name key x (err e) w = (is e store_not_found ≡ false) × ((w ≡ v) ⊎ (w ≡ put v name key x))

abbrev pub Read : Contents → String → String → Result (List (String × Bytes)) → Type 0
Read v name prefix (ok m) = (k : String) → starts_with k prefix ≡ true → lookup k m ≡ v name k
Read v name prefix (err e) =
    (is e store_not_found ≡ false) × (is e rados_not_found ≡ true → (k : String) → v name k ≡ none)

pub record RadosLaws {C Io : Type 0} (rados : Rados C Io) (view : C → Contents) : Type 0 where
  pub open_keeps :
      (v : Contents) (pool : String)
      → Triple (λ s. view s ≡ v) (rados.open_io_context pool) (λ r s. (view s ≡ v) × IsForeign r)
  pub get_reads :
      (v : Contents) (io : Io) (name prefix : String)
      → Triple
          (λ s. view s ≡ v)
          (rados.get_all_omap_values io name "" prefix)
          (λ r s. (view s ≡ v) × Read v name prefix r)
  pub set_writes :
      (v : Contents) (io : Io) (name key : String) (b : Bytes)
      → Triple
          (λ s. view s ≡ v)
          (rados.set_omap io name ((key, b) ∷ []))
          (λ r s. Wrote v name key (some b) r (view s))
  pub rm_writes :
      (v : Contents) (io : Io) (name key : String)
      → Triple
          (λ s. view s ≡ v)
          (rados.rm_omap_keys io name (key ∷ []))
          (λ r s. Wrote v name key none r (view s))

-- A marshalled object reads back as itself, and JSON's errors are not the store's.
pub record CodecLaws {E : Type 0} (codec : Codec E) : Type 0 where
  pub round_trip : (o : E) (b : Bytes) → codec.marshal o ≡ ok b → codec.unmarshal b ≡ ok o
  pub marshal_foreign : (o : E) → IsForeign (codec.marshal o)
  pub unmarshal_foreign : (b : Bytes) → IsForeign (codec.unmarshal b)

-- The setters keep the id, and only increment_resource_version changes the version.
pub record ObjectLaws {E : Type 0} (object : Object E) : Type 0 where
  pub id-set_deleted_at :
      (t : Option ℕ) (o : E) → object.get_id (object.set_deleted_at t o) ≡ object.get_id o
  pub id-set_created_at :
      (t : ℕ) (o : E) → object.get_id (object.set_created_at t o) ≡ object.get_id o
  pub id-increment : (o : E) → object.get_id (object.increment_resource_version o) ≡ object.get_id o

abbrev pub SameId : {C Io E : Type 0} → OmapStore C Io E → Result E → E → Type 0
SameId st (ok o') o = st.object.get_id o' ≡ st.object.get_id o
SameId st (err e) o = is e store_not_found ≡ false

-- The clock and the create strategy leave the omaps alone, and the strategy keeps the id.
pub record EnvLaws {C Io E : Type 0} (st : OmapStore C Io E) (view : C → Contents) : Type 0 where
  pub now_keeps :
      (v : Contents) → Triple (λ s. view s ≡ v) st.now (λ r s. (view s ≡ v) × IsForeign r)
  pub prepare_keeps :
      (v : Contents) (prepare : E → Exec C E) (o : E)
      → st.create_strategy ≡ some prepare
      → Triple (λ s. view s ≡ v) (prepare o) (λ r s. (view s ≡ v) × SameId st r o)
