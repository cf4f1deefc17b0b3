-- ===== src/Omap/Examples.antt =====
-- The theorems of the store at small objects and a rados in memory: two names, a version, a mark of
-- deletion (the successor of its time, or zero) and a number of finalizers, as a text of four numbers.
use ceph_provider.Prelude.{
  ℕ, zero, suc, String, Option, none, some, List, [], ◌∷◌, ◌≡◌, refl, subst,
}
use ceph_provider.Errors.{new, is}
use ceph_provider.Exec.{Exec, Result, ok, err, pure, ◌>>=◌, catch}
use ceph_provider.Exec.Triple.{Triple}
use ceph_provider.Api.{Bytes}
use ceph_provider.Omap.{Object, Codec, OmapStore, Hub, on_world}
use ceph_provider.Omap.Calls.{create, update, delete, get}
use ceph_provider.Omap.Laws.{IsForeign, SameId, CodecLaws, EnvLaws, ObjectLaws}
use ceph_provider.Omap.Writes.{Created}
use ceph_provider.Omap.Contract.{
  create-Created, update-UpdatedTo, delete-DeletedTo, UpdatedTo, DeletedTo,
}
use ceph_provider.Omap.Versions.{SameObject, get-create}
use ceph_provider.Omap.WellFormed.{
  IsWellFormed, Call, creates, updates, deletes, after_calls, calls-IsWellFormed,
}
use ceph_provider.Omap.Memory.{Log, view, memory, memory_laws}

pub record Sample : Type 0 where
  name : ℕ
  version : ℕ
  mark : ℕ
  pins : ℕ

abbrev sample_name : ℕ → String
sample_name zero = "a"
sample_name (suc n) = "b"

abbrev pinned : ℕ → List String
pinned zero = []
pinned (suc n) = "f" ∷ pinned n

abbrev marked_at : ℕ → Option ℕ
marked_at zero = none
marked_at (suc t) = some t

abbrev mark_of : Option ℕ → ℕ
mark_of none = 0
mark_of (some t) = suc t

abbrev sample_object : Object Sample
sample_object = record {
  get_id = λ o. sample_name o.name;
  get_finalizers = λ o. pinned o.pins;
  get_deleted_at = λ o. marked_at o.mark;
  set_deleted_at = λ t o. record o { mark = mark_of t };
  set_created_at = λ t o. o;
  get_resource_version = λ o. o.version;
  increment_resource_version = λ o. record o { version = suc o.version };
}

abbrev pub decode : Bytes → Result Sample
decode (a ∷ b ∷ c ∷ d ∷ []) = ok (record { name = a; version = b; mark = c; pins = d })
decode _ = err (new "unexpected end of JSON input")

abbrev pub encode : Sample → Bytes
encode o = o.name ∷ o.version ∷ o.mark ∷ o.pins ∷ []

abbrev sample_codec : Codec Sample
sample_codec = record { marshal = λ o. ok (encode o); unmarshal = decode }

-- A create strategy: one finalizer more.
abbrev pin : Sample → Exec Log Sample
pin o s = (ok (record o { pins = suc o.pins }), s)

abbrev pub samples : OmapStore Log Unit Sample
samples = record {
  rados = memory;
  object = sample_object;
  codec = sample_codec;
  now = λ s. (ok 7, s);
  create_strategy = some pin;
  pool = "pool";
  omap_name = "images";
}

decode-IsForeign : (b : Bytes) → IsForeign (decode b)
unfolding is
decode-IsForeign [] = refl
decode-IsForeign (a ∷ []) = refl
decode-IsForeign (a ∷ b ∷ []) = refl
decode-IsForeign (a ∷ b ∷ c ∷ []) = refl
decode-IsForeign (a ∷ b ∷ c ∷ d ∷ []) = tt
decode-IsForeign (a ∷ b ∷ c ∷ d ∷ e ∷ r) = refl

decode-encode : (o : Sample) (b : Bytes) → ok (encode o) ≡ ok b → decode b ≡ ok o
decode-encode o b h = let e : encode o ≡ b = cc in subst (λ x. decode x ≡ ok o) e refl

pub sample_codec_laws : CodecLaws sample_codec
sample_codec_laws = record {
  round_trip = decode-encode;
  marshal_foreign = λ o. tt;
  unmarshal_foreign = decode-IsForeign;
}

pub sample_object_laws : ObjectLaws sample_object
sample_object_laws = record {
  id-set_deleted_at = λ t o. refl;
  id-set_created_at = λ t o. refl;
  id-increment = λ o. refl;
}

pub sample_env_laws : EnvLaws samples view
sample_env_laws = record {
  now_keeps = λ v. record { at = λ s h. (h, tt) };
  prepare_keeps = λ v prepare o e.
      let same : pin ≡ prepare = cc in
      subst
        (λ (f : Sample → Exec Log Sample).
          Triple (λ s. view s ≡ v) (f o) (λ r s. (view s ≡ v) × SameId samples r o))
        same (record { at = λ s h. (h, refl) });
}

-- Object "a" at version 3, with one finalizer, is stored.
abbrev pub stored : Sample
stored = record { name = 0; version = 3; mark = 0; pins = 1 }

abbrev pub start : Log
start = ("images", "a", some (encode stored)) ∷ []

abbrev pub fresh : Sample
fresh = record { name = 1; version = 0; mark = 0; pins = 0 }

abbrev old : Sample
old = record { name = 0; version = 2; mark = 0; pins = 1 }

abbrev pub edited : Sample
edited = record { name = 0; version = 3; mark = 0; pins = 4 }

create-Created_example :
    Triple
      (λ s. view s.world ≡ view start)
      (create samples fresh)
      (λ r s.
        Created samples memory_laws sample_codec_laws sample_env_laws sample_object_laws
          (view start)
          fresh
          r
          (view s.world))
create-Created_example =
    create-Created samples memory_laws sample_codec_laws sample_object_laws sample_env_laws
      (view start) fresh

update-UpdatedTo_example :
    Triple
      (λ s. view s.world ≡ view start)
      (update samples edited)
      (λ r s.
        UpdatedTo samples memory_laws sample_codec_laws sample_object_laws sample_env_laws
          (view start)
          edited
          r
          (view s.world))
update-UpdatedTo_example =
    update-UpdatedTo samples memory_laws sample_codec_laws sample_object_laws sample_env_laws
      (view start) edited

delete-DeletedTo_example :
    Triple
      (λ s. view s.world ≡ view start)
      (delete samples "a")
      (λ r s.
        DeletedTo samples memory_laws sample_codec_laws sample_object_laws sample_env_laws
          (view start)
          "a"
          r
          (view s.world))
delete-DeletedTo_example =
    delete-DeletedTo samples memory_laws sample_codec_laws sample_object_laws sample_env_laws
      (view start) "a"

get-create_example :
    Triple
      (λ s. view s.world ≡ view start)
      (do
        o' ← create samples fresh
        catch
            (on_world {E = Sample} (get samples "b"))
            (λ e. pure (o', err e))
            (λ found. pure (o', ok found)))
      (λ r s. SameObject samples memory_laws sample_codec_laws sample_object_laws sample_env_laws r)
get-create_example =
    get-create samples memory_laws sample_codec_laws sample_object_laws sample_env_laws (view start)
      fresh

abbrev empty_hub : Hub Sample
empty_hub = record { watches = []; next = 0; receivers = []; delivered = [] }

abbrev script : List (Call samples memory_laws sample_codec_laws sample_object_laws sample_env_laws)
script = creates fresh ∷ updates edited ∷ deletes "a" ∷ []

empty-IsWellFormed :
    IsWellFormed samples memory_laws sample_codec_laws sample_object_laws sample_env_laws (view [])
unfolding IsWellFormed
empty-IsWellFormed id b h = absurd (cc h)

calls-IsWellFormed_example :
    IsWellFormed samples memory_laws sample_codec_laws sample_object_laws sample_env_laws (
      view
        (after_calls samples memory_laws sample_codec_laws sample_object_laws sample_env_laws script
          (record { world = []; hub = empty_hub })).world)
calls-IsWellFormed_example =
    calls-IsWellFormed samples memory_laws sample_codec_laws sample_object_laws sample_env_laws
      script (record { world = []; hub = empty_hub }) empty-IsWellFormed
