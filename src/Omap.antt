-- ===== src/Omap.antt =====
-- internal/omap/omap.go: a store of objects in the omap of a rados object, one JSON text for each
-- id. The mutex of an id is held round Create, Delete and Update (`Sync` is about it): a call is one
-- step here, and `Omap.Interleaving` has calls whose steps are interleaved.
pub mod Calls
pub mod Laws
pub mod Reads
pub mod Writes
pub mod Updates
pub mod Deletes
pub mod Contract
pub mod Phases
pub mod Interleaving
pub mod Stale
pub mod Versions
pub mod WellFormed
pub mod Memory
pub mod Watches
mod Examples
mod WatchExamples
use ceph_provider.Prelude.{
  ℕ, suc, String, Bool, true, false, not, Option, none, some, List, [], ◌∷◌, str_eq, ◌==◌, length,
  Map, lookup, if◌then◌else◌, ◌||◌,
}
use ceph_provider.Errors.{
  Error, sentinel, new, wrap, is, store_not_found, already_exists, resource_version_not_latest,
  rados_not_found,
}
use ceph_provider.Exec.{Exec, Result, ok, err, pure, fail, lift, catch, annotate, ◌>>=◌, ◌>>◌}
use ceph_provider.Api.{Bytes}
use ceph_provider.Store.{Store}

-- rados.Conn and rados.IOContext. `get_all_omap_values` has the name of the rados object, the key
-- to start after and the prefix of the keys; the chunk size changes no result.
pub record Rados (C Io : Type 0) : Type 0 where
  pub open_io_context : String → Exec C Io
  pub get_all_omap_values : Io → String → String → String → Exec C (Map Bytes)
  pub rm_omap_keys : Io → String → List String → Exec C Unit
  pub set_omap : Io → String → Map Bytes → Exec C Unit

-- apiutils.Object, with the setters as functions to the changed object.
pub record Object (E : Type 0) : Type 0 where
  pub get_id : E → String
  pub get_finalizers : E → List String
  pub get_deleted_at : E → Option ℕ
  pub set_deleted_at : Option ℕ → E → E
  pub set_created_at : ℕ → E → E
  pub get_resource_version : E → ℕ
  pub increment_resource_version : E → E

-- json.Marshal and json.Unmarshal at the store's type.
pub record Codec (E : Type 0) : Type 0 where
  pub marshal : E → Result Bytes
  pub unmarshal : Bytes → Result E

pub data WatchEventType : Type 0 where
  created updated deleted : WatchEventType

pub record WatchEvent (E : Type 0) : Type 0 where
  pub kind : WatchEventType
  pub object : E

-- The watches of a store, by number. `receivers` are those whose reader waits at the unbuffered
-- channel now; `delivered` is what has been handed to each, latest first.
pub record Hub (E : Type 0) : Type 0 where
  pub watches : List ℕ
  pub next : ℕ
  pub receivers : List ℕ
  pub delivered : List (ℕ × WatchEvent E)

pub record State (C E : Type 0) : Type 0 where
  pub world : C
  pub hub : Hub E

unfoldable pub member : ℕ → List ℕ → Bool
member n [] = false
member n (m ∷ ms) = m == n || member n ms

unfoldable pub without : ℕ → List ℕ → List ℕ
without n [] = []
without n (m ∷ ms) = let rest = without n ms in if m == n then rest else m ∷ rest

module _ {E : Type 0} where
  -- The send to one watch: the select takes its default where no reader waits.
  unfoldable pub offer : WatchEvent E → ℕ → Hub E → Hub E
  unfolding member without
  offer evt handler hub =
      if member handler hub.receivers
      then record hub {
        receivers = without handler hub.receivers;
        delivered = (handler, evt) ∷ hub.delivered;
      }
      else hub

  unfoldable pub offer_all : WatchEvent E → List ℕ → Hub E → Hub E
  unfolding offer
  offer_all evt [] hub = hub
  offer_all evt (handler ∷ handlers) hub = offer_all evt handlers (offer evt handler hub)

  -- Watch and Stop
  unfoldable pub watch : Hub E → ℕ × Hub E
  watch hub = (hub.next, record hub { watches = hub.next ∷ hub.watches; next = suc hub.next })

  unfoldable pub stop : ℕ → Hub E → Hub E
  unfolding without
  stop w hub = record hub { watches = without w hub.watches }

module _ {C E : Type 0} where
  unfoldable pub enqueue : WatchEvent E → Exec (State C E) Unit
  unfolding offer_all
  enqueue evt s = (ok tt, record s { hub = offer_all evt s.hub.watches s.hub })

  unfoldable pub on_world : {A : Type 0} → Exec C A → Exec (State C E) A
  on_world m s = let (r, c) = m s.world in (r, record s { world = c })

pub record OmapStore (C Io E : Type 0) : Type 0 where
  pub rados : Rados C Io
  pub object : Object E
  pub codec : Codec E
  -- time.Now
  pub now : Exec C ℕ
  -- PrepareForCreate, which may draw random numbers
  pub create_strategy : Option (E → Exec C E)
  pub pool : String
  pub omap_name : String

-- New: what it checks of its arguments, none standing for Go's nil.
unfoldable pub check_options :
    {X Y : Type 0} → Option X → String → String → Option Y → Result (Unit {0})
check_options none pool omap_name new_func = err (new "must specify conn")
check_options (some conn) pool omap_name none =
    if str_eq pool ""
    then err (new "must specify pool")
    else if str_eq omap_name ""
    then err (new "must specify opts.OmapName")
    else err (new "must specify opts.NewFunc")
check_options (some conn) pool omap_name (some new_func) =
    if str_eq pool ""
    then err (new "must specify pool")
    else if str_eq omap_name ""
    then err (new "must specify opts.OmapName")
    else ok tt

module _ {C Io E : Type 0} (st : OmapStore C Io E) where
  open st use {rados, object, codec, omap_name}

  unfoldable pub get_single_omap_value : Io → String → Exec C Bytes
  get_single_omap_value io key = do
    omap ← rados.get_all_omap_values io omap_name "" key
    elim (lookup key omap) [ none ↦ fail (sentinel rados_not_found) | some value ↦ pure value ]

  unfoldable pub delete_omap_value : Io → String → Exec C Unit
  delete_omap_value io key =
      annotate "unable to delete mapping omap value" (rados.rm_omap_keys io omap_name (key ∷ []))

  unfoldable pub set_omap_value : Io → String → Bytes → Exec C Unit
  set_omap_value io key value =
      annotate "unable to set omap values" (rados.set_omap io omap_name ((key, value) ∷ []))

  -- set
  unfoldable pub set_object : Io → E → Exec C E
  unfolding set_omap_value
  set_object io obj = do
    text ← annotate "failed to marshal obj" (lift (codec.marshal obj))
    annotate "failed to put os object mapping" (set_omap_value io (object.get_id obj) text)
    pure obj

  -- get
  unfoldable pub get_object : Io → String → Exec C E
  unfolding get_single_omap_value
  get_object io id =
      catch (get_single_omap_value io id)
        (λ e.
          if not (is e rados_not_found)
          then fail (wrap "failed to fetch omap value" e)
          else fail (wrap "object with id" (sentinel store_not_found)))
        (λ text. annotate "failed to unmarshal object" (lift (codec.unmarshal text)))

  -- delete
  unfoldable pub delete_object : Io → String → Exec C Unit
  unfolding delete_omap_value
  delete_object io id = annotate "failed to delete object from omap" (delete_omap_value io id)

  unfoldable pub open_pool : Exec C Io
  open_pool = annotate "unable to get io context" (rados.open_io_context st.pool)
