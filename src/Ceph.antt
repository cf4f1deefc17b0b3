-- ===== src/Ceph.antt =====
-- internal/ceph: the connection to a cluster, the check of its pools and the statistics of a pool.
pub mod Keyring
pub mod Extraction
mod Examples
use ceph_provider.Prelude.{
  ℕ, String, Bool, true, false, Option, none, some, List, [], ◌∷◌, Map, str_eq, str_append, ◌||◌,
  if◌then◌else◌,
}
use ceph_provider.Errors.{new, wrap}
use ceph_provider.Exec.{Exec, Result, ok, err, pure, fail, lift, annotate, ◌>>=◌, ◌>>◌}

pub record Credentials : Type 0 where
  pub monitors : String
  pub user : String
  pub keyfile : String

-- rados.Conn, of which `K` is a handle. `connect` is Connect in its goroutine, raced with the end of
-- the context: none where the context ends first.
pub record Cluster (C K : Type 0) : Type 0 where
  pub new_conn_with_user : String → Exec C K
  pub parse_cmd_line_args : K → List String → Exec C Unit
  pub connect : K → Exec C (Option (Result (Unit {0})))
  pub list_pools : K → Exec C (List String)
  pub mon_command : K → String → Exec C String

-- The statistics that the commands of the program read (int64).
pub record PoolStats : Type 0 where
  pub stored : ℕ
  pub objects : ℕ
  pub kb_used : ℕ
  pub bytes_used : ℕ
  pub max_avail : ℕ

pub record Pool : Type 0 where
  pub name : String
  pub stats : PoolStats

pub record CommandRequest : Type 0 where
  pub prefix : String
  pub detail : String
  pub format : String

-- json.Marshal and json.Unmarshal at the df command; of the reply only the pools are read.
pub record DfJson : Type 0 where
  pub marshal : CommandRequest → Result String
  pub unmarshal : String → Result (List Pool)

abbrev pub df_request : CommandRequest
df_request = record { prefix = "df"; detail = ""; format = "json" }

unfoldable pub has_pool : String → List String → Bool
has_pool pool [] = false
has_pool pool (p ∷ pools) = str_eq p pool || has_pool pool pools

-- The statistics of the first pool with the name.
unfoldable pub stats_of : String → List Pool → Option PoolStats
stats_of name [] = none
stats_of name (pool ∷ pools) =
    if str_eq pool.name name then some pool.stats else stats_of name pools

module _ {C K : Type 0} (cluster : Cluster C K) where
  unfoldable pub connect_to_rados : Credentials → Exec C K
  connect_to_rados c = do
    conn ← annotate "creating a new connection failed" (cluster.new_conn_with_user c.user)
    annotate "parsing cmdline args failed" (
        cluster.parse_cmd_line_args conn
          ("-m" ∷ c.monitors ∷ str_append "--keyfile=" c.keyfile ∷ []))
    raced ← cluster.connect conn
    elim raced [
      | none ↦ fail (new "ceph connect timeout")
      | some outcome ↦ do annotate "connecting failed" (lift outcome); pure conn
    ]

  unfoldable pub check_if_pool_exists : K → String → Exec C Unit
  unfolding has_pool
  check_if_pool_exists conn pool = do
    pools ← annotate "failed to list pools" (cluster.list_pools conn)
    if has_pool pool pools then pure tt else fail (new "pool not found")

  -- PoolStats of the command client of a pool.
  unfoldable pub pool_stats : DfJson → K → String → Exec C PoolStats
  unfolding stats_of
  pool_stats json conn pool_name = do
    req ← annotate "failed to marshal df command request data" (lift (json.marshal df_request))
    resp ← annotate "failed to do df request" (cluster.mon_command conn req)
    pools ← annotate "failed to unmarshal df command request data" (lift (json.unmarshal resp))
    elim (stats_of pool_name pools) [
      | none ↦ fail (new "no pool stats found")
      | some stats ↦ pure stats
    ]
