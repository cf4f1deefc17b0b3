-- ===== src/Omap/Memory.antt =====
-- A rados in memory that meets the laws of `Omap.Laws`, so that they are known to be satisfiable.
-- Each omap is a log of writes, the latest first, of a text or of a removal.
use text.Mathlib.Text.{starts_with}
use ceph_provider.Prelude.{
  String, true, Option, none, some, List, [], ◌∷◌, Map, ◌≡◌, refl, ap, arith, lookup, remove,
  lookup-remove, str_eq, eq_iff, ◌&&◌, if◌then◌else◌, ◌∙◌,
}
use ceph_provider.Exec.{ok}
use ceph_provider.Api.{Bytes}
use ceph_provider.Omap.{Rados}
use ceph_provider.Omap.Laws.{Contents, put, RadosLaws}

abbrev pub Log : Type 0
Log = List (String × String × Option Bytes)

abbrev pub view : Log → Contents
view [] n k = none
view ((name, key, x) ∷ log) n k = if str_eq name n && str_eq key k then x else view log n k

place : String → Option Bytes → Map Bytes → Map Bytes
place k none m = remove k m
place k (some b) m = (k, b) ∷ m

unfoldable pub collect : String → String → Log → Map Bytes
unfolding place remove
collect n prefix [] = []
collect n prefix ((name, key, x) ∷ log) =
    let rest = collect n prefix log in
    if str_eq name n && starts_with key prefix then place key x rest else rest

lookup-place :
    (k j : String) (x : Option Bytes) (m : Map Bytes)
    → lookup j (place k x m) ≡ (if str_eq k j then x else lookup j m)
unfolding place lookup
lookup-place k j none m = lookup-remove k j m
lookup-place k j (some b) m = refl

lookup-collect :
    (log : Log) (n prefix k : String)
    → starts_with k prefix ≡ true
    → lookup k (collect n prefix log) ≡ view log n k
unfolding collect lookup
lookup-collect [] n prefix k h = refl
lookup-collect ((name, key, x) ∷ log) n prefix k h = ground (
  arith,
  lookup-place key k x (collect n prefix log),
  lookup-collect log n prefix k h,
  eq_iff key k,
)

unfoldable pub log_keys : String → List String → Log → Log
log_keys name [] log = log
log_keys name (k ∷ ks) log = log_keys name ks ((name, k, none) ∷ log)

unfoldable pub log_entries : String → Map Bytes → Log → Log
log_entries name [] log = log
log_entries name ((k, b) ∷ m) log = log_entries name m ((name, k, some b) ∷ log)

abbrev pub memory : Rados Log Unit
memory = record {
  open_io_context = λ pool s. (ok tt, s);
  get_all_omap_values = λ io name after prefix s. (ok (collect name prefix s), s);
  rm_omap_keys = λ io name keys s. (ok tt, log_keys name keys s);
  set_omap = λ io name entries s. (ok tt, log_entries name entries s);
}

pub memory_laws : RadosLaws memory view
unfolding log_keys log_entries
memory_laws = record {
  open_keeps = λ v pool. record { at = λ s h. (h, tt) };
  get_reads = λ v io name prefix. record {
    at = λ s h. (h, λ k p. lookup-collect s name prefix k p ∙ ap (λ (u : Contents). u name k) h);
  };
  set_writes =
      λ v io name key b. record { at = λ s h. ap (λ (u : Contents). put u name key (some b)) h };
  rm_writes = λ v io name key. record { at = λ s h. ap (λ (u : Contents). put u name key none) h };
}
