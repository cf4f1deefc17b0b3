-- ===== src/Omap/Interleaving.antt =====
-- The clients of internal/omap/omap.go at the same time: the steps of Lock and Unlock of `Sync`, the
-- gets and the writes of the requests of their threads, and the reads of Get and List, which take no
-- mutex, in any order.
pub mod Movers
pub mod Frame
pub mod Coherence
pub mod Atomic
mod Examples
use ceph_provider.Prelude.{ℕ, String, Option, none, some, ◌==◌, ◌≡◌, if◌then◌else◌}
use ceph_provider.Exec.{Result, ok, err}
use ceph_provider.Sync.{new_mutex_map}
use ceph_provider.Sync.Threads.{
  System, Step, lock_starts, lock_ends, unlock_starts, unlock_ends, holding, phase_of, idle_threads,
}
use ceph_provider.Omap.{OmapStore}
use ceph_provider.Omap.Calls.{get, list}
use ceph_provider.Omap.Phases.{Request, request_id, read_phase, write_phase}

-- A request that a thread has begun: its io context, and what its get has returned.
pub record Pending (Io E : Type 0) : Type 0 where
  pub request : Request E
  pub io : Io
  pub found : Result E

pub record Clients (C Io E : Type 0) : Type 0 where
  pub locks : System
  pub world : C
  pub pending : ℕ → Option (Pending Io E)

abbrev pub assign : {A : Type 0} → ℕ → A → (ℕ → A) → ℕ → A
assign i x f j = if i == j then x else f j

-- The thread that a step of Lock or Unlock moves.
abbrev pub mover : {s t : System} → Step s t → ℕ
mover (lock_starts i key h) = i
mover (lock_ends i key e h free) = i
mover (unlock_starts i key e d m h found) = i
mover (unlock_ends i e h) = i

module _ {C Io E : Type 0} (st : OmapStore C Io E) where
  abbrev pub pending_id : Pending Io E → String
  pending_id p = request_id st p.request

  -- One step of one thread. A thread gets and writes an object only while it holds the mutex of the
  -- object's id, and writes what follows its own get; at its next step of Lock or Unlock the request
  -- is over, written or not. A get that fails to open the pool ends with its error.
  pub data ClientStep (s : Clients C Io E) : Clients C Io E → Type 0 where
    locks :
        {t : System} (x : Step s.locks t)
        → ClientStep s (record s { locks = t; pending = assign (mover x) none s.pending })
    reads :
        (i e : ℕ) (q : Request E) (io : Io) (r : Result E) (w : C)
        → phase_of i s.locks.threads ≡ some (holding (request_id st q) e)
        → read_phase st (request_id st q) s.world ≡ (ok (io, r), w)
        → ClientStep s (record s {
          world = w;
          pending = assign i (some (record { request = q; io = io; found = r })) s.pending;
        })
    read_fails :
        (i e : ℕ) (key : String)
        → phase_of i s.locks.threads ≡ some (holding key e)
        → ClientStep s (record s { world = (read_phase st key s.world).1 })
    writes :
        (i : ℕ) (p : Pending Io E)
        → s.pending i ≡ some p
        → ClientStep s (record s {
          world = (write_phase st p.request p.io p.found s.world).1;
          pending = assign i none s.pending;
        })
    gets : (id : String) → ClientStep s (record s { world = (get st id s.world).1 })
    lists : ClientStep s (record s { world = (list st s.world).1 })

  -- The clients after any steps of any number of threads, from the world `c`.
  pub data Interleaved (c : C) : Clients C Io E → Type 0 where
    opens :
        (n : ℕ)
        → Interleaved c (record {
          locks = record { locks = new_mutex_map; threads = idle_threads n };
          world = c;
          pending = λ i. none;
        })
    goes : {s t : Clients C Io E} → Interleaved c s → ClientStep s t → Interleaved c t
