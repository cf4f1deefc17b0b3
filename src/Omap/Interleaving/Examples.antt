-- ===== src/Omap/Interleaving/Examples.antt =====
-- Two threads: while one is between the get and the write of an Update of "a", another creates "b".
use ceph_provider.Prelude.{
  inl, inr, Bool-cases, str_eq, eq_iff, ℕ, true, Option, none, some, ◌≡◌, refl, subst, lookup,
  insert,
}
use ceph_provider.Errors.{wrap, sentinel, is, store_not_found}
use ceph_provider.Exec.{ok, err, catch, annotate, lift}
use ceph_provider.Sync.{lock_key, set_locked, new_mutex_map}
use ceph_provider.Sync.Threads.{
  lock_starts, lock_ends, phase_of, set_phase, idle_threads, System, moved, waiting, holding,
}
use ceph_provider.Omap.Memory.{Log, collect, view, memory_laws}
use ceph_provider.Omap.Phases.{updates, creates, read_phase, write_phase, Meets}
use ceph_provider.Omap.Examples.{
  Sample, encode, decode, samples, edited, fresh, stored, start, sample_codec_laws,
  sample_object_laws, sample_env_laws,
}
use ceph_provider.Omap.WellFormed.{IsWellFormed}
use ceph_provider.Omap.Interleaving.{
  Pending, Clients, locks, reads, writes, Interleaved, opens, goes, assign,
}
use ceph_provider.Omap.Interleaving.Frame.{OnlyAt}
use ceph_provider.Omap.Interleaving.Atomic.{write_phase-Atomic}

abbrev at_start : System
at_start = record { locks = new_mutex_map; threads = idle_threads 2 }

abbrev first_waits : System
first_waits = moved 0 (waiting "a" 0) at_start (lock_key "a" at_start.locks).1

abbrev first_holds : System
first_holds = moved 0 (holding "a" 0) first_waits (set_locked true 0 first_waits.locks)

abbrev second_waits : System
second_waits = moved 1 (waiting "b" 1) first_holds (lock_key "b" first_holds.locks).1

abbrev both_hold : System
both_hold = moved 1 (holding "b" 1) second_waits (set_locked true 1 second_waits.locks)

abbrev updating : Pending Unit Sample
updating = record { request = updates edited; io = tt; found = ok stored }

abbrev creating : Pending Unit Sample
creating = record {
  request = creates fresh;
  io = tt;
  found = err (wrap "object with id" (sentinel store_not_found));
}

abbrev nothing : ℕ → Option (Pending Unit Sample)
nothing = assign 1 none (assign 1 none (assign 0 none (assign 0 none λ i. none)))

abbrev both_have_got : Clients Log Unit Sample
both_have_got = record {
  locks = both_hold;
  world = start;
  pending = assign 1 (some creating) (assign 0 (some updating) nothing);
}

abbrev second_has_written : Clients Log Unit Sample
second_has_written = record {
  locks = both_hold;
  world = (write_phase samples creating.request creating.io creating.found start).1;
  pending = assign 1 none both_have_got.pending;
}

both_have_got-Interleaved : Interleaved samples start both_have_got
unfolding lock_key lookup insert phase_of set_phase set_locked idle_threads read_phase catch
    annotate collect lift is
both_have_got-Interleaved =
    goes
      (goes
        (goes
          (goes
            (goes (goes (opens 2) (locks (lock_starts 0 "a" refl)))
              (locks (lock_ends 0 "a" 0 refl refl)))
            (locks (lock_starts 1 "b" refl)))
          (locks (lock_ends 1 "b" 1 refl refl)))
        (reads 0 0 (updates edited) tt (ok stored) start refl refl))
      (reads 1 1 (creates fresh) tt creating.found start refl refl)

start-IsWellFormed :
    IsWellFormed samples memory_laws sample_codec_laws sample_object_laws sample_env_laws
      (view start)
unfolding IsWellFormed
start-IsWellFormed id b h = elim (Bool-cases (str_eq "a" id)) [
  | inl y ↦ (
    stored,
    (let text : encode stored ≡ b = cc (rw y at h) in subst (λ t. decode t ≡ ok stored) text refl),
    (eq_iff "a" id).0 y,
  )
  | inr n ↦ absurd (cc (rw n at h))
]

write_phase-Atomic_example :
    Meets samples memory_laws sample_codec_laws sample_object_laws sample_env_laws
      (view second_has_written.world)
      (updates edited)
      (write_phase samples (updates edited) tt (ok stored) second_has_written.world).0
      (view (write_phase samples (updates edited) tt (ok stored) second_has_written.world).1)
    × OnlyAt "images"
        (view second_has_written.world)
        "a"
        (view (write_phase samples (updates edited) tt (ok stored) second_has_written.world).1)
write_phase-Atomic_example =
    write_phase-Atomic samples memory_laws sample_codec_laws sample_object_laws sample_env_laws
      start second_has_written 0 updating start-IsWellFormed
      (goes both_have_got-Interleaved (writes 1 creating refl)) refl
