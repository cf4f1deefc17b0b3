-- ===== src/Sync/Examples.antt =====
-- Two threads on one key: the first holds it, the second waits.
use ceph_provider.Prelude.{ℕ, String, true, false, some, [], ◌∷◌, ◌≡◌, refl, ◌⊎◌, lookup, insert}
use ceph_provider.Sync.{new_mutex_map, lock_key, unlock_key, count_down, set_locked, count, len}
use ceph_provider.Sync.Threads.{
  System, lock_starts, lock_ends, Reachable, starts, steps, Phase, idle, waiting, holding, phase_of,
  set_phase, idle_threads, tally, moved,
}
use ceph_provider.Sync.Invariant.{owns}
use ceph_provider.Sync.Exclusion.{mutual_exclusion, unlock_total, waiting_progress}
use ceph_provider.Sync.Counting.{wants, count-tally, len_zero}

abbrev at_start : System
at_start = record { locks = new_mutex_map; threads = idle ∷ idle ∷ [] }

abbrev first_waits : System
first_waits =
    moved 0 (waiting "a" (lock_key "a" at_start.locks).0) at_start (lock_key "a" at_start.locks).1

abbrev first_holds : System
first_holds = moved 0 (holding "a" 0) first_waits (set_locked true 0 first_waits.locks)

abbrev second_waits : System
second_waits =
    moved 1 (waiting "a" (lock_key "a" first_holds.locks).0) first_holds
      (lock_key "a" first_holds.locks).1

second_waits-Reachable : Reachable second_waits
unfolding lock_key lookup insert phase_of set_phase set_locked idle_threads
second_waits-Reachable =
    steps (steps (steps (starts 2) (lock_starts 0 "a" refl)) (lock_ends 0 "a" 0 refl refl))
      (lock_starts 1 "a" refl)

mutual_exclusion_example : ◌≡◌ {A = ℕ} 0 0
unfolding phase_of set_phase
mutual_exclusion_example =
    mutual_exclusion second_waits 0 0 "a" 0 0 second_waits-Reachable refl refl

unlock_total_example :
    unlock_key "a" second_waits.locks ≡ some (0, count_down "a" 0 second_waits.locks)
unfolding phase_of set_phase
unlock_total_example = unlock_total second_waits 0 "a" 0 second_waits-Reachable refl

waiting_progress_example :
    ((second_waits.locks.heap 0).locked ≡ false)
    ⊎ ((j : ℕ) × (p : Phase) × (phase_of j second_waits.threads ≡ some p) × (owns 0 p ≡ true))
unfolding phase_of set_phase lock_key lookup insert set_locked
waiting_progress_example = waiting_progress second_waits 1 "a" 0 second_waits-Reachable refl

count-tally_example : count second_waits.locks "a" ≡ tally (wants "a") second_waits.threads
count-tally_example = count-tally second_waits "a" second_waits-Reachable

-- Both count.
count_two : count second_waits.locks "a" ≡ 2
unfolding count lock_key lookup insert set_locked
count_two = refl

at_start-Reachable : Reachable at_start
unfolding idle_threads
at_start-Reachable = starts 2

nobody_wants : (key : String) → tally (wants key) at_start.threads ≡ 0
unfolding tally
nobody_wants key = refl

len_zero_example : len at_start.locks ≡ 0
len_zero_example = len_zero at_start at_start-Reachable nobody_wants
