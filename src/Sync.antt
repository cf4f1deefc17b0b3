-- ===== src/Sync.antt =====
-- internal/sync/sync.go: a mutex for each key, of which only those that some thread wants are kept.
-- The sections of Lock and Unlock under the map's own mutex are one step each, and so are the Lock
-- and the Unlock of an entry's mutex. Entries are allocated: a thread keeps the pointer to the entry
-- that Lock found, while Unlock looks the key up again.

pub mod Threads
pub mod Invariant
pub mod LockSteps
pub mod UnlockSteps
pub mod Exclusion
pub mod Counting
mod Examples
use ceph_provider.Prelude.{
  ℕ, suc, ◌+◌, ◌-◌, String, Bool, true, false, Option, none, some, Map, lookup, insert, remove, [],
  length, ◌==◌, if◌then◌else◌,
}

pub record Entry : Type 0 where
  pub locked : Bool
  pub count : ℕ

-- `heap` has the entries by their addresses, of which those below `next` are in use.
pub record MutexMap : Type 0 where
  pub entries : Map ℕ
  pub heap : ℕ → Entry
  pub next : ℕ

abbrev pub no_entry : Entry
no_entry = record { locked = false; count = 0 }

abbrev pub write_entry : ℕ → Entry → (ℕ → Entry) → ℕ → Entry
write_entry a entry heap e = if a == e then entry else heap e

abbrev pub new_mutex_map : MutexMap
new_mutex_map = record { entries = []; heap = λ e. no_entry; next = 0 }

-- The entry that a lookup gave, or a new one where the map has none.
unfoldable pub entry_or_new : String → MutexMap → Option ℕ → ℕ × MutexMap
entry_or_new key m (some e) = (e, m)
entry_or_new key m none = (
  m.next,
  record m {
    entries = insert key m.next m.entries;
    heap = write_entry m.next no_entry m.heap;
    next = suc m.next;
  },
)

-- entry.count++
unfoldable pub count_up : ℕ → MutexMap → MutexMap
count_up e m = record m {
  heap = write_entry e (record (m.heap e) { count = suc (m.heap e).count }) m.heap;
}

-- Lock up to entry.mu.Lock(), from what the lookup of the key gave: the entry to lock.
unfoldable pub lock_found : String → MutexMap → Option ℕ → ℕ × MutexMap
unfolding entry_or_new count_up
lock_found key m found = let (e, m') = entry_or_new key m found in (e, count_up e m')

unfoldable pub lock_key : String → MutexMap → ℕ × MutexMap
unfolding lock_found
lock_key key m = lock_found key m (lookup key m.entries)

-- entry.count--, and the delete of an entry whose count becomes zero. A count of zero, which Go would
-- take to -1, stays zero here: `Sync.Invariant` is about the counts of the map's entries.
unfoldable pub count_down : String → ℕ → MutexMap → MutexMap
count_down key e m =
    let old = (m.heap e).count in
    record m {
      entries = if old == 1 then remove key m.entries else m.entries;
      heap = write_entry e (record (m.heap e) { count = old - 1 }) m.heap;
    }

-- Unlock up to entry.mu.Unlock(): the entry to unlock; none is the panic on a key without entry.
unfoldable pub unlock_key : String → MutexMap → Option (ℕ × MutexMap)
unfolding count_down
unlock_key key m = elim (lookup key m.entries) [
  | none ↦ none
  | some e ↦ some (e, count_down key e m)
]

-- The state of an entry's own mutex.
unfoldable pub set_locked : Bool → ℕ → MutexMap → MutexMap
set_locked b e m = record m { heap = write_entry e (record (m.heap e) { locked = b }) m.heap }

-- Len and Count
unfoldable pub len : MutexMap → ℕ
len m = length m.entries

unfoldable pub count : MutexMap → String → ℕ
count m key = elim (lookup key m.entries) [ none ↦ 0 | some e ↦ (m.heap e).count ]
