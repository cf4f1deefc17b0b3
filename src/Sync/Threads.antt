-- ===== src/Sync/Threads.antt =====
-- Threads that call Lock and Unlock of internal/sync/sync.go, and the interleavings of their steps.
use ceph_provider.Prelude.{
  ℕ, zero, suc, ◌+◌, ◌≤◌, ◌⊎◌, inl, inr, String, Bool, true, false, Option, none, some, List, [],
  ◌∷◌, ◌≡◌, arith, if◌then◌else◌,
}
use ceph_provider.Sync.{MutexMap, new_mutex_map, lock_key, unlock_key, set_locked}

-- Outside, before entry.mu.Lock(), between Lock and Unlock, and before entry.mu.Unlock(); with the
-- key and the entry.
pub data Phase : Type 0 where
  idle : Phase
  waiting holding : String → ℕ → Phase
  releasing : ℕ → Phase

unfoldable pub phase_of : ℕ → List Phase → Option Phase
phase_of i [] = none
phase_of zero (p ∷ ps) = some p
phase_of (suc i) (p ∷ ps) = phase_of i ps

unfoldable pub set_phase : ℕ → Phase → List Phase → List Phase
set_phase i q [] = []
set_phase zero q (p ∷ ps) = q ∷ ps
set_phase (suc i) q (p ∷ ps) = p ∷ set_phase i q ps

-- The number of threads with a property.
unfoldable pub tally : (Phase → Bool) → List Phase → ℕ
tally f [] = 0
tally f (p ∷ ps) = (if f p then 1 else 0) + tally f ps

pub record System : Type 0 where
  pub locks : MutexMap
  pub threads : List Phase

abbrev pub moved : ℕ → Phase → System → MutexMap → System
moved i p s m = record { locks = m; threads = set_phase i p s.threads }

-- One step of one thread, which is one call of Lock and the call of Unlock for its key. A goroutine
-- that takes a second key while it holds one is two threads, and its order of calls is among the
-- interleavings of these. The mutex of an entry is locked only where it is free.
pub data Step (s : System) : System → Type 0 where
  lock_starts :
      (i : ℕ) (key : String)
      → phase_of i s.threads ≡ some idle
      → Step s (moved i (waiting key (lock_key key s.locks).0) s (lock_key key s.locks).1)
  lock_ends :
      (i : ℕ) (key : String) (e : ℕ)
      → phase_of i s.threads ≡ some (waiting key e)
      → (s.locks.heap e).locked ≡ false
      → Step s (moved i (holding key e) s (set_locked true e s.locks))
  unlock_starts :
      (i : ℕ) (key : String) (e d : ℕ) (m : MutexMap)
      → phase_of i s.threads ≡ some (holding key e)
      → unlock_key key s.locks ≡ some (d, m)
      → Step s (moved i (releasing d) s m)
  unlock_ends :
      (i e : ℕ)
      → phase_of i s.threads ≡ some (releasing e)
      → Step s (moved i idle s (set_locked false e s.locks))

unfoldable pub idle_threads : ℕ → List Phase
idle_threads zero = []
idle_threads (suc n) = idle ∷ idle_threads n

-- Any number of threads on a new map, after any steps.
pub data Reachable : System → Type 0 where
  starts : (n : ℕ) → Reachable (record { locks = new_mutex_map; threads = idle_threads n })
  steps : {s t : System} → Reachable s → Step s t → Reachable t

-- A step of a thread moves the tallies by that thread alone.
pub tally-set_phase :
    (f : Phase → Bool) (i : ℕ) (p q : Phase) (ps : List Phase)
    → phase_of i ps ≡ some p
    → tally f (set_phase i q ps) + (if f p then 1 else 0) ≡ tally f ps + (if f q then 1 else 0)
unfolding tally phase_of set_phase
tally-set_phase f i p q [] h = absurd (cc h)
tally-set_phase f zero p q (x ∷ ps) h = grind (arith)
tally-set_phase f (suc i) p q (x ∷ ps) h = omega (arith, tally-set_phase f i p q ps h)

pub tally_pos :
    (f : Phase → Bool) (i : ℕ) (p : Phase) (ps : List Phase)
    → phase_of i ps ≡ some p
    → f p ≡ true
    → 1 ≤ tally f ps
unfolding tally phase_of
tally_pos f i p [] h k = absurd (cc h)
tally_pos f zero p (x ∷ ps) h k = grind arith
tally_pos f (suc i) p (x ∷ ps) h k = omega (arith, tally_pos f i p ps h k)

-- A thread has the phase it moved to, or one that some thread had before.
pub phase_of-set_phase :
    (i j : ℕ) (q r : Phase) (ps : List Phase)
    → phase_of j (set_phase i q ps) ≡ some r
    → (r ≡ q) ⊎ (phase_of j ps ≡ some r)
unfolding phase_of set_phase
phase_of-set_phase i j q r [] h = absurd (cc h)
phase_of-set_phase zero zero q r (x ∷ ps) h = inl (cc h)
phase_of-set_phase zero (suc j) q r (x ∷ ps) h = inr h
phase_of-set_phase (suc i) zero q r (x ∷ ps) h = inr h
phase_of-set_phase (suc i) (suc j) q r (x ∷ ps) h = phase_of-set_phase i j q r ps h
