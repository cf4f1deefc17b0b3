-- ===== src/Sync/Exclusion.antt =====
-- Lock and Unlock of internal/sync/sync.go as their callers see them, after any steps of any threads.
use ceph_provider.Prelude.{
  ℕ, zero, suc, ◌≤◌, String, Bool, true, false, some, List, [], ◌∷◌, ◌≡◌, refl, subst, ap, ◌⊎◌, inl,
  inr, arith, lookup, ==_iff, Bool-cases,
}
use ceph_provider.Sync.{MutexMap, unlock_key, count_down}
use ceph_provider.Sync.Threads.{
  System, Step, lock_starts, lock_ends, unlock_starts, unlock_ends, Reachable, starts, steps, Phase,
  waiting, holding, releasing, phase_of, tally, tally_pos, set_phase,
}
use ceph_provider.Sync.Invariant.{Inv, owns, new-Inv}
use ceph_provider.Sync.LockSteps.{lock_starts-Inv, lock_ends-Inv}
use ceph_provider.Sync.UnlockSteps.{unlock_ends-Inv, count_down-Inv, unlock_found}

unlock_key_lem :
    (key : String) (e : ℕ) (m : MutexMap)
    → lookup key m.entries ≡ some e
    → unlock_key key m ≡ some (e, count_down key e m)
unfolding unlock_key count_down
unlock_key_lem key e m h = rw (h, unlock_key) refl

Step-Inv : (s t : System) → Inv s.locks s.threads → Step s t → Inv t.locks t.threads
Step-Inv s t inv (lock_starts i key h) = lock_starts-Inv s.locks s.threads i inv key h
Step-Inv s t inv (lock_ends i key e h free) = lock_ends-Inv s.locks s.threads i inv key e h free
Step-Inv s t inv (unlock_ends i e h) = unlock_ends-Inv s.locks s.threads i inv e h
Step-Inv s t inv (unlock_starts i key e d m h found) =
    subst (λ (x : ℕ × MutexMap). Inv x.1 (set_phase i (releasing x.0) s.threads)) same
      (count_down-Inv s.locks s.threads i inv key e h)
  where
    same : ◌≡◌ {A = ℕ × MutexMap} (e, count_down key e s.locks) (d, m)
    same = cc (unlock_key_lem key e s.locks (unlock_found s.locks s.threads i inv key e h), found)

pub Reachable-Inv : (s : System) → Reachable s → Inv s.locks s.threads
Reachable-Inv s (starts n) = new-Inv n
Reachable-Inv t (steps {s = s} r h) = Step-Inv s t (Reachable-Inv s r) h

-- Two threads that a tally of one counts are the same.
tally_one :
    (f : Phase → Bool) (i j : ℕ) (p q : Phase) (ps : List Phase)
    → phase_of i ps ≡ some p
    → phase_of j ps ≡ some q
    → f p ≡ true
    → f q ≡ true
    → tally f ps ≤ 1
    → i ≡ j
unfolding tally phase_of
tally_one f i j p q [] hi hj fp fq le = absurd (cc hi)
tally_one f zero zero p q (x ∷ ps) hi hj fp fq le = refl
tally_one f zero (suc j) p q (x ∷ ps) hi hj fp fq le =
    absurd (grind (arith, tally_pos f j q ps hj fq))
tally_one f (suc i) zero p q (x ∷ ps) hi hj fp fq le =
    absurd (grind (arith, tally_pos f i p ps hi fp))
tally_one f (suc i) (suc j) p q (x ∷ ps) hi hj fp fq le =
    ap suc (tally_one f i j p q ps hi hj fp fq (omega arith))

-- After any interleaving of Lock and Unlock, no two threads are between their Lock and their Unlock
-- of one key.
pub mutual_exclusion :
    (s : System) (i j : ℕ) (key : String) (d e : ℕ)
    → Reachable s
    → phase_of i s.threads ≡ some (holding key d)
    → phase_of j s.threads ≡ some (holding key e)
    → i ≡ j
mutual_exclusion s i j key d e r hi hj =
    tally_one (owns e) i j _ _ s.threads hi hj ((==_iff d e).1 same) ((==_iff e e).1 refl)
      (grind (arith, inv.owned e))
  where
    inv : Inv s.locks s.threads
    inv = Reachable-Inv s r

    same : d ≡ e
    same = cc (inv.attached i _ hi, inv.attached j _ hj)

-- Unlock by a thread that holds the key does not panic: it finds the entry that the thread's Lock
-- had locked.
pub unlock_total :
    (s : System) (i : ℕ) (key : String) (e : ℕ)
    → Reachable s
    → phase_of i s.threads ≡ some (holding key e)
    → unlock_key key s.locks ≡ some (e, count_down key e s.locks)
unlock_total s i key e r h =
    unlock_key_lem key e s.locks (unlock_found s.locks s.threads i (Reachable-Inv s r) key e h)

unowned :
    (f : Phase → Bool) (ps : List Phase)
    → 1 ≤ tally f ps
    → (j : ℕ) × (p : Phase) × (phase_of j ps ≡ some p) × (f p ≡ true)
unfolding tally phase_of
unowned f [] h = absurd (omega (arith, h))
unowned f (x ∷ ps) h = elim (Bool-cases (f x)) [
  | inl y ↦ (0, x, refl, y)
  | inr n ↦ let (j, p, at_j, fp) = unowned f ps (grind arith) in (suc j, p, at_j, fp)
]

-- A thread that waits in Lock may go on, or some other thread has the mutex, which is at its Unlock
-- or in it. A thread takes one key at a time.
pub waiting_progress :
    (s : System) (i : ℕ) (key : String) (e : ℕ)
    → Reachable s
    → phase_of i s.threads ≡ some (waiting key e)
    → ((s.locks.heap e).locked ≡ false)
      ⊎ ((j : ℕ) × (p : Phase) × (phase_of j s.threads ≡ some p) × (owns e p ≡ true))
waiting_progress s i key e r h = elim (Bool-cases (s.locks.heap e).locked) [
  | inl y ↦ inr (unowned (owns e) s.threads (grind (arith, (Reachable-Inv s r).owned e)))
  | inr n ↦ inl n
]
