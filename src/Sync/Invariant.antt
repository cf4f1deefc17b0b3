-- ===== src/Sync/Invariant.antt =====
-- What holds of the map of internal/sync/sync.go and its threads after any steps.
use ceph_provider.Prelude.{
  ℕ, zero, suc, ◌≤◌, String, Bool, true, false, some, List, [], Map, ◌==◌, ◌≡◌, refl, sym, subst,
  inl, inr, arith, lookup, if◌then◌else◌, ==_iff,
}
use ceph_provider.Sync.{MutexMap, new_mutex_map}
use ceph_provider.Sync.Threads.{
  Phase, idle, waiting, holding, releasing, phase_of, set_phase, tally, idle_threads,
  phase_of-set_phase,
}

-- A thread that counts in the entry `e`, and one that has its mutex.
abbrev pub uses : ℕ → Phase → Bool
uses e idle = false
uses e (waiting key d) = d == e
uses e (holding key d) = d == e
uses e (releasing d) = false

abbrev pub owns : ℕ → Phase → Bool
owns e idle = false
owns e (waiting key d) = false
owns e (holding key d) = d == e
owns e (releasing d) = d == e

-- The map still has the entry of a thread under its key.
abbrev pub IsAttached : Map ℕ → Phase → Type 0
IsAttached m idle = Unit {0}
IsAttached m (waiting key e) = lookup key m ≡ some e
IsAttached m (holding key e) = lookup key m ≡ some e
IsAttached m (releasing e) = Unit {0}

pub record Inv (m : MutexMap) (ps : List Phase) : Type 0 where
  -- the count is the number of threads that wait for the entry or hold it
  pub counted : (e : ℕ) → (m.heap e).count ≡ tally (uses e) ps
  -- the mutex of an entry is locked by one thread, or free
  pub owned : (e : ℕ) → tally (owns e) ps ≡ (if (m.heap e).locked then 1 else 0)
  pub attached : (i : ℕ) (p : Phase) → phase_of i ps ≡ some p → IsAttached m.entries p
  pub wanted : (key : String) (e : ℕ) → lookup key m.entries ≡ some e → 1 ≤ (m.heap e).count
  pub distinct :
      (k l : String) (e : ℕ) → lookup k m.entries ≡ some e → lookup l m.entries ≡ some e → k ≡ l
  pub fresh : (e : ℕ) → m.next ≤ e → ((m.heap e).count ≡ 0) × ((m.heap e).locked ≡ false)

IsAttached-mono :
    (m n : Map ℕ) (p : Phase)
    → ((key : String) (e : ℕ) → uses e p ≡ true → lookup key m ≡ some e → lookup key n ≡ some e)
    → IsAttached m p
    → IsAttached n p
IsAttached-mono m n idle h a = tt
IsAttached-mono m n (waiting key e) h a = h key e ((==_iff e e).1 refl) a
IsAttached-mono m n (holding key e) h a = h key e ((==_iff e e).1 refl) a
IsAttached-mono m n (releasing e) h a = tt

-- The threads after one has moved are attached, if those before were and the map lost no entry that
-- is in use.
pub IsAttached-after :
    (m n : Map ℕ) (ps : List Phase) (i : ℕ) (q : Phase)
    → ((j : ℕ) (p : Phase) → phase_of j ps ≡ some p → IsAttached m p)
    → IsAttached n q
    → ((j : ℕ) (p : Phase) (key : String) (e : ℕ)
        → phase_of j (set_phase i q ps) ≡ some p
        → uses e p ≡ true
        → lookup key m ≡ some e
        → lookup key n ≡ some e)
    → (j : ℕ) (p : Phase) → phase_of j (set_phase i q ps) ≡ some p
    → IsAttached n p
IsAttached-after m n ps i q before at_q kept j p h = elim (phase_of-set_phase i j q p ps h) [
  | inl e ↦ subst (λ x. IsAttached n x) (sym e) at_q
  | inr old ↦ IsAttached-mono m n p (λ key e. kept j p key e h) (before j p old)
]

tally_idle : (f : Phase → Bool) (n : ℕ) → f idle ≡ false → tally f (idle_threads n) ≡ 0
unfolding tally idle_threads
tally_idle f zero h = refl
tally_idle f (suc n) h = grind (arith, tally_idle f n h)

idle_attached : (n i : ℕ) (p : Phase) → phase_of i (idle_threads n) ≡ some p → p ≡ idle
unfolding phase_of idle_threads
idle_attached zero i p h = absurd (cc h)
idle_attached (suc n) zero p h = cc h
idle_attached (suc n) (suc i) p h = idle_attached n i p h

pub new-Inv : (n : ℕ) → Inv new_mutex_map (idle_threads n)
unfolding lookup
new-Inv n = record {
  counted = λ e. sym (tally_idle (uses e) n refl);
  owned = λ e. tally_idle (owns e) n refl;
  attached = λ i p h. subst (λ x. IsAttached [] x) (sym (idle_attached n i p h)) tt;
  wanted = λ key e h. absurd (cc h);
  distinct = λ k l e h. absurd (cc h);
  fresh = λ e h. (refl, refl);
}
