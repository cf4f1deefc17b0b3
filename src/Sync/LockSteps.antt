-- ===== src/Sync/LockSteps.antt =====
-- The steps of Lock of internal/sync/sync.go keep the invariant.
use ceph_provider.Prelude.{
  ℕ, suc, ◌<◌, String, true, false, Option, none, some, List, ◌≡◌, refl, sym, ◌⊎◌, inl, inr, arith,
  lookup, insert, lookup-insert, str_eq, eq_iff, if◌then◌else◌, ==_iff, Bool-cases,
}
use ceph_provider.Sync.{MutexMap, no_entry, write_entry, count_up, lock_found, lock_key, set_locked}
use ceph_provider.Sync.Threads.{
  Phase, idle, waiting, holding, phase_of, set_phase, tally-set_phase, tally_pos,
}
use ceph_provider.Sync.Invariant.{Inv, uses, owns, IsAttached-after}

module _ (m : MutexMap) (ps : List Phase) (i : ℕ) (inv : Inv m ps) where
  pub lock_ends-Inv :
      (key : String) (e : ℕ)
      → phase_of i ps ≡ some (waiting key e)
      → (m.heap e).locked ≡ false
      → Inv (set_locked true e m) (set_phase i (holding key e) ps)
  unfolding set_locked
  lock_ends-Inv key e at_i free = record {
    counted =
        λ d. grind (arith, inv.counted d, tally-set_phase (uses d) i _ (holding key e) ps at_i);
    owned = λ d.
        grind
          (arith, inv.owned d, tally-set_phase (owns d) i _ (holding key e) ps at_i, ==_iff e d);
    attached =
        IsAttached-after m.entries m.entries ps i _ inv.attached (inv.attached i _ at_i)
          (λ j p k d h u l. l);
    wanted = λ k d h. grind (arith, inv.wanted k d h);
    distinct = inv.distinct;
    fresh = λ d h. grind (
      arith,
      inv.fresh d h,
      inv.counted e,
      tally_pos (uses e) i _ ps at_i,
      ==_iff e d,
      ==_iff e e,
    );
  }

  -- The first section of Lock, on a key that has an entry.
  lock_found-Inv :
      (key : String) (e : ℕ)
      → phase_of i ps ≡ some idle
      → lookup key m.entries ≡ some e
      → Inv (count_up e m) (set_phase i (waiting key e) ps)
  unfolding count_up
  lock_found-Inv key e at_i found = record {
    counted = λ d.
        grind
          (arith, inv.counted d, tally-set_phase (uses d) i _ (waiting key e) ps at_i, ==_iff e d);
    owned = λ d.
        grind
          (arith, inv.owned d, tally-set_phase (owns d) i _ (waiting key e) ps at_i, ==_iff e d);
    attached = IsAttached-after m.entries m.entries ps i _ inv.attached found (λ j p k d h u l. l);
    wanted = λ k d h. grind (arith, inv.wanted k d h, ==_iff e d);
    distinct = inv.distinct;
    fresh = λ d h. grind (arith, inv.fresh d h, inv.wanted key e found, ==_iff e d);
  }

  -- An entry of the map is in use.
  below_next : (key : String) (e : ℕ) → lookup key m.entries ≡ some e → e < m.next
  below_next key e h = grind (arith, inv.wanted key e h, inv.fresh e)

  abbrev added : String → MutexMap
  added key = count_up m.next (record m {
    entries = insert key m.next m.entries;
    heap = write_entry m.next no_entry m.heap;
    next = suc m.next;
  })

  look_added :
      (key k : String) (d : ℕ)
      → lookup k (insert key m.next m.entries) ≡ some d
      → ((k ≡ key) × (d ≡ m.next)) ⊎ (lookup k m.entries ≡ some d)
  look_added key k d h = elim (Bool-cases (str_eq key k)) [
    | inl y ↦ inl (sym ((eq_iff key k).0 y), cc (rw y at read, h))
    | inr n ↦ inr (cc (rw n at read, h))
  ]
    where
      read :
          lookup k (insert key m.next m.entries)
          ≡ (if str_eq key k then some m.next else lookup k m.entries)
      read = lookup-insert key k m.next m.entries

  lock_added-Inv :
      (key : String)
      → phase_of i ps ≡ some idle
      → lookup key m.entries ≡ none
      → Inv (added key) (set_phase i (waiting key m.next) ps)
  unfolding count_up
  lock_added-Inv key at_i missing = record {
    counted = λ d. grind (
      arith,
      inv.counted d,
      inv.fresh d,
      tally-set_phase (uses d) i _ (waiting key m.next) ps at_i,
      ==_iff m.next d,
      ==_iff m.next m.next,
    );
    owned = λ d. grind (
      arith,
      inv.owned d,
      inv.fresh d,
      tally-set_phase (owns d) i _ (waiting key m.next) ps at_i,
      ==_iff m.next d,
      ==_iff m.next m.next,
    );
    attached =
        IsAttached-after m.entries (insert key m.next m.entries) ps i _ inv.attached (self key)
          (λ j p k d h u l. kept k d l);
    wanted = λ k d h. elim (look_added key k d h) [
      | inl (_, e) ↦ grind (arith, ==_iff m.next d, ==_iff m.next m.next)
      | inr old ↦ grind (arith, inv.wanted k d old, ==_iff m.next d, ==_iff m.next m.next)
    ];
    distinct = λ k l d h h'. pair k l d (look_added key k d h) (look_added key l d h');
    fresh = λ d h. grind (arith, inv.fresh d, ==_iff m.next d);
  }
    where
      self : (k : String) → lookup k (insert k m.next m.entries) ≡ some m.next
      self k = grind (arith, lookup-insert k k m.next m.entries, eq_iff k k)

      kept :
          (k : String) (d : ℕ)
          → lookup k m.entries ≡ some d
          → lookup k (insert key m.next m.entries) ≡ some d
      kept k d l = elim (Bool-cases (str_eq key k)) [
        | inl y ↦ absurd (cc ((eq_iff key k).0 y, missing, l))
        | inr n ↦ cc (rw n at look, l)
      ]
        where
          look :
              lookup k (insert key m.next m.entries)
              ≡ (if str_eq key k then some m.next else lookup k m.entries)
          look = lookup-insert key k m.next m.entries

      pair :
          (k l : String) (d : ℕ)
          → ((k ≡ key) × (d ≡ m.next)) ⊎ (lookup k m.entries ≡ some d)
          → ((l ≡ key) × (d ≡ m.next)) ⊎ (lookup l m.entries ≡ some d)
          → k ≡ l
      pair k l d (inl (p, _)) (inl (q, _)) = cc
      pair k l d (inl (_, e)) (inr h) = absurd (omega (arith, below_next l d h, e))
      pair k l d (inr h) (inl (_, e)) = absurd (omega (arith, below_next k d h, e))
      pair k l d (inr h) (inr h') = inv.distinct k l d h h'

  pub lock_starts-Inv :
      (key : String)
      → phase_of i ps ≡ some idle
      → Inv (lock_key key m).1 (set_phase i (waiting key (lock_key key m).0) ps)
  unfolding lock_key lock_found
  lock_starts-Inv key at_i = go (lookup key m.entries) refl
    where
      go :
          (found : Option ℕ)
          → lookup key m.entries ≡ found
          → Inv (lock_found key m found).1 (set_phase i (waiting key (lock_found key m found).0) ps)
      go none h = lock_added-Inv key at_i h
      go (some e) h = lock_found-Inv key e at_i h
