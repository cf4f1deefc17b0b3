-- ===== src/Sync/UnlockSteps.antt =====
-- The steps of Unlock of internal/sync/sync.go keep the invariant.
use ceph_provider.Prelude.{
  ℕ, ◌+◌, ◌≤◌, String, true, false, some, List, Map, ◌==◌, ◌≡◌, sym, subst, ◌∙◌, ap, inl, inr,
  arith, lookup, remove, lookup-remove, str_eq, eq_iff, if◌then◌else◌, ==_iff, Bool-cases,
}
use ceph_provider.Sync.{MutexMap, count_down, set_locked}
use ceph_provider.Sync.Threads.{
  Phase, idle, holding, releasing, phase_of, set_phase, tally, tally-set_phase, tally_pos,
}
use ceph_provider.Sync.Invariant.{Inv, uses, owns, IsAttached-after}

module _ (m : MutexMap) (ps : List Phase) (i : ℕ) (inv : Inv m ps) where
  pub unlock_ends-Inv :
      (e : ℕ)
      → phase_of i ps ≡ some (releasing e)
      → Inv (set_locked false e m) (set_phase i idle ps)
  unfolding set_locked
  unlock_ends-Inv e at_i = record {
    counted = λ d. grind (arith, inv.counted d, tally-set_phase (uses d) i _ idle ps at_i);
    owned = λ d. grind (arith, inv.owned d, tally-set_phase (owns d) i _ idle ps at_i, ==_iff e d);
    attached = IsAttached-after m.entries m.entries ps i _ inv.attached tt (λ j p k d h u l. l);
    wanted = λ k d h. grind (arith, inv.wanted k d h);
    distinct = inv.distinct;
    fresh = λ d h. grind (arith, inv.fresh d h, ==_iff e d);
  }

  -- The entry that Unlock finds is the one that its thread holds.
  pub unlock_found :
      (key : String) (e : ℕ) → phase_of i ps ≡ some (holding key e) → lookup key m.entries ≡ some e
  unlock_found key e at_i = inv.attached i _ at_i

  -- The first section of Unlock.
  pub count_down-Inv :
      (key : String) (e : ℕ)
      → phase_of i ps ≡ some (holding key e)
      → Inv (count_down key e m) (set_phase i (releasing e) ps)
  unfolding count_down
  count_down-Inv key e at_i = record {
    counted = λ d. grind (
      arith,
      inv.counted d,
      tally-set_phase (uses d) i _ (releasing e) ps at_i,
      ==_iff e d,
      ==_iff e e,
    );
    owned = λ d.
        grind (arith, inv.owned d, tally-set_phase (owns d) i _ (releasing e) ps at_i, ==_iff e d);
    attached = IsAttached-after m.entries _ ps i _ inv.attached tt kept;
    wanted = λ k d h. wanted_still k d (lost k d h);
    distinct = λ k l d h h'. inv.distinct k l d (lost k d h).0 (lost l d h').0;
    fresh = λ d h. grind (arith, inv.fresh d h, inv.wanted key e found, ==_iff e d);
  }
    where
      found : lookup key m.entries ≡ some e
      found = unlock_found key e at_i

      after : Map ℕ
      after = if (m.heap e).count == 1 then remove key m.entries else m.entries

      -- A key that the map still has is another one, or its count was more than one.
      lost :
          (k : String) (d : ℕ)
          → lookup k after ≡ some d
          → (lookup k m.entries ≡ some d) × ((k ≡ key) → ((m.heap e).count == 1) ≡ false)
      lost k d h = elim (Bool-cases ((m.heap e).count == 1)) [
        | inl y ↦ grind (arith, lookup-remove key k m.entries, eq_iff key k)
        | inr n ↦ grind arith
      ]

      wanted_still :
          (k : String) (d : ℕ)
          → (lookup k m.entries ≡ some d) × ((k ≡ key) → ((m.heap e).count == 1) ≡ false)
          → 1 ≤ ((count_down key e m).heap d).count
      wanted_still k d (h, other) = elim (Bool-cases (e == d)) [
        | inl y ↦
            let q : e ≡ d = (==_iff e d).0 y in
            let more : ((m.heap e).count == 1) ≡ false =
              other (inv.distinct k key e (h ∙ ap (λ x. some x) (sym q)) found) in
            grind (arith, inv.wanted key e found, more)
        | inr n ↦ grind (arith, inv.wanted k d h)
      ]

      kept :
          (j : ℕ) (p : Phase) (k : String) (d : ℕ)
          → phase_of j (set_phase i (releasing e) ps) ≡ some p
          → uses d p ≡ true
          → lookup k m.entries ≡ some d
          → lookup k after ≡ some d
      kept j p k d h u l = elim (Bool-cases (str_eq key k)) [
        | inl y ↦
            let q : d ≡ e = cc ((eq_iff key k).0 y, found, l) in
            let others : 1 ≤ tally (uses e) (set_phase i (releasing e) ps) =
              tally_pos (uses e) j p _ h (subst (λ x. uses x p ≡ true) q u) in
            let left : tally (uses e) (set_phase i (releasing e) ps) + 1 ≡ tally (uses e) ps =
              grind (arith, tally-set_phase (uses e) i _ (releasing e) ps at_i, ==_iff e e) in
            let many : ((m.heap e).count == 1) ≡ false =
              grind (arith, inv.counted e, others, left) in
            grind (arith, many)
        | inr n ↦ grind (arith, lookup-remove key k m.entries)
      ]
