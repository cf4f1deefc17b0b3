-- ===== src/Sync/Counting.antt =====
-- Len and Count of internal/sync/sync.go against the threads that want a key.
use ceph_provider.Prelude.{
  ℕ, suc, String, Bool, false, none, some, List, [], ◌∷◌, Map, ◌==◌, ◌≡◌, refl, sym, ap, ◌∙◌, inl,
  inr, arith, lookup, str_eq, eq_iff, ==_iff, Bool-cases, Option-cases, length,
}
use ceph_provider.Sync.{MutexMap, len, count}
use ceph_provider.Sync.Threads.{
  System, Reachable, Phase, idle, waiting, holding, releasing, phase_of, tally,
}
use ceph_provider.Sync.Invariant.{Inv, uses, IsAttached}
use ceph_provider.Sync.Exclusion.{Reachable-Inv}

-- A thread that is in Lock of a key, or between its Lock and its Unlock.
abbrev pub wants : String → Phase → Bool
wants key idle = false
wants key (waiting k e) = str_eq k key
wants key (holding k e) = str_eq k key
wants key (releasing e) = false

tally_ext :
    (f g : Phase → Bool) (ps : List Phase)
    → ((i : ℕ) (p : Phase) → phase_of i ps ≡ some p → f p ≡ g p)
    → tally f ps ≡ tally g ps
unfolding tally phase_of
tally_ext f g [] h = refl
tally_ext f g (x ∷ ps) h = grind (arith, h 0 x refl, tally_ext f g ps (λ i p e. h (suc i) p e))

tally_none :
    (f : Phase → Bool) (ps : List Phase)
    → ((i : ℕ) (p : Phase) → phase_of i ps ≡ some p → f p ≡ false)
    → tally f ps ≡ 0
unfolding tally phase_of
tally_none f [] h = refl
tally_none f (x ∷ ps) h = grind (arith, h 0 x refl, tally_none f ps (λ i p e. h (suc i) p e))

module _ (m : MutexMap) (ps : List Phase) (inv : Inv m ps) (key : String) where
  -- The threads that want a key are those that count in its entry.
  same_key :
      (k : String) (d e : ℕ)
      → lookup k m.entries ≡ some d
      → lookup key m.entries ≡ some e
      → (d == e) ≡ str_eq k key
  same_key k d e h found = elim (Bool-cases (str_eq k key)) [
    | inl y ↦ (==_iff d e).1 (cc ((eq_iff k key).0 y, h, found)) ∙ sym y
    | inr n ↦ elim (Bool-cases (d == e)) [
      | inl q ↦ absurd (
          cc (
            (eq_iff k key).1 (inv.distinct k key e (h ∙ ap (λ x. some x) ((==_iff d e).0 q)) found),
            n,
          ))
      | inr q ↦ q ∙ sym n
    ]
  ]

  uses-wants :
      (p : Phase) (e : ℕ)
      → lookup key m.entries ≡ some e
      → IsAttached m.entries p
      → uses e p ≡ wants key p
  uses-wants idle e found a = refl
  uses-wants (waiting k d) e found a = same_key k d e a found
  uses-wants (holding k d) e found a = same_key k d e a found
  uses-wants (releasing d) e found a = refl

  unwanted :
      (p : Phase) → lookup key m.entries ≡ none → IsAttached m.entries p → wants key p ≡ false
  unwanted idle missing a = refl
  unwanted (waiting k d) missing a = elim (Bool-cases (str_eq k key)) [
    | inl y ↦ absurd (cc ((eq_iff k key).0 y, missing, a))
    | inr n ↦ n
  ]
  unwanted (holding k d) missing a = elim (Bool-cases (str_eq k key)) [
    | inl y ↦ absurd (cc ((eq_iff k key).0 y, missing, a))
    | inr n ↦ n
  ]
  unwanted (releasing d) missing a = refl

  count_of-tally : count m key ≡ tally (wants key) ps
  unfolding count
  count_of-tally = elim (Option-cases (lookup key m.entries)) [
    | inl missing ↦
        rw (missing, count)
          (sym (tally_none (wants key) ps (λ i p h. unwanted p missing (inv.attached i p h))))
    | inr (e, found) ↦
        rw (found, count)
          (inv.counted e
            ∙ tally_ext (uses e) (wants key) ps
                (λ i p h. uses-wants p e found (inv.attached i p h)))
  ]

-- Count is the number of threads that wait for the key or hold it.
pub count-tally :
    (s : System) (key : String) → Reachable s → count s.locks key ≡ tally (wants key) s.threads
count-tally s key r = count_of-tally s.locks s.threads (Reachable-Inv s r) key

-- When no thread waits for a key or holds one, the map is empty.
pub len_zero :
    (s : System)
    → Reachable s
    → ((key : String) → tally (wants key) s.threads ≡ 0)
    → len s.locks ≡ 0
unfolding len lookup
len_zero s r h = go s.locks.entries refl
  where
    go : (entries : Map ℕ) → s.locks.entries ≡ entries → length entries ≡ 0
    go [] e = refl
    go ((key, d) ∷ rest) e = absurd (
        omega (
          arith,
          (Reachable-Inv s r).wanted key d found,
          (Reachable-Inv s r).counted d,
          h key,
          tally_ext (uses d) (wants key) s.threads (λ i p at_i.
              uses-wants s.locks s.threads (Reachable-Inv s r) key p d found
                ((Reachable-Inv s r).attached i p at_i)),
        ))
      where
        found : lookup key s.locks.entries ≡ some d
        found = rw e (grind (arith, eq_iff key key))
