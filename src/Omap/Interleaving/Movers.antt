-- ===== src/Omap/Interleaving/Movers.antt =====
-- The steps of `Omap.Interleaving` thread by thread.
use ceph_provider.Prelude.{
  ℕ, zero, suc, false, Option, none, some, List, [], ◌∷◌, ◌==◌, ◌≡◌, refl, inl, inr, Bool-cases,
  arith, ◌⊎◌,
}
use ceph_provider.Sync.Threads.{
  System, Step, lock_starts, lock_ends, unlock_starts, unlock_ends, Phase, phase_of, set_phase,
}
use ceph_provider.Omap.Interleaving.{assign, mover}

phase_of-other :
    (i j : ℕ) (q : Phase) (ps : List Phase)
    → (i == j) ≡ false
    → phase_of j (set_phase i q ps) ≡ phase_of j ps
unfolding phase_of set_phase
phase_of-other i j q [] n = refl
phase_of-other zero zero q (p ∷ ps) n = absurd (ground arith)
phase_of-other zero (suc j) q (p ∷ ps) n = refl
phase_of-other (suc i) zero q (p ∷ ps) n = refl
phase_of-other (suc i) (suc j) q (p ∷ ps) n = phase_of-other i j q ps (ground arith)

-- A step of Lock or Unlock moves its thread alone.
pub phase_of-mover :
    {s t : System} (x : Step s t) (j : ℕ)
    → (mover x == j) ≡ false
    → phase_of j t.threads ≡ phase_of j s.threads
phase_of-mover {s = s} (lock_starts i key h) j n = phase_of-other i j _ s.threads n
phase_of-mover {s = s} (lock_ends i key e h free) j n = phase_of-other i j _ s.threads n
phase_of-mover {s = s} (unlock_starts i key e d m h found) j n = phase_of-other i j _ s.threads n
phase_of-mover {s = s} (unlock_ends i e h) j n = phase_of-other i j _ s.threads n

-- A value that is assigned nothing at `i` stands at another place.
pub assign-none :
    {A : Type 0} (i j : ℕ) (f : ℕ → Option A) (a : A)
    → assign i none f j ≡ some a
    → ((i == j) ≡ false) × (f j ≡ some a)
assign-none i j f a h = elim (Bool-cases (i == j)) [
  | inl y ↦ absurd (cc (rw y at h))
  | inr n ↦ (n, rw n at h)
]

-- A value that is assigned at `i` is there, and elsewhere what was there before.
pub assign-some :
    {A : Type 0} (i j : ℕ) (f : ℕ → Option A) (a b : A)
    → assign i (some b) f j ≡ some a
    → ((i ≡ j) × (a ≡ b)) ⊎ (f j ≡ some a)
assign-some i j f a b h = elim (Bool-cases (i == j)) [
  | inl y ↦ inl (ground arith, cc (rw y at h))
  | inr n ↦ inr (rw n at h)
]
