-- ===== src/Controllers/Workers.antt =====
-- The loop of a worker ends when the queue shuts down, and gives every item back.
use ceph_provider.Prelude.{
  ℕ, zero, suc, ◌≤◌, ◌<◌, String, Bool, true, false, Option, none, some, ◌≡◌, refl, arith,
  if◌then◌else◌,
}
use ceph_provider.Exec.{Exec, Result, ok, err, pure, catch, deferring, ◌>>◌}
use ceph_provider.Exec.Keeps.{Keeps}
use ceph_provider.Exec.Triple.{
  Triple, Triple-catch, Triple-bind, Triple-pure, Triple-of, Triple-deferring,
}
use ceph_provider.External.{WorkQueue}
use ceph_provider.Controllers.Common.{process_next_work_item}
use ceph_provider.Controllers.Start.{work}

module _ {C : Type 0} (pending held : C → ℕ) where
  -- The queue still gives at most `n` items before it shuts down, and `k` items are taken and not given
  -- back.
  abbrev pub Within : ℕ → ℕ → C → Type 0
  Within n k c = (pending c ≤ n) × (held c ≡ k)

  -- What Get does: it takes an item, or tells the shutdown.
  abbrev pub Took : ℕ → ℕ → Result (Option String) → C → Type 0
  Took n k (err e) c = ⊥
  Took n k (ok none) c = held c ≡ k
  Took zero k (ok (some id)) c = ⊥
  Took (suc n) k (ok (some id)) c = Within n (suc k) c

  abbrev pub Did : {A : Type 0} → ℕ → ℕ → Result A → C → Type 0
  Did n k (ok a) c = Within n k c
  Did n k (err e) c = ⊥

  pub record QueueLaws (queue : WorkQueue C) : Type 0 where
    pub takes : (n k : ℕ) → Triple (Within n k) queue.get (Took n k)
    pub finishes :
        (n k : ℕ) (id : String) → Triple (Within n (suc k)) (queue.finish id) (λ x c. Within n k c)
    pub retries :
        (n k : ℕ) (id : String) → Triple (Within n k) (queue.add_rate_limited id) (Did n k)
    pub forgets : (n k : ℕ) (id : String) → Triple (Within n k) (queue.forget id) (Did n k)

  module _ (queue : WorkQueue C) (laws : QueueLaws queue) (reconcile : String → Exec C Unit)
      (keeps : (n k : ℕ) (id : String) → Keeps (Within n k) (reconcile id)) where
    -- What one round of the loop leaves.
    abbrev Rounded : ℕ → ℕ → Result Bool → C → Type 0
    Rounded n k (err e) c = ⊥
    Rounded n k (ok false) c = held c ≡ k
    Rounded zero k (ok true) c = ⊥
    Rounded (suc n) k (ok true) c = Within n k c

    abbrev IsOn : ℕ → ℕ → Result Bool → C → Type 0
    IsOn n k x c = (x ≡ ok true) × Within n k c

    on :
        (n k : ℕ) {m : Exec C Unit}
        → Triple (Within n k) m (Did n k)
        → Triple (Within n k) (m >> pure true) (IsOn n k)
    on n k t =
        Triple-bind (Did n k) _ _ t (λ e c h. absurd h) (λ u. Triple-pure true (λ c h. (refl, h)))

    handled :
        (n k : ℕ) (id : String)
        → Triple
            (Within n (suc k))
            (deferring (queue.finish id) (
              catch
                (reconcile id)
                (λ e. do queue.add_rate_limited id; pure true)
                (λ u. do queue.forget id; pure true)))
            (IsOn n k)
    handled n k id =
        Triple-deferring (IsOn n (suc k)) _ _
          (Triple-catch (λ x c. Within n (suc k) c) _ _ _
            (record { at = (keeps n (suc k) id).after })
            (λ e. on n (suc k) (laws.retries n (suc k) id))
            (λ u. on n (suc k) (laws.forgets n (suc k) id)))
          λ x. record { at = λ c h. (h.0, (laws.finishes n k id).at c h.1) }

    on-Rounded : (n k : ℕ) (x : Result Bool) (c : C) → IsOn n k x c → Rounded (suc n) k x c
    on-Rounded n k (ok true) c h = h.1
    on-Rounded n k (ok false) c h = absurd (cc (h.0))
    on-Rounded n k (err e) c h = absurd (cc (h.0))

    round :
        (n k : ℕ) (item : Option String)
        → Triple
            (Took n k (ok item))
            (elim item [
              | none ↦ pure false
              | some id ↦ deferring (queue.finish id) (
                  catch
                    (reconcile id)
                    (λ e. do queue.add_rate_limited id; pure true)
                    (λ u. do queue.forget id; pure true))
            ])
            (Rounded n k)
    round n k none = Triple-pure false (λ c h. h)
    round zero k (some id) = record { at = λ c h. absurd h }
    round (suc n) k (some id) = Triple-of _ (handled n k id) (on-Rounded n k)

    process_next_work_item-Rounded :
        (n k : ℕ) → Triple (Within n k) (process_next_work_item queue reconcile) (Rounded n k)
    unfolding process_next_work_item
    process_next_work_item-Rounded n k =
        Triple-bind (Took n k) _ _ (laws.takes n k) (λ e c h. absurd h) (round n k)

    -- The loop of a worker ends, with each item that it has taken given back to the queue, whether its
    -- reconciliation failed or not: where the queue gives at most `n` more items before it shuts down,
    -- in at most `n + 1` rounds.
    pub work_ends :
        (fuel n k : ℕ)
        → n < fuel
        → Triple (Within n k) (work queue reconcile fuel) (λ x c. (x ≡ ok true) × (held c ≡ k))
    unfolding work
    work_ends zero n k h = elim h [ ]
    work_ends (suc fuel) n k h =
        Triple-bind (Rounded n k) _ _ (process_next_work_item-Rounded n k) (λ e c p. absurd p)
          (again (λ m p. work_ends fuel m k p) n h)
      where
        again :
            ((m : ℕ)
              → m < fuel
              → Triple
                  (Within m k)
                  (work queue reconcile fuel)
                  (λ x c. (x ≡ ok true) × (held c ≡ k)))
            → (n : ℕ) → n < suc fuel
            → (b : Bool)
            → Triple
                (Rounded n k (ok b))
                (if b then work queue reconcile fuel else pure true)
                (λ x c. (x ≡ ok true) × (held c ≡ k))
        again ih n h false = Triple-pure true (λ c p. (refl, p))
        again ih zero h true = record { at = λ c p. absurd p }
        again ih (suc n) h true = ih n (omega arith)
