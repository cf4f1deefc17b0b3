-- ===== src/Exec/Triple.antt =====
-- What an action does from a state in `P`: its result, an error or not, and the state that it
-- leaves are in `Q`.
use ceph_provider.Prelude.{◌≡◌, refl, Bool, true, false, if◌then◌else◌, String}
use ceph_provider.Errors.{Error, wrap}
use ceph_provider.Exec.{Exec, Result, ok, err, pure, fail, catch, resume, annotate, deferring}

pub record Triple {ℓ} {S A : Type ℓ} (P : S → Type ℓ) (m : Exec S A) (Q : Result A → S → Type ℓ)
    : Type ℓ where
  pub at : (s : S) → P s → Q (m s).0 (m s).1

module _ {ℓ} {S A : Type ℓ} {P : S → Type ℓ} {Q : Result A → S → Type ℓ} where
  pub Triple-pure : (a : A) → ((s : S) → P s → Q (ok a) s) → Triple P (pure a) Q
  unfolding pure
  Triple-pure a h = record { at = h }

  pub Triple-fail : (e : Error) → ((s : S) → P s → Q (err e) s) → Triple P (fail e) Q
  unfolding fail
  Triple-fail e h = record { at = h }

  pub Triple-if :
      (b : Bool) (m n : Exec S A)
      → (b ≡ true → Triple P m Q)
      → (b ≡ false → Triple P n Q)
      → Triple P (if b then m else n) Q
  Triple-if true m n tm tn = tm refl
  Triple-if false m n tm tn = tn refl

  -- The result is the one of a run from a state in `P`.
  pub Triple-run :
      (m : Exec S A)
      → Triple P m Q
      → Triple P m (λ r s. Q r s × ((before : S) × P before × ((m before).0 ≡ r)))
  Triple-run m t = record { at = λ s p. (t.at s p, (s, p, refl)) }

  pub Triple-of :
      {R : Result A → S → Type ℓ} (m : Exec S A)
      → Triple P m R
      → ((r : Result A) (s : S) → R r s → Q r s)
      → Triple P m Q
  Triple-of m t h = record { at = λ s p. h (m s).0 (m s).1 (t.at s p) }

module _ {ℓ} {S A B : Type ℓ} {Q : Result B → S → Type ℓ} where
  resume_triple :
      (R : Result A → S → Type ℓ) (h : Error → Exec S B) (f : A → Exec S B) (r : Result A) (s : S)
      → ((e : Error) → Triple (R (err e)) (h e) Q)
      → ((a : A) → Triple (R (ok a)) (f a) Q)
      → R r s
      → Q (resume h f (r, s)).0 (resume h f (r, s)).1
  resume_triple R h f (ok a) s th tf p = (tf a).at s p
  resume_triple R h f (err e) s th tf p = (th e).at s p

module _ {ℓ} {S A B : Type ℓ} {P : S → Type ℓ} {Q : Result B → S → Type ℓ} where
  pub Triple-catch :
      (R : Result A → S → Type ℓ) (m : Exec S A) (h : Error → Exec S B) (f : A → Exec S B)
      → Triple P m R
      → ((e : Error) → Triple (R (err e)) (h e) Q)
      → ((a : A) → Triple (R (ok a)) (f a) Q)
      → Triple P (catch m h f) Q
  unfolding catch
  Triple-catch R m h f tm th tf = record {
    at = λ s p. resume_triple R h f (m s).0 (m s).1 th tf (tm.at s p);
  }

  -- The rest of the function where the call returned no error; an error is returned as it is.
  pub Triple-bind :
      (R : Result A → S → Type ℓ) (m : Exec S A) (f : A → Exec S B)
      → Triple P m R
      → ((e : Error) (s : S) → R (err e) s → Q (err e) s)
      → ((a : A) → Triple (R (ok a)) (f a) Q)
      → Triple P (catch m fail f) Q
  unfolding fail
  Triple-bind R m f tm he tf = Triple-catch R m fail f tm (λ e. record { at = he e }) tf

module _ {ℓ} {S A : Type ℓ} {P : S → Type ℓ} {Q : Result A → S → Type ℓ} where
  pub Triple-annotate :
      (R : Result A → S → Type ℓ) (text : String) (m : Exec S A)
      → Triple P m R
      → ((e : Error) (s : S) → R (err e) s → Q (err (wrap text e)) s)
      → ((a : A) (s : S) → R (ok a) s → Q (ok a) s)
      → Triple P (annotate text m) Q
  unfolding annotate
  Triple-annotate R text m tm he ha =
      Triple-catch R m (λ e. fail (wrap text e)) pure tm (λ e. Triple-fail (wrap text e) (he e))
        (λ a. Triple-pure a (ha a))

module _ {ℓ} {S A : Type ℓ} {P : S → Type ℓ} {K : Type ℓ} {Q : Result A → S → Type ℓ} where
  -- A fact that does not depend on the state.
  pub Triple-given : {m : Exec S A} → (K → Triple P m Q) → Triple (λ s. P s × K) m Q
  Triple-given t = record { at = λ s h. (t h.1).at s h.0 }

module _ {ℓ} {S A B : Type ℓ} {P : S → Type ℓ} {Q : Result A → S → Type ℓ} where
  -- The cleanup after the body, whatever the body returned.
  pub Triple-deferring :
      (R : Result A → S → Type ℓ) (cleanup : Exec S B) (m : Exec S A)
      → Triple P m R
      → ((x : Result A) → Triple (R x) cleanup (λ y s. Q x s))
      → Triple P (deferring cleanup m) Q
  unfolding deferring
  Triple-deferring R cleanup m tm tc = record { at = λ s p. (tc (m s).0).at (m s).1 (tm.at s p) }
