-- ===== src/Exec/Keeps.antt =====
-- Invariants of actions, one rule for each way to build an action.
use ceph_provider.Prelude.{◌≡◌, refl, Bool, true, false, if◌then◌else◌, String}
use ceph_provider.Errors.{Error, wrap}
use ceph_provider.Exec.{
  Exec, Result, ok, err, pure, fail, lift, catch, resume, deferring, annotate, when,
}

-- From a world in `P`, the call `m` leaves one in `P`, with a result or with an error.
pub record Keeps {ℓ} {S A : Type ℓ} (P : S → Type ℓ) (m : Exec S A) : Type ℓ where
  pub after : (before : S) → P before → P (m before).1

module _ {ℓ} {S A : Type ℓ} {P : S → Type ℓ} where
  pub Keeps-if :
      (test : Bool) (then_case else_case : Exec S A)
      → (test ≡ true → Keeps P then_case)
      → (test ≡ false → Keeps P else_case)
      → Keeps P (if test then then_case else else_case)
  Keeps-if true then_case else_case k l = k refl
  Keeps-if false then_case else_case k l = l refl

  pub Keeps-lift : (outcome : Result A) → Keeps P (lift outcome)
  unfolding lift
  Keeps-lift outcome = record { after = λ before held. held }

  pub Keeps-fail : (e : Error) → Keeps P (fail {A = A} e)
  unfolding fail
  Keeps-fail e = record { after = λ before held. held }

  pub Keeps-pure : (value : A) → Keeps P (pure value)
  unfolding pure
  Keeps-pure value = record { after = λ before held. held }

module _ {ℓ} {S A B : Type ℓ} {P : S → Type ℓ} where
  resume-keeps :
      (h : Error → Exec S B) (f : A → Exec S B) (r : Result A) (s : S)
      → ((e : Error) → Keeps P (h e))
      → ((a : A) → Keeps P (f a))
      → P s
      → P (resume h f (r, s)).1
  resume-keeps h f (ok a) s kh kf p = (kf a).after s p
  resume-keeps h f (err e) s kh kf p = (kh e).after s p

  pub Keeps-catch :
      (m : Exec S A) (h : Error → Exec S B) (f : A → Exec S B)
      → Keeps P m
      → ((e : Error) → Keeps P (h e))
      → ((a : A) → Keeps P (f a))
      → Keeps P (catch m h f)
  unfolding catch
  Keeps-catch m h f km kh kf = record {
    after = λ s p. resume-keeps h f (m s).0 (m s).1 kh kf (km.after s p);
  }

  pub Keeps-deferring :
      (cleanup : Exec S B) (m : Exec S A)
      → Keeps P cleanup
      → Keeps P m
      → Keeps P (deferring cleanup m)
  unfolding deferring
  Keeps-deferring cleanup m kc km = record { after = λ s p. kc.after (m s).1 (km.after s p) }

module _ {ℓ} {S A : Type ℓ} {P : S → Type ℓ} where
  pub Keeps-annotate : (text : String) (m : Exec S A) → Keeps P m → Keeps P (annotate text m)
  unfolding annotate
  Keeps-annotate text m km =
      Keeps-catch m (λ e. fail (wrap text e)) pure km (λ e. Keeps-fail _) Keeps-pure

module _ {ℓ} {S : Type ℓ} {P : S → Type ℓ} where
  pub Keeps-when : (b : Bool) (m : Exec S Unit) → (b ≡ true → Keeps P m) → Keeps P (when b m)
  unfolding when
  Keeps-when true m km = km refl
  Keeps-when false m km = Keeps-pure tt

pub ruleset keeps_rules = (
  Keeps-pure, Keeps-fail, Keeps-lift, Keeps-if, Keeps-catch, Keeps-deferring, Keeps-annotate,
  Keeps-when,
)
