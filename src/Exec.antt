-- ===== src/Exec.antt =====
-- Go functions that change shared state and may return an error. What was written before an
-- error stays written, so that the state comes back beside the error too.
pub mod Keeps
pub mod Triple
use ceph_provider.Prelude.{Bool, true, false, ◌≡◌, refl, String}
use ceph_provider.Errors.{Error, wrap}

pub data Result {ℓ} (A : Type ℓ) : Type ℓ where
  ok : A → Result A
  err : Error → Result A

abbrev pub Exec {ℓ} : Type ℓ → Type ℓ → Type ℓ
Exec S A = S → Result A × S

module _ {ℓ} {S A : Type ℓ} where
  unfoldable pub pure : A → Exec S A
  pure a s = (ok a, s)

  -- return an error
  unfoldable pub fail : Error → Exec S A
  fail e s = (err e, s)

  unfoldable pub lift : Result A → Exec S A
  lift r s = (r, s)

module _ {ℓ} {S A B : Type ℓ} where
  abbrev pub resume : (Error → Exec S B) → (A → Exec S B) → Result A × S → Result B × S
  resume h f (ok a, s) = f a s
  resume h f (err e, s) = h e s

  -- The call `m`, with what follows an error and what follows a result.
  unfoldable pub catch : Exec S A → (Error → Exec S B) → (A → Exec S B) → Exec S B
  catch m h f s = resume h f (m s)

  infixl 10 ◌>>=◌ ◌>>◌
  -- if err != nil { return err }
  abbrev pub ◌>>=◌ : Exec S A → (A → Exec S B) → Exec S B
  ◌>>=◌ m f = catch m fail f

  abbrev pub ◌>>◌ : Exec S A → Exec S B → Exec S B
  m >> n = m >>= λ _. n

  -- `defer`: the cleanup runs after the body, error or not, and its own error is only logged.
  unfoldable pub deferring : Exec S B → Exec S A → Exec S A
  deferring cleanup m s = let (r, s') = m s in (r, (cleanup s').1)

module _ {ℓ} {S A : Type ℓ} where
  -- if err != nil { return fmt.Errorf("...: %w", err) }
  unfoldable pub annotate : String → Exec S A → Exec S A
  unfolding catch pure fail
  annotate text m = catch m (λ e. fail (wrap text e)) pure

module _ {ℓ} {S : Type ℓ} where
  -- if b { m }
  unfoldable pub when : Bool → Exec S Unit → Exec S Unit
  unfolding pure
  when true m = m
  when false m = pure tt
