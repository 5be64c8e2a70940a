-- ===== src/Prelude/Exec.antt =====
-- Code that reads and writes a session's state and may raise. What was written before a raise is still
-- there beside the error; only a transaction that rolls back drops it.
pub mod Ensures
pub mod Always
use mathlib.Core.Path.{◌≡◌, refl}
use mathlib.Core.Bool.{Bool}
use mathlib.Core.Option.{Option, none, some}
use money_management_pstu_ha.Prelude.Tests.{if◌then◌else◌}
use money_management_pstu_ha.Prelude.Result.{Failure, Result, ok, err, to_result, reject_if}

abbrev pub Exec {ℓ} : Type ℓ → Type ℓ → Type ℓ
Exec S A = S → Result A × S

-- `except e: raise f(e)`
abbrev pub reraised {ℓ} : {A : Type ℓ} → (Failure → Failure) → Result A → Result A
reraised f (ok a) = ok a
reraised f (err e) = err (f e)

module _ {ℓ} {S A : Type ℓ} where
  unfoldable pub lift : Result A → Exec S A
  lift r s = (r, s)

  unfoldable pub gets : (S → A) → Exec S A
  gets f s = (ok (f s), s)

  -- What a transaction leaves: an exception undoes every write.
  abbrev pub settle : Result A → S → S → Result A × S
  settle (ok a) after before = (ok a, after)
  settle (err e) after before = (err e, before)

  unfoldable pub reraise_as : (Failure → Failure) → Exec S A → Exec S A
  reraise_as f m s = let (r, s') = m s in (reraised f r, s')

  unfoldable pub atomically : Exec S A → Exec S A
  atomically m s = let (r, s') = m s in settle r s' s

  -- `try: with session.begin_nested(): … except Exception`: the block's answer or error, as a value.
  unfoldable pub savepoint : Exec S A → Exec S (Result A)
  savepoint m s = let (r, s') = atomically m s in (ok r, s')

module _ {ℓ} {S : Type ℓ} where
  unfoldable pub modify : (S → S) → Exec S (Unit {ℓ})
  modify f s = (ok tt, f s)

module _ {ℓ} {S A B : Type ℓ} where
  abbrev pub continue : Result A → (A → Exec S B) → Exec S B
  continue (ok a) f s = f a s
  continue (err e) f s = (err e, s)

  infixl 5 ◌>>=◌ ◌>>◌
  unfoldable pub ◌>>=◌ : Exec S A → (A → Exec S B) → Exec S B
  unfolding lift gets modify
  ◌>>=◌ m f s = let (r, s') = m s in continue r f s'

  abbrev pub ◌>>◌ : Exec S A → Exec S B → Exec S B
  m >> k = m >>= λ _. k

module _ {ℓ} {S A : Type ℓ} where
  abbrev pub pure : A → Exec S A
  pure a = lift (ok a)

  abbrev pub raise : Failure → Exec S A
  raise e = lift (err e)

  abbrev pub require : Option A → Failure → Exec S A
  require o e = lift (to_result o e)

-- `if c: raise e`
abbrev pub raise_if : {S : Type 0} → Bool → Failure → Exec S (Unit {0})
raise_if c e = lift (reject_if c e)

module _ {ℓ} {S A B : Type ℓ} where
  -- `if o is not None: …` with a branch for either answer.
  unfoldable pub option_case : Option A → Exec S B → (A → Exec S B) → Exec S B
  option_case none absent present = absent
  option_case (some a) absent present = present a
