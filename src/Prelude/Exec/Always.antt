-- ===== src/Prelude/Exec/Always.antt =====
-- What holds of the state whatever an action answers, a raise included: for code that catches an exception
-- and goes on with what was written before it.
use mathlib.Core.Bool.{Bool}
use money_management_pstu_ha.Prelude.Tests.{if◌then◌else◌}
use mathlib.Core.Bool.{true, false}
use money_management_pstu_ha.Prelude.Result.{Result, ok, err}
use money_management_pstu_ha.Prelude.Exec.{Exec, lift, gets, modify, ◌>>=◌, continue}

pub record Always {ℓ} {S A : Type ℓ} (P : S → Type ℓ) (m : Exec S A) : Type ℓ where
  pub after : (s : S) → P s → P (m s).1

module _ {ℓ} {S A : Type ℓ} {P : S → Type ℓ} where
  pub Always-lift : (r : Result A) → Always P (lift r)
  unfolding lift
  Always-lift r = record { after = λ s h. h }

  pub Always-gets : (f : S → A) → Always P (gets f)
  unfolding gets
  Always-gets f = record { after = λ s h. h }

  pub Always-if :
      (test : Bool) (m n : Exec S A) → Always P m → Always P n → Always P (if test then m else n)
  Always-if true m n km kn = km
  Always-if false m n km kn = kn

module _ {ℓ} {S : Type ℓ} {P : S → Type ℓ} where
  pub Always-modify : (f : S → S) → ((s : S) → P s → P (f s)) → Always P (modify f)
  unfolding modify
  Always-modify f h = record { after = h }

module _ {ℓ} {S A B : Type ℓ} {P : S → Type ℓ} where
  pub Always-bind :
      (m : Exec S A) (f : A → Exec S B)
      → Always P m
      → ((a : A) → Always P (f a))
      → Always P (m >>= f)
  unfolding ◌>>=◌
  Always-bind m f h k = record { after = λ s p. goes_on (m s).0 (m s).1 (h.after s p) }
    where
      goes_on : (r : Result A) (s : S) → P s → P (continue r f s).1
      goes_on (ok a) s p = (k a).after s p
      goes_on (err e) s p = p
