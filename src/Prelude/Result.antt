-- ===== src/Prelude/Result.antt =====
-- platform_/kernel/errors.py and the other exceptions that the modelled code raises.
use mathlib.Core.Path.{◌≡◌, refl}
use mathlib.Core.Logic.{◌⊎◌, inl, inr}
use mathlib.Core.Bool.{Bool, true, false}
use mathlib.Core.Option.{Option, none, some}

-- The subclasses of `AppError`, then the exceptions that are no `AppError`. Messages and `details` are
-- left out: no code branches on them.
pub data Failure : Type 0 where
  validation insufficient_funds self_transfer account_inactive currency_mismatch : Failure
  transfer_limit_exceeded daily_limit_exceeded authentication authorization not_found : Failure
  pin_locked conflict idempotency_key_reuse request_in_progress state_conflict : Failure
  rate_limited dependency_unavailable : Failure
  invalid_money unbalanced_posting value_error runtime_error integrity_error key_error : Failure

pub data Result {ℓ} (A : Type ℓ) : Type ℓ where
  ok : A → Result A
  err : Failure → Result A

module _ {ℓ} {A : Type ℓ} where
  abbrev pub to_result : Option A → Failure → Result A
  to_result none e = err e
  to_result (some a) e = ok a

  abbrev pub is_ok : Result A → Bool
  is_ok (ok a) = true
  is_ok (err e) = false

module _ {ℓ κ} {A : Type ℓ} {B : Type κ} where
  infixl 5 ◌>>=◌
  -- Goes on from an answer; an exception is passed on.
  abbrev pub ◌>>=◌ : Result A → (A → Result B) → Result B
  err raised >>= next = err raised
  ok answer >>= next = next answer

abbrev pub guard : Bool → Failure → Result (Unit {0})
guard true e = ok tt
guard false e = err e

abbrev pub reject_if : Bool → Failure → Result (Unit {0})
reject_if true e = err e
reject_if false e = ok tt

infixl 5 ◌>>◌
abbrev pub ◌>>◌ {ℓ} : {B : Type ℓ} → Result (Unit {0}) → Result B → Result B
first >> second = first >>= λ done. second

pub Result-cases {ℓ} :
    {A : Type ℓ} (r : Result A) → ((e : Failure) × (r ≡ err e)) ⊎ ((a : A) × (r ≡ ok a))
Result-cases (ok a) = inr (a, refl)
Result-cases (err e) = inl (e, refl)

pub ok_inj {ℓ} : {A : Type ℓ} (a b : A) → ok a ≡ ok b → a ≡ b
ok_inj a b h = cc
