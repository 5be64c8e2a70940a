-- ===== src/Prelude/Exec/Ensures.antt =====
-- What an action guarantees when it returns: from a state with `P`, a result and a state with `Q`.
-- Nothing is said of a raise, which the enclosing transaction undoes. One rule for each construct.
use mathlib.Core.Path.{◌≡◌, refl}
use mathlib.Core.Bool.{Bool, true, false}
use mathlib.Core.Option.{Option, none, some}
use money_management_pstu_ha.Prelude.Tests.{if◌then◌else◌}
use money_management_pstu_ha.Prelude.Result.{Failure, Result, ok, err, reject_if, guard, to_result}
use money_management_pstu_ha.Prelude.Exec.{
  Exec, lift, gets, modify, settle, atomically, savepoint, ◌>>=◌, continue, option_case,
}

abbrev pub OnReturn {ℓ} : {S A : Type ℓ} → (A → S → Type ℓ) → Result A → S → Type ℓ
OnReturn Q (ok a) s = Q a s
OnReturn Q (err e) s = Unit

pub record Ensures {ℓ} {S A : Type ℓ} (P : S → Type ℓ) (m : Exec S A) (Q : A → S → Type ℓ)
    : Type ℓ where
  pub at : (s : S) → P s → OnReturn Q (m s).0 (m s).1

-- An invariant of an action.
abbrev pub Keeps {ℓ} : {S A : Type ℓ} → (S → Type ℓ) → Exec S A → Type ℓ
Keeps P m = Ensures P m (λ _. P)

module _ {ℓ} {S A B : Type ℓ} {Q : A → S → Type ℓ} {R : B → S → Type ℓ} where
  continue-Ensures :
      (r : Result A) (f : A → Exec S B) (s : S)
      → OnReturn Q r s
      → ((a : A) → Ensures (Q a) (f a) R)
      → OnReturn R (continue r f s).0 (continue r f s).1
  continue-Ensures (ok a) f s h k = (k a).at s h
  continue-Ensures (err e) f s h k = tt

module _ {ℓ} {S A B : Type ℓ} {P : S → Type ℓ} {Q : A → S → Type ℓ} {R : B → S → Type ℓ} where
  pub Ensures-bind :
      (m : Exec S A) (f : A → Exec S B)
      → Ensures P m Q
      → ((a : A) → Ensures (Q a) (f a) R)
      → Ensures P (m >>= f) R
  unfolding ◌>>=◌
  Ensures-bind m f h k = record { at = λ s p. continue-Ensures (m s).0 f (m s).1 (h.at s p) k }

module _ {ℓ} {S A : Type ℓ} {P : S → Type ℓ} {Q : A → S → Type ℓ} where
  pub Ensures-weaken :
      {m : Exec S A} {Q' : A → S → Type ℓ}
      → Ensures P m Q
      → ((a : A) (s : S) → Q a s → Q' a s)
      → Ensures P m Q'
  Ensures-weaken {m} {Q'} h w = record { at = λ s p. on_return (m s).0 (m s).1 (h.at s p) }
    where
      on_return : (r : Result A) (s : S) → OnReturn Q r s → OnReturn Q' r s
      on_return (ok a) s q = w a s q
      on_return (err e) s q = tt

  pub Ensures-and :
      {m : Exec S A} {Q' : A → S → Type ℓ}
      → Ensures P m Q
      → Ensures P m Q'
      → Ensures P m (λ a s. Q a s × Q' a s)
  Ensures-and {m} {Q'} h k = record { at = λ s p. on_return (m s).0 (m s).1 (h.at s p) (k.at s p) }
    where
      on_return :
          (r : Result A) (s : S)
          → OnReturn Q r s
          → OnReturn Q' r s
          → OnReturn (λ a s. Q a s × Q' a s) r s
      on_return (ok a) s q q' = (q, q')
      on_return (err e) s q q' = tt

  -- What an answer was, whatever it depends on.
  pub Ensures-from :
      {m : Exec S A} {P' : S → Type ℓ} → ((s : S) → P' s → P s) → Ensures P m Q → Ensures P' m Q
  Ensures-from w h = record { at = λ s p. h.at s (w s p) }

module _ {ℓ} {S A : Type ℓ} {P : S → Type ℓ} where
  pub Ensures-lift : (r : Result A) → Ensures P (lift r) (λ a s. P s × (r ≡ ok a))
  unfolding lift
  Ensures-lift (ok a) = record { at = λ s h. (h, refl) }
  Ensures-lift (err e) = record { at = λ s h. tt }

  pub Ensures-gets : (f : S → A) → Ensures P (gets f) (λ a s. P s × (a ≡ f s))
  unfolding gets
  Ensures-gets f = record { at = λ s h. (h, refl) }

  pub Keeps-lift : (r : Result A) → Keeps P (lift r)
  unfolding lift
  Keeps-lift (ok a) = record { at = λ s h. h }
  Keeps-lift (err e) = record { at = λ s h. tt }

  pub Keeps-gets : (reads : S → A) → Keeps P (gets reads)
  unfolding gets
  Keeps-gets reads = record { at = λ s held. held }

  pub Ensures-if :
      {Q : A → S → Type ℓ} (test : Bool) (m n : Exec S A)
      → Ensures P m Q
      → Ensures P n Q
      → Ensures P (if test then m else n) Q
  Ensures-if true m n km kn = km
  Ensures-if false m n km kn = kn

  pub Keeps-if :
      (test : Bool) (m n : Exec S A) → Keeps P m → Keeps P n → Keeps P (if test then m else n)
  Keeps-if test m n km kn = Ensures-if test m n km kn

module _ {ℓ} {S : Type ℓ} where
  pub Keeps-modify : {P : S → Type ℓ} (f : S → S) → ((s : S) → P s → P (f s)) → Keeps P (modify f)
  unfolding modify
  Keeps-modify f h = record { at = h }

module _ {ℓ} {S A B : Type ℓ} {P : S → Type ℓ} where
  pub Keeps-bind :
      (first : Exec S A) (next : A → Exec S B)
      → Keeps P first
      → ((answer : A) → Keeps P (next answer))
      → Keeps P (first >>= next)
  Keeps-bind first next h k = Ensures-bind first next h k

  pub Ensures-option_case :
      {Q : B → S → Type ℓ} (o : Option A) (m : Exec S B) (f : A → Exec S B)
      → Ensures P m Q
      → ((a : A) → Ensures P (f a) Q)
      → Ensures P (option_case o m f) Q
  unfolding option_case
  Ensures-option_case none m f km kf = km
  Ensures-option_case (some a) m f km kf = kf a

  pub Keeps-option_case :
      (o : Option A) (m : Exec S B) (f : A → Exec S B)
      → Keeps P m
      → ((a : A) → Keeps P (f a))
      → Keeps P (option_case o m f)
  Keeps-option_case o m f km kf = Ensures-option_case o m f km kf

-- A fact that does not depend on the state.
module _ {ℓ} {S A X : Type ℓ} {P : S → Type ℓ} {Q : A → S → Type ℓ} where
  pub knowing : {m : Exec S A} → (X → Ensures P m Q) → Ensures (λ s. P s × X) m Q
  knowing h = record { at = λ s p. (h p.1).at s p.0 }

-- One step of a block, with its answer at hand for the rest.
module _ {ℓ} {S A B : Type ℓ} {P : S → Type ℓ} {R : B → S → Type ℓ} where
  pub after-lift :
      (r : Result A) (k : A → Exec S B)
      → ((a : A) → r ≡ ok a → Ensures P (k a) R)
      → Ensures P (lift r >>= k) R
  unfolding lift ◌>>=◌
  after-lift (ok a) k h = record { at = (h a refl).at }
  after-lift (err e) k h = record { at = λ s p. tt }

  pub after-gets :
      (f : S → A) (k : A → Exec S B)
      → ((a : A) → Ensures (λ s. P s × (a ≡ f s)) (k a) R)
      → Ensures P (gets f >>= k) R
  after-gets f k h = Ensures-bind (gets f) k (Ensures-gets f) h

module _ {ℓ} {S B : Type ℓ} {P : S → Type ℓ} {R : B → S → Type ℓ} where
  pub after-modify :
      (P' : S → Type ℓ) (f : S → S) (k : Unit → Exec S B)
      → ((s : S) → P s → P' (f s))
      → Ensures P' (k tt) R
      → Ensures P (modify f >>= k) R
  unfolding modify ◌>>=◌
  after-modify P' f k w h = record { at = λ s p. h.at (f s) (w s p) }

module _ {ℓ} {S A : Type ℓ} {P : S → Type ℓ} {Q : A → S → Type ℓ} where
  pub ends-lift :
      (r : Result A) → ((a : A) → r ≡ ok a → (s : S) → P s → Q a s) → Ensures P (lift r) Q
  unfolding lift
  ends-lift (ok a) h = record { at = h a refl }
  ends-lift (err e) h = record { at = λ s p. tt }

module _ {ℓ} {S : Type ℓ} {P : S → Type ℓ} {Q : Unit {ℓ} → S → Type ℓ} where
  pub ends-modify : (f : S → S) → ((s : S) → P s → Q tt (f s)) → Ensures P (modify f) Q
  unfolding modify
  ends-modify f h = record { at = h }

pub reject_if-ok : (c : Bool) (e : Failure) {u : Unit} → reject_if c e ≡ ok u → c ≡ false
reject_if-ok true e h = cc
reject_if-ok false e h = refl

pub guard-ok : (c : Bool) (e : Failure) {u : Unit} → guard c e ≡ ok u → c ≡ true
guard-ok true e h = refl
guard-ok false e h = cc

pub to_result-ok {ℓ} :
    {A : Type ℓ} (o : Option A) (e : Failure) {a : A} → to_result o e ≡ ok a → o ≡ some a
to_result-ok none e h = cc
to_result-ok (some b) e h = cc

pub ruleset keeps_rules = (Keeps-lift, Keeps-gets, Keeps-if, Keeps-bind, Keeps-option_case)

-- A transaction keeps an invariant whatever it answers.
pub atomically-Keeps {ℓ} :
    {S A : Type ℓ} {P : S → Type ℓ} (m : Exec S A)
    → Keeps P m
    → (s : S) → P s
    → P (atomically m s).1
unfolding atomically
atomically-Keeps {S = S} {A = A} {P = P} m keeps s p = settled (m s).0 (m s).1 (keeps.at s p)
  where
    settled : (r : Result A) (s' : S) → OnReturn (λ _. P) r s' → P (settle r s' s).1
    settled (ok a) s' h = h
    settled (err e) s' h = p

pub savepoint-Keeps {ℓ} :
    {S A : Type ℓ} {P : S → Type ℓ} (m : Exec S A) → Keeps P m → Keeps P (savepoint m)
unfolding savepoint
savepoint-Keeps m keeps = record { at = λ s p. atomically-Keeps m keeps s p }

-- Nothing is asked of the answer.
pub Ensures-any {ℓ} : {S A : Type ℓ} {P : S → Type ℓ} {m : Exec S A} → Ensures P m (λ _ _. Unit)
Ensures-any {S = S} {A = A} {P = P} {m = m} = record { at = λ s p. trivially (m s).0 (m s).1 }
  where
    trivially : (r : Result A) (s : S) → OnReturn (λ _ _. Unit) r s
    trivially (ok a) s = tt
    trivially (err e) s = tt

-- All that is known does not depend on the state.
pub given {ℓ} :
    {S A X : Type ℓ} {m : Exec S A} {Q : A → S → Type ℓ}
    → (X → Ensures (λ _. Unit) m Q)
    → Ensures (λ _. X) m Q
given h = record { at = λ s x. (h x).at s tt }
