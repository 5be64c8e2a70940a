-- ===== src/Prelude/Lists.antt =====
-- Lists as table contents: the first row that passes a test, the number of such rows, rewriting them.
use Prim.Native.Nat.{ℕ, zero, suc}
use mathlib.Core.Path.{◌≡◌, refl}
use mathlib.Core.Bool.{Bool, true, false}
use mathlib.Core.Option.{Option, none, some}
use mathlib.Core.List.{List, [], ◌∷◌, ◌++◌}
use native.Mathlib.Omega.{arith}
use mathlib.Core.Logic.{inl, inr}
use money_management_pstu_ha.Prelude.Tests.{if◌then◌else◌, Bool-cases, is_some}

module _ {ℓ} {A : Type ℓ} where
  abbrev pub length : List A → ℕ
  length [] = 0
  length (x ∷ xs) = suc (length xs)

  -- A statement about every row, by recursion, so that the tactics read it as a tuple.
  abbrev pub All {κ} : (A → Type κ) → List A → Type κ
  All P [] = Unit
  All P (x ∷ xs) = P x × All P xs

  -- `SELECT … WHERE test`, the first row.
  unfoldable pub find : (A → Bool) → List A → Option A
  find test [] = none
  find test (x ∷ xs) = if test x then some x else find test xs

  -- `SELECT … WHERE test`, every row.
  unfoldable pub select : (A → Bool) → List A → List A
  select test [] = []
  select test (x ∷ xs) = let rest = select test xs in if test x then x ∷ rest else rest

  -- The row count of a statement with `WHERE test`.
  unfoldable pub count : (A → Bool) → List A → ℕ
  count test [] = 0
  count test (x ∷ xs) = if test x then suc (count test xs) else count test xs

  -- `UPDATE … SET f WHERE test`.
  unfoldable pub update : (A → Bool) → (A → A) → List A → List A
  update test f [] = []
  update test f (x ∷ xs) = (if test x then f x else x) ∷ update test f xs

  -- `ORDER BY`: `before a b` says that `a` may stand in front of `b`.
  unfoldable pub insert_by : (A → A → Bool) → A → List A → List A
  insert_by before a [] = a ∷ []
  insert_by before a (b ∷ bs) =
      let later = insert_by before a bs in if before a b then a ∷ b ∷ bs else b ∷ later

  unfoldable pub order_by : (A → A → Bool) → List A → List A
  order_by before [] = []
  order_by before (a ∷ rest) = insert_by before a (order_by before rest)

  -- `LIMIT`
  unfoldable pub limit : ℕ → List A → List A
  limit zero rows = []
  limit (suc n) [] = []
  limit (suc n) (r ∷ rows) = r ∷ limit n rows

  -- Where the update falsifies its own test, no row passes the test any more.
  pub count-update :
      (test : A → Bool) (f : A → A) (xs : List A)
      → ((a : A) → test a ≡ true → test (f a) ≡ false)
      → count test (update test f xs) ≡ 0
  unfolding count update
  count-update test f [] falsifies = refl
  count-update test f (x ∷ xs) falsifies =
      ground (arith, falsifies x, count-update test f xs falsifies)

  -- An update that changes no row.
  pub update-none :
      (test : A → Bool) (f : A → A) (xs : List A) → count test xs ≡ 0 → update test f xs ≡ xs
  unfolding count update
  update-none test f [] absent = refl
  update-none test f (x ∷ xs) absent = ground (arith, update-none test f xs)

  -- An update that a test does not see leaves what the test finds.
  pub find-update :
      (test hit : A → Bool) (f : A → A) (xs : List A)
      → ((a : A) → test (f a) ≡ test a)
      → is_some (find test (update hit f xs)) ≡ is_some (find test xs)
  unfolding find update
  find-update test hit f [] unseen = refl
  find-update test hit f (x ∷ xs) unseen =
      ground (arith, unseen x, find-update test hit f xs unseen)

  pub find-append :
      (test : A → Bool) (front back : List A)
      → is_some (find test front) ≡ true
      → is_some (find test (front ++ back)) ≡ true
  unfolding find
  find-append test [] back there = cc
  find-append test (x ∷ front) back there = ground (arith, find-append test front back)

  -- A statement about every row that an update keeps.
  pub All-update {κ} :
      (P : A → Type κ) (test : A → Bool) (f : A → A)
      → ((a : A) → test a ≡ true → P a → P (f a))
      → (xs : List A) → All P xs
      → All P (update test f xs)
  unfolding update
  All-update P test f keeps [] h = tt
  All-update P test f keeps (x ∷ xs) h = elim (Bool-cases (test x)) [
    | inl hit ↦ rw hit (keeps x hit h.0, All-update P test f keeps xs h.1)
    | inr miss ↦ rw miss (h.0, All-update P test f keeps xs h.1)
  ]

  pub find-test : (test : A → Bool) (xs : List A) {a : A} → find test xs ≡ some a → test a ≡ true
  unfolding find
  find-test test [] h = ground arith
  find-test test (x ∷ xs) {a} h = ground (arith, find-test test xs {a = a})

  pub All-append {κ} :
      (Q : A → Type κ) (front back : List A) → All Q front → All Q back → All Q (front ++ back)
  All-append Q [] back none_yet h = h
  All-append Q (x ∷ front) back g h = (g.0, All-append Q front back g.1 h)

  pub All-map {κ} : (P Q : A → Type κ) → ((a : A) → P a → Q a) → (xs : List A) → All P xs → All Q xs
  All-map P Q f [] h = tt
  All-map P Q f (x ∷ xs) h = (f x h.0, All-map P Q f xs h.1)

  pub All-both {κ} :
      (P Q : A → Type κ) (xs : List A) → All P xs → All Q xs → All (λ a. P a × Q a) xs
  All-both P Q [] h k = tt
  All-both P Q (x ∷ xs) h k = ((h.0, k.0), All-both P Q xs h.1 k.1)

  pub All-find {κ} :
      (P : A → Type κ) (test : A → Bool) (xs : List A) {a : A}
      → All P xs
      → find test xs ≡ some a
      → P a
  unfolding find
  All-find P test [] h e = ground arith
  All-find P test (x ∷ xs) {a} h e = ground (arith, All-find P test xs {a = a} h.1)
