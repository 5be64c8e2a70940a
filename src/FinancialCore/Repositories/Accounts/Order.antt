-- ===== src/FinancialCore/Repositories/Accounts/Order.antt =====
-- The order in which `lock_for_update` takes its rows
-- (backend/modules/financial_core/adapters/persistence/repositories.py).
use money_management_pstu_ha.Prelude.{
  ℕ, ◌≡◌, ◌<◌, refl, sym, ap, ◌∙◌, Bool, true, false, ◌||◌, List, [], ◌∷◌, ◌++◌, arith, ◌==◌, All,
  Bool-cases, inl, inr,
}
use money_management_pstu_ha.Database.{Db}
use money_management_pstu_ha.FinancialCore.Repositories.Accounts.{
  insert_id, sorted_set, lock_for_update,
}

abbrev pub among : ℕ → List ℕ → Bool
among k [] = false
among k (a ∷ rest) = k == a || among k rest

-- Each id is below all that follow it.
abbrev pub IsAscending : List ℕ → Type 0
IsAscending [] = Unit
IsAscending (a ∷ rest) = All (λ b. a < b) rest × IsAscending rest

among-insert_id : (k a : ℕ) (ids : List ℕ) → among k (insert_id a ids) ≡ (k == a || among k ids)
unfolding insert_id
among-insert_id k a [] = refl
among-insert_id k a (b ∷ bs) = grind (arith, among-insert_id k a bs)

among-sorted_set : (k : ℕ) (ids : List ℕ) → among k (sorted_set ids) ≡ among k ids
unfolding sorted_set
among-sorted_set k [] = refl
among-sorted_set k (a ∷ rest) =
    among-insert_id k a (sorted_set rest) ∙ ap (λ x. k == a || x) (among-sorted_set k rest)

below-All : (a b : ℕ) (ids : List ℕ) → a < b → All (λ c. b < c) ids → All (λ c. a < c) ids
below-All a b [] h all = tt
below-All a b (c ∷ cs) h all = (omega arith, below-All a b cs h all.1)

insert_id-above :
    (a b : ℕ) (ids : List ℕ) → b < a → All (λ c. b < c) ids → All (λ c. b < c) (insert_id a ids)
unfolding insert_id
insert_id-above a b [] h all = (h, tt)
insert_id-above a b (c ∷ cs) h all = ground (arith, insert_id-above a b cs h all.1)

insert_id-IsAscending : (a : ℕ) (ids : List ℕ) → IsAscending ids → IsAscending (insert_id a ids)
unfolding insert_id
insert_id-IsAscending a [] h = (tt, tt)
insert_id-IsAscending a (b ∷ bs) h =
    grind (arith, below-All a b bs, insert_id-above a b bs, insert_id-IsAscending a bs h.1)

sorted_set-IsAscending : (ids : List ℕ) → IsAscending (sorted_set ids)
unfolding sorted_set
sorted_set-IsAscending [] = tt
sorted_set-IsAscending (a ∷ rest) =
    insert_id-IsAscending a (sorted_set rest) (sorted_set-IsAscending rest)

not_below : (k : ℕ) (ids : List ℕ) → All (λ c. k < c) ids → among k ids ≡ false
not_below k [] h = refl
not_below k (c ∷ cs) h = grind (arith, not_below k cs h.1)

above_at : (a k : ℕ) (ids : List ℕ) → k == a ≡ true → All (λ c. a < c) ids → All (λ c. k < c) ids
above_at a k ids hit h = let equal : k ≡ a = ground (arith, hit) in rw equal h

same_tail :
    (a : ℕ) (xs ys : List ℕ)
    → All (λ c. a < c) xs
    → All (λ c. a < c) ys
    → ((k : ℕ) → among k (a ∷ xs) ≡ among k (a ∷ ys))
    → (k : ℕ) → among k xs ≡ among k ys
same_tail a xs ys above_x above_y same k = elim (Bool-cases (k == a)) [
  | inl hit ↦ grind (
    arith,
    not_below k xs,
    not_below k ys,
    above_at a k xs hit above_x,
    above_at a k ys hit above_y,
  )
  | inr miss ↦ ground (arith, same k, miss)
]

same_head :
    (a b : ℕ) (xs ys : List ℕ)
    → All (λ c. a < c) xs
    → All (λ c. b < c) ys
    → ((k : ℕ) → among k (a ∷ xs) ≡ among k (b ∷ ys))
    → a ≡ b
same_head a b xs ys above_x above_y same =
    grind
      (arith, same a, same b, below-All a b ys, below-All b a xs, not_below a ys, not_below b xs)

ascending_unique :
    (xs ys : List ℕ)
    → IsAscending xs
    → IsAscending ys
    → ((k : ℕ) → among k xs ≡ among k ys)
    → xs ≡ ys
ascending_unique [] [] hx hy same = refl
ascending_unique [] (b ∷ ys) hx hy same = absurd (ground (arith, same b))
ascending_unique (a ∷ xs) [] hx hy same = absurd (ground (arith, same a))
ascending_unique (a ∷ xs) (b ∷ ys) hx hy same =
    let head = same_head a b xs ys hx.0 hy.0 same in
    let above_y : All (λ c. a < c) ys = rw (sym head) at hy.0 in
    let same' : (k : ℕ) → among k (a ∷ xs) ≡ among k (a ∷ ys) = λ k. rw (sym head) at (same k) in
    rw (head, ascending_unique xs ys hx.1 hy.1 (same_tail a xs ys hx.0 above_y same')) refl

sorted_set-same :
    (xs ys : List ℕ) → ((k : ℕ) → among k xs ≡ among k ys) → sorted_set xs ≡ sorted_set ys
sorted_set-same xs ys same =
    ascending_unique (sorted_set xs) (sorted_set ys) (sorted_set-IsAscending xs)
      (sorted_set-IsAscending ys) λ k. among-sorted_set k xs ∙ same k ∙ sym (among-sorted_set k ys)

-- The locks that a session has taken between two states, and whose they are.
pub record LocksInOrder (ids : List ℕ) (before after : Db) : Type 0 where
  pub order : List ℕ
  pub taken : after.locks ≡ before.locks ++ order
  pub ascending : IsAscending order
  pub requested : (k : ℕ) → among k order ≡ among k ids

-- Two requests for the same rows, in whatever order and however often they name them, do the same: they lock
-- the same rows in the same order and give the same answer.
pub lock_for_update-same :
    (xs ys : List ℕ) (db : Db)
    → ((k : ℕ) → among k xs ≡ among k ys)
    → lock_for_update xs db ≡ lock_for_update ys db
unfolding lock_for_update
lock_for_update-same xs ys db same = rw (sorted_set-same xs ys same) refl
