-- ===== src/Kernel/Money/Decimal.antt =====
-- Decimal digits: printing a number and reading it back, and how many digits there are.
use native.Mathlib.Nat.{pow-suc}
use money_management_pstu_ha.Prelude.{
  ℕ, zero, suc, ◌+◌, ◌*◌, ◌/◌, ◌%◌, ◌^◌, ◌≤◌, ◌<◌, ◌≡◌, refl, true, false, List, [], ◌∷◌, ◌++◌,
  arith, length, All,
}
use money_management_pstu_ha.Kernel.Money.{
  is_digit, take_digits, parse_digits, decimal_onto, decimal,
}

abbrev pub IsDigits : List ℕ → Type 0
IsDigits = All (λ c. is_digit c ≡ true)

pub parse_digits-decimal_onto :
    (fuel n : ℕ) (acc : List ℕ)
    → n < fuel
    → parse_digits 0 (decimal_onto fuel n acc) ≡ parse_digits n acc
unfolding parse_digits decimal_onto
parse_digits-decimal_onto zero n acc h = elim h [ ]
parse_digits-decimal_onto (suc fuel) n acc h =
    ground (arith, parse_digits-decimal_onto fuel (n / 10) ((48 + n % 10) ∷ acc), regroup)
  where
    regroup : n / 10 * 10 + n % 10 ≡ n
    regroup = omega arith

pub parse_digits-decimal : (n : ℕ) → parse_digits 0 (decimal n) ≡ n
unfolding decimal parse_digits
parse_digits-decimal n = parse_digits-decimal_onto (suc n) n [] (omega arith)

pub decimal_onto-IsDigits :
    (fuel n : ℕ) (acc : List ℕ) → IsDigits acc → IsDigits (decimal_onto fuel n acc)
unfolding decimal_onto is_digit
decimal_onto-IsDigits zero n acc h = h
decimal_onto-IsDigits (suc fuel) n acc h =
    ground (arith, decimal_onto-IsDigits fuel (n / 10) ((48 + n % 10) ∷ acc))

pub length-decimal_onto :
    (fuel n k : ℕ) (acc : List ℕ)
    → n < 10 ^ suc k
    → length (decimal_onto fuel n acc) ≤ suc k + length acc
unfolding decimal_onto
length-decimal_onto zero n k acc h = omega arith
length-decimal_onto (suc fuel) n zero acc h = ground arith
length-decimal_onto (suc fuel) n (suc k) acc h =
    ground (arith, length-decimal_onto fuel (n / 10) k ((48 + n % 10) ∷ acc), pow-suc 10 (suc k))

pub decimal_nonempty : (fuel n : ℕ) (acc : List ℕ) → 1 ≤ length (decimal_onto (suc fuel) n acc)
unfolding decimal_onto
decimal_nonempty zero n acc = ground arith
decimal_nonempty (suc fuel) n acc =
    ground (arith, decimal_nonempty fuel (n / 10) ((48 + n % 10) ∷ acc))

-- At most `k` digits and then no digit: the scanner takes exactly these.
pub take_digits-append :
    (k : ℕ) (ds : List ℕ) (c : ℕ) (rest : List ℕ)
    → IsDigits ds
    → length ds ≤ k
    → is_digit c ≡ false
    → take_digits k (ds ++ (c ∷ rest)) ≡ (ds, c ∷ rest)
unfolding take_digits
take_digits-append zero [] c rest h l e = refl
take_digits-append zero (d ∷ ds) c rest h l e = absurd (omega arith)
take_digits-append (suc k) [] c rest h l e = ground arith
take_digits-append (suc k) (d ∷ ds) c rest h l e =
    ground (arith, take_digits-append k ds c rest h.1, h.0)

-- The same at the end of the text.
pub take_digits-all :
    (k : ℕ) (ds : List ℕ) → IsDigits ds → length ds ≤ k → take_digits k ds ≡ (ds, [])
unfolding take_digits
take_digits-all zero [] h l = refl
take_digits-all zero (d ∷ ds) h l = absurd (omega arith)
take_digits-all (suc k) [] h l = refl
take_digits-all (suc k) (d ∷ ds) h l = ground (arith, take_digits-all k ds h.1, h.0)
