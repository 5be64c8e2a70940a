-- ===== src/Kernel/Money/RoundTrip.antt =====
-- backend/platform_/kernel/money.py: rendering an amount and parsing it back.
use mathlib.Core.List.{append_assoc}
use money_management_pstu_ha.Prelude.{
  Bool, ℕ, zero, suc, ◌+◌, ◌*◌, ◌/◌, ◌%◌, ◌≤◌, ◌<◌, ◌≡◌, refl, true, false, List, [], ◌∷◌, ◌++◌,
  arith, length, some, ap,
}
use money_management_pstu_ha.Prelude.Int.{pos}
use money_management_pstu_ha.Prelude.Result.{ok}
use money_management_pstu_ha.Kernel.Money.{
  bdt, is_digit, take_digits, at_end, match_minor, decimal_match, parse_digits, decimal_onto,
  decimal, zero_padded, from_decimal_string, to_decimal_string, money_of_match, from_minor, ljust,
  minor_units_per_major,
}
use money_management_pstu_ha.Kernel.Money.Decimal.{
  IsDigits, parse_digits-decimal, decimal_onto-IsDigits, length-decimal_onto, decimal_nonempty,
  take_digits-append,
}

-- The two digits of a number of poisha below one taka.
abbrev two_digits : ℕ → List ℕ
two_digits n = (48 + n / 10) ∷ (48 + n % 10) ∷ []

zero_padded-two : (n : ℕ) → n < 100 → zero_padded 2 n ≡ two_digits n
unfolding zero_padded decimal decimal_onto
zero_padded-two zero h = refl
zero_padded-two (suc n) h = ground arith

-- Nothing, or a final line feed.
abbrev tail_of : Bool → List ℕ
tail_of false = []
tail_of true = 10 ∷ []

match_minor-two :
    (major : List ℕ) (n : ℕ) (feed : Bool)
    → n < 100
    → match_minor major (b'.' ∷ (two_digits n ++ tail_of feed)) ≡ some (major, two_digits n)
unfolding match_minor take_digits is_digit at_end
match_minor-two major n false h = ground arith
match_minor-two major n true h = ground arith

decimal_match-two :
    (ds : List ℕ) (n : ℕ) (feed : Bool)
    → IsDigits ds
    → 1 ≤ length ds
    → length ds ≤ 12
    → n < 100
    → decimal_match (ds ++ (b'.' ∷ (two_digits n ++ tail_of feed))) ≡ some (ds, two_digits n)
unfolding decimal_match is_digit
decimal_match-two [] n feed digits some_digit few h = absurd (omega arith)
decimal_match-two (d ∷ ds) n feed digits some_digit few h =
    rw (take_digits-append 12 (d ∷ ds) b'.' (two_digits n ++ tail_of feed) digits few refl)
      (ground (arith, match_minor-two (d ∷ ds) n feed h))

decimal-IsDigits : (n : ℕ) → IsDigits (decimal n)
unfolding decimal
decimal-IsDigits n = decimal_onto-IsDigits (suc n) n [] tt

length-decimal :
    (n : ℕ) → n < 1_000_000_000_000 → (1 ≤ length (decimal n)) × (length (decimal n) ≤ 12)
unfolding decimal
length-decimal n h = (decimal_nonempty n n [], ground (arith, length-decimal_onto (suc n) n 11 []))

parse-two_digits : (n : ℕ) → n < 100 → parse_digits 0 (two_digits n) ≡ n
unfolding parse_digits
parse-two_digits n h = omega arith

money_of_match-two :
    (ds : List ℕ) (n : ℕ)
    → n < 100
    → money_of_match bdt (some (ds, two_digits n))
      ≡ ok (record { minor = pos (parse_digits 0 ds * 100 + n); currency = bdt })
unfolding money_of_match ljust minor_units_per_major
money_of_match-two ds n h = rw (parse-two_digits n h)

render :
    (n : ℕ)
    → to_decimal_string (from_minor (pos n) bdt)
      ≡ decimal (n / 100) ++ (b'.' ∷ two_digits (n % 100))
unfolding to_decimal_string from_minor minor_units_per_major
render n = ground (arith, zero_padded-two (n % 100))

parse_rendered :
    (n : ℕ) (feed : Bool)
    → n < 100_000_000_000_000
    → from_decimal_string (decimal (n / 100) ++ (b'.' ∷ (two_digits (n % 100) ++ tail_of feed))) bdt
      ≡ ok (from_minor (pos n) bdt)
unfolding from_decimal_string from_minor
parse_rendered n feed h =
    rw
      (
        decimal_match-two (decimal (n / 100)) (n % 100) feed (decimal-IsDigits (n / 100))
            (length-decimal (n / 100) (omega arith)).0 (length-decimal (n / 100) (omega arith)).1
            (omega arith),
        money_of_match-two (decimal (n / 100)) (n % 100) (omega arith),
        parse_digits-decimal,
      )
      (ap (λ v. ok (from_minor (pos v) bdt)) (omega arith))

-- Every amount of BDT from zero to one poisha below 10^12 taka is rendered as a text that parses back to
-- the same amount.
pub from_decimal_string-to_decimal_string :
    (n : ℕ)
    → n < 100_000_000_000_000
    → from_decimal_string (to_decimal_string (from_minor (pos n) bdt)) bdt
      ≡ ok (from_minor (pos n) bdt)
from_decimal_string-to_decimal_string n h = rw render (parse_rendered n false h)

-- For each of these amounts, the rendered text with a line feed behind it is accepted too, as the same
-- amount: Python's `$` matches in front of a final line feed.
pub from_decimal_string-line_feed :
    (n : ℕ)
    → n < 100_000_000_000_000
    → from_decimal_string (to_decimal_string (from_minor (pos n) bdt) ++ (10 ∷ [])) bdt
      ≡ ok (from_minor (pos n) bdt)
from_decimal_string-line_feed n h = rw (render, append_assoc) (parse_rendered n true h)
