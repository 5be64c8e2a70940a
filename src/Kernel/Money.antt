-- ===== src/Kernel/Money.antt =====
-- backend/platform_/kernel/money.py: exact money in minor units. A Python `str` that is parsed or rendered is
-- the list of its code points. The regular expression `_DECIMAL_PATTERN` is the scanner `decimal_match`:
-- Python's `$` matches at the end and also before a final line feed. Only BDT is ever constructed by the
-- code, so the validation of a new `Currency` is left out.
pub mod Decimal
pub mod RoundTrip
pub mod Tests
use money_management_pstu_ha.Prelude.{
  ℕ, zero, suc, ◌+◌, ◌-◌, ◌*◌, ◌/◌, ◌%◌, ◌^◌, String, Bool, true, false, ◌&&◌, not, Option, none,
  some, List, [], ◌∷◌, ◌++◌, leb, ltb, ◌==◌, str_eq, if◌then◌else◌, length,
}
use money_management_pstu_ha.Prelude.Int.{
  ℤ, pos, ◌+ℤ◌, ◌-ℤ◌, neg, pos_part, neg_part, ltb_ℤ, leb_ℤ, eqb_ℤ,
}
use money_management_pstu_ha.Prelude.Result.{Result, ok, err, invalid_money, reject_if, ◌>>=◌, ◌>>◌}

pub record Currency : Type 0 where
  pub code : String
  pub exponent : ℕ

abbrev pub bdt : Currency
bdt = record { code = "BDT"; exponent = 2 }

-- `SUPPORTED_CURRENCIES.get(code)`
unfoldable pub supported_currency : String → Option Currency
supported_currency code = if str_eq code "BDT" then some bdt else none

unfoldable pub same_currency : Currency → Currency → Bool
same_currency a b = str_eq a.code b.code && a.exponent == b.exponent

unfoldable pub minor_units_per_major : Currency → ℕ
minor_units_per_major c = 10 ^ c.exponent

abbrev pub max_transfer_amount_minor : ℕ
max_transfer_amount_minor = 1_000_000_000_000

pub record Money : Type 0 where
  pub minor : ℤ
  pub currency : Currency

unfoldable pub from_minor : ℤ → Currency → Money
from_minor minor currency = record { minor = minor; currency = currency }

unfoldable pub is_positive : Money → Bool
is_positive m = ltb_ℤ (pos 0) m.minor

unfoldable pub is_zero : Money → Bool
is_zero m = eqb_ℤ m.minor (pos 0)

-- `_assert_same_currency`, which every binary operator calls first.
unfoldable pub assert_same_currency : Money → Money → Result (Unit {0})
assert_same_currency a b = reject_if (not (same_currency a.currency b.currency)) invalid_money

-- `__add__`
unfoldable pub add : Money → Money → Result Money
add a b = do
  assert_same_currency a b
  ok (record { minor = a.minor +ℤ b.minor; currency = a.currency })

-- `__sub__`
unfoldable pub sub : Money → Money → Result Money
sub a b = do
  assert_same_currency a b
  ok (record { minor = a.minor -ℤ b.minor; currency = a.currency })

-- `__neg__`
unfoldable pub negate : Money → Money
negate a = record { minor = neg a.minor; currency = a.currency }

-- `__lt__`; the other comparisons are alike.
unfoldable pub less_than : Money → Money → Result Bool
less_than a b = do assert_same_currency a b; ok (ltb_ℤ a.minor b.minor)

-- `[0-9]`
unfoldable pub is_digit : ℕ → Bool
is_digit c = leb 48 c && leb c 57

-- `[0-9]{0,k}`, greedily: the digits and what follows them.
unfoldable pub take_digits : ℕ → List ℕ → List ℕ × List ℕ
take_digits zero cs = ([], cs)
take_digits (suc k) [] = ([], [])
take_digits (suc k) (c ∷ cs) =
    let rest = take_digits k cs in if is_digit c then (c ∷ rest.0, rest.1) else ([], c ∷ cs)

-- `$`
unfoldable pub at_end : List ℕ → Bool
at_end [] = true
at_end (c ∷ []) = c == 10
at_end (c ∷ d ∷ cs) = false

-- The optional group `(?:\.(?P<minor>[0-9]{1,2}))?` and the end, behind the major digits.
unfoldable pub match_minor : List ℕ → List ℕ → Option (List ℕ × List ℕ)
match_minor major [] = some (major, [])
match_minor major (c ∷ cs) =
    let (minor, rest) = take_digits 2 cs in
    if c == b'.'
    then (if leb 1 (length minor) && at_end rest then some (major, minor) else none)
    else (if at_end (c ∷ cs) then some (major, []) else none)

-- `_DECIMAL_PATTERN.match(raw)`: the groups `major` and `minor`, the latter empty where it is absent.
unfoldable pub decimal_match : List ℕ → Option (List ℕ × List ℕ)
decimal_match raw =
    let (major, rest) = take_digits 12 raw in
    if leb 1 (length major) then match_minor major rest else none

-- `int(digits)`, on from a value.
unfoldable pub parse_digits : ℕ → List ℕ → ℕ
parse_digits acc [] = acc
parse_digits acc (c ∷ cs) = parse_digits (acc * 10 + (c - 48)) cs

abbrev pub replicate : ℕ → ℕ → List ℕ
replicate zero c = []
replicate (suc n) c = c ∷ replicate n c

-- `fraction.ljust(width, "0")`
unfoldable pub ljust : ℕ → List ℕ → List ℕ
ljust width cs = cs ++ replicate (width - length cs) b'0'

-- What follows a match in `from_decimal_string`.
unfoldable pub money_of_match : Currency → Option (List ℕ × List ℕ) → Result Money
money_of_match currency none = err invalid_money
money_of_match currency (some (major, fraction)) = do
  reject_if (ltb currency.exponent (length fraction)) invalid_money
  let whole = parse_digits 0 major * minor_units_per_major currency
  ok (record {
    minor = pos (whole + parse_digits 0 (ljust currency.exponent fraction));
    currency = currency;
  })

-- `Money.from_decimal_string`
unfoldable pub from_decimal_string : List ℕ → Currency → Result Money
from_decimal_string raw currency = money_of_match currency (decimal_match raw)

-- The decimal digits of a number, in front of a text. The fuel is more than the number of digits.
unfoldable pub decimal_onto : ℕ → ℕ → List ℕ → List ℕ
decimal_onto zero n acc = acc
decimal_onto (suc fuel) n acc =
    let rest = decimal_onto fuel (n / 10) ((48 + n % 10) ∷ acc) in
    if ltb n 10 then (48 + n) ∷ acc else rest

-- `f"{n}"`
unfoldable pub decimal : ℕ → List ℕ
decimal n = decimal_onto (suc n) n []

-- `f"{n:0{width}d}"`
unfoldable pub zero_padded : ℕ → ℕ → List ℕ
zero_padded width n = replicate (width - length (decimal n)) b'0' ++ decimal n

-- `Money.to_decimal_string`
unfoldable pub to_decimal_string : Money → List ℕ
to_decimal_string m =
    let sign = if ltb_ℤ m.minor (pos 0) then b'-' ∷ [] else [] in
    let magnitude = pos_part m.minor + neg_part m.minor in
    let unit = minor_units_per_major m.currency in
    if m.currency.exponent == 0
    then sign ++ decimal magnitude
    else sign
      ++ (decimal (magnitude / unit) ++ (b'.' ∷ zero_padded m.currency.exponent (magnitude % unit)))
