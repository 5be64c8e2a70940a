-- ===== src/Kernel/Ids.antt =====
-- backend/platform_/kernel/ids.py: identifiers as text. `Database.new_ulid` draws the number, which is the time
-- and the randomness in one; its text is that of the two in a row.
pub mod RoundTrip
use money_management_pstu_ha.Prelude.{
  ℕ, zero, suc, ◌*◌, ◌+◌, ◌/◌, ◌%◌, ◌^◌, ◌-◌, String, List, [], ◌∷◌, ◌++◌, text_of,
}

-- `_CROCKFORD`, a letter for each digit of base 32; there is no other digit.
abbrev crockford : List String
crockford =
    "0" ∷ "1" ∷ "2" ∷ "3" ∷ "4" ∷ "5" ∷ "6" ∷ "7" ∷ "8" ∷ "9" ∷ "A" ∷ "B" ∷ "C" ∷ "D" ∷ "E" ∷ "F"
    ∷ "G" ∷ "H" ∷ "J" ∷ "K" ∷ "M" ∷ "N" ∷ "P" ∷ "Q" ∷ "R" ∷ "S" ∷ "T" ∷ "V" ∷ "W" ∷ "X" ∷ "Y" ∷ "Z"
    ∷ []

abbrev letter_in : List String → ℕ → String
letter_in [] digit = ""
letter_in (c ∷ cs) zero = c
letter_in (c ∷ cs) (suc digit) = letter_in cs digit

abbrev letters : List ℕ → List String
letters [] = []
letters (d ∷ ds) = letter_in crockford d ∷ letters ds

-- The loop of `_encode`, in front of the digits that it has already.
unfoldable pub encode_onto : ℕ → ℕ → List ℕ → List ℕ
encode_onto zero value digits = digits
encode_onto (suc length) value digits = encode_onto length (value / 32) (value % 32 ∷ digits)

-- `_encode`, as the digits whose letters it joins.
unfoldable pub encode : ℕ → ℕ → List ℕ
encode value length = encode_onto length value []

-- The text of an identifier: ten digits of time and sixteen of randomness.
unfoldable pub ulid_digits : ℕ → List ℕ
ulid_digits id = encode (id / 2 ^ 80) 10 ++ encode (id % 2 ^ 80) 16

abbrev drop : ℕ → List ℕ → List ℕ
drop zero digits = digits
drop (suc n) [] = []
drop (suc n) (d ∷ digits) = drop n digits

-- `id[-count:]`
unfoldable pub ulid_suffix : ℕ → ℕ → String
ulid_suffix count id = text_of (letters (drop (26 - count) (ulid_digits id)))

unfoldable pub ulid_text : ℕ → String
ulid_text id = text_of (letters (ulid_digits id))
