-- ===== src/Kernel/Ids/RoundTrip.antt =====
-- The digits of an identifier (backend/platform_/kernel/ids.py).
use money_management_pstu_ha.Prelude.{
  ℕ, zero, suc, ◌*◌, ◌+◌, ◌/◌, ◌%◌, ◌^◌, ◌≡◌, ◌<◌, refl, sym, ap, ◌∙◌, List, [], ◌∷◌, ◌++◌, arith,
}
use native.Mathlib.Nat.{mul_assoc}
use money_management_pstu_ha.Kernel.Ids.{encode_onto, encode, ulid_digits}

-- The number that digits stand for, on from a value.
abbrev pub decode : ℕ → List ℕ → ℕ
decode value [] = value
decode value (d ∷ ds) = decode (value * 32 + d) ds

shifted : (a p value : ℕ) → (a * p + value / 32) * 32 + value % 32 ≡ a * (p * 32) + value
shifted a p value =
    let regrouped : a * (p * 32) ≡ a * p * 32 = sym (mul_assoc a p 32) in rw regrouped (omega arith)

decode-encode_onto :
    (length start value : ℕ) (digits : List ℕ)
    → value < 32 ^ length
    → decode start (encode_onto length value digits) ≡ decode (start * 32 ^ length + value) digits
unfolding encode_onto
decode-encode_onto zero start value digits h = ap (λ v. decode v digits) (omega arith)
decode-encode_onto (suc length) start value digits h =
    let split : 32 ^ suc length ≡ 32 ^ length * 32 = omega arith in
    let below : value < 32 ^ length * 32 = rw split at h in
    rw split (
      decode-encode_onto length start (value / 32) (value % 32 ∷ digits) (omega arith)
      ∙ ap (λ v. decode v digits) (shifted start (32 ^ length) value))

decode-append :
    (start : ℕ) (front back : List ℕ)
    → decode start (front ++ back) ≡ decode (decode start front) back
decode-append start [] back = refl
decode-append start (d ∷ front) back = decode-append (start * 32 + d) front back

-- The 26 digits of an identifier of 128 bits, ten of time and sixteen of randomness, read as one number in
-- base 32, are the identifier, so no two identifiers have the same digits.
pub decode-ulid_digits : (id : ℕ) → id < 2 ^ 128 → decode 0 (ulid_digits id) ≡ id
unfolding ulid_digits encode
decode-ulid_digits id h =
    decode-append 0 (encode (id / 2 ^ 80) 10) (encode (id % 2 ^ 80) 16)
    ∙ ap (λ t. decode t (encode (id % 2 ^ 80) 16))
        (decode-encode_onto 10 0 (id / 2 ^ 80) [] (omega arith))
    ∙ decode-encode_onto 16 (0 * 32 ^ 10 + id / 2 ^ 80) (id % 2 ^ 80) [] (omega arith)
    ∙ (omega arith)
