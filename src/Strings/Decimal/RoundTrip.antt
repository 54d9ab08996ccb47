-- ===== src/Strings/Decimal/RoundTrip.antt =====
-- What `format_int` writes, `parse_int` reads.
use go_spoc.Prelude.{
  ℕ, zero, suc, ◌+◌, ◌-◌, ◌*◌, ◌/◌, ◌%◌, ◌^◌, ◌≤◌, ◌<◌, ◌≡◌, refl, Bool, true, false, List, [], ◌∷◌,
  some, arith, ltb, ltb→lt, Bool-cases, inl, inr, ap, ◌∙◌,
}
use go_spoc.Prelude.Int.{ℤ, pos, negsuc, pos_part, neg_part, neg_ℕ}
use go_spoc.Strings.Decimal.{
  digits_from, format_nat, format_int, is_digit, digits_value, within, parse_int,
}

-- The digit of n is read as its value.
digits_value-digit :
    (a n : ℕ) (out : List ℕ)
    → digits_value a ((b'0' + n % 10) ∷ out) ≡ digits_value (a * 10 + n % 10) out
unfolding digits_value
digits_value-digit a n out = let digit : b'0' + n % 10 - b'0' ≡ n % 10 = omega arith in ground arith

digits_value-digits_from :
    (fuel n : ℕ) (out : List ℕ)
    → n < fuel
    → digits_value 0 (digits_from fuel n out) ≡ digits_value n out
unfolding digits_from
digits_value-digits_from zero n out h = elim h [ ]
digits_value-digits_from (suc fuel) n out h = elim (Bool-cases (ltb n 10)) [
  | inl e ↦
      rw e
        (digits_value-digit 0 n out ∙ ap (λ k. digits_value k out) (ground (arith, ltb→lt n 10 e)))
  | inr e ↦ rw e (
      digits_value-digits_from fuel (n / 10) ((b'0' + n % 10) ∷ out) (ground arith)
      ∙ digits_value-digit (n / 10) n out
      ∙ ap (λ k. digits_value k out) (omega arith))
]

abbrev starts_digit : List ℕ → Bool
starts_digit [] = false
starts_digit (c ∷ _) = is_digit c

starts_digit-digits_from :
    (fuel n : ℕ) (out : List ℕ)
    → starts_digit out ≡ true
    → starts_digit (digits_from fuel n out) ≡ true
unfolding digits_from
starts_digit-digits_from zero n out h = h
starts_digit-digits_from (suc fuel) n out h =
    ground (arith, starts_digit-digits_from fuel (n / 10) ((b'0' + n % 10) ∷ out))

parse_int_pos :
    (s : List ℕ) → starts_digit s ≡ true → parse_int s ≡ within (2 ^ 63) pos (digits_value 0 s)
unfolding parse_int
parse_int_pos [] h = cc
parse_int_pos (c ∷ s) h = ground arith

parse_int_neg :
    (s : List ℕ)
    → starts_digit s ≡ true
    → parse_int (b'-' ∷ s) ≡ within (2 ^ 63 + 1) neg_ℕ (digits_value 0 s)
unfolding parse_int
parse_int_neg [] h = cc
parse_int_neg (c ∷ s) h = refl

starts_digit-format_nat : (n : ℕ) → starts_digit (format_nat n) ≡ true
unfolding format_nat digits_from
starts_digit-format_nat n =
    ground (arith, starts_digit-digits_from n (n / 10) ((b'0' + n % 10) ∷ []))

digits_value-format_nat : (n : ℕ) → digits_value 0 (format_nat n) ≡ some n
unfolding format_nat digits_value
digits_value-format_nat n = digits_value-digits_from (suc n) n [] (omega arith)

-- The range of int64.
abbrev pub InInt64 : ℤ → Type 0
InInt64 z = (pos_part z < 2 ^ 63) × (neg_part z ≤ 2 ^ 63)

-- Every int64 is read back from its decimal form.
pub parse_int-format_int : (z : ℤ) → InInt64 z → parse_int (format_int z) ≡ some z
unfolding format_int
parse_int-format_int (pos n) h =
    parse_int_pos (format_nat n) (starts_digit-format_nat n)
    ∙ rw (digits_value-format_nat n) (ground arith)
parse_int-format_int (negsuc n) h =
    parse_int_neg (format_nat (suc n)) (starts_digit-format_nat (suc n))
    ∙ rw (digits_value-format_nat (suc n)) (ground arith)
