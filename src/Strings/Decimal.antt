-- ===== src/Strings/Decimal.antt =====
-- strconv.FormatInt, strconv.ParseInt and strconv.Atoi in base 10.
pub mod RoundTrip
use go_spoc.Prelude.{
  ℕ, zero, suc, ◌+◌, ◌-◌, ◌*◌, ◌/◌, ◌%◌, ◌^◌, Bool, ◌&&◌, List, [], ◌∷◌, Option, none, some,
  if◌then◌else◌, ltb, leb, is_empty,
}
use go_spoc.Prelude.Eq.{◌==◌, nat_eq}
use go_spoc.Prelude.Int.{ℤ, pos, negsuc, neg_ℕ}

-- The digits of n in front of those already written; `fuel` bounds their number.
unfoldable pub digits_from : ℕ → ℕ → List ℕ → List ℕ
digits_from zero n out = out
digits_from (suc fuel) n out =
    let shown = (b'0' + n % 10) ∷ out in
    let longer = digits_from fuel (n / 10) shown in if ltb n 10 then shown else longer

unfoldable pub format_nat : ℕ → List ℕ
unfolding digits_from
format_nat n = digits_from (suc n) n []

unfoldable pub format_int : ℤ → List ℕ
unfolding format_nat
format_int (pos n) = format_nat n
format_int (negsuc n) = b'-' ∷ format_nat (suc n)

abbrev pub is_digit : ℕ → Bool
is_digit c = leb b'0' c && leb c b'9'

-- The value of a run of digits, read from the left.
unfoldable pub digits_value : ℕ → List ℕ → Option ℕ
digits_value n [] = some n
digits_value n (c ∷ s) =
    let rest = digits_value (n * 10 + (c - b'0')) s in if is_digit c then rest else none

abbrev pub parse_digits : List ℕ → Option ℕ
parse_digits s = if is_empty s then none else digits_value 0 s

abbrev pub within : ℕ → (ℕ → ℤ) → Option ℕ → Option ℤ
within bound sign none = none
within bound sign (some n) = if ltb n bound then some (sign n) else none

-- strconv.ParseInt(s, 10, 64): an optional sign, then digits; none stands for any of its errors.
unfoldable pub parse_int : List ℕ → Option ℤ
unfolding digits_value
parse_int [] = none
parse_int (c ∷ s) =
    if c == b'-'
    then within (2 ^ 63 + 1) neg_ℕ (parse_digits s)
    else if c == b'+'
    then within (2 ^ 63) pos (parse_digits s)
    else within (2 ^ 63) pos (parse_digits (c ∷ s))
