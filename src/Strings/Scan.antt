-- ===== src/Strings/Scan.antt =====
-- fmt.Sscanf, as far as the program's one format needs it: literal text and %d for an unsigned
-- number.
use go_spoc.Prelude.{ℕ, ◌&&◌, not, List, [], ◌∷◌, Option, none, some, if◌then◌else◌, is_empty, ltb}
use go_spoc.Prelude.Eq.{◌==◌, nat_eq}
use go_spoc.Strings.{trim_left, is_space}
use go_spoc.Strings.Decimal.{digits_value, is_digit}

infixl 5 ◌>>=◌
abbrev pub ◌>>=◌ : {A B : Type 0} → Option A → (A → Option B) → Option B
none >>= f = none
some a >>= f = f a

-- The longest run of digits at the front, and what follows it.
unfoldable pub digits_of : List ℕ → List ℕ
digits_of [] = []
digits_of (c ∷ s) = let rest = digits_of s in if is_digit c then c ∷ rest else []

unfoldable pub after_digits : List ℕ → List ℕ
after_digits [] = []
after_digits (c ∷ s) = let rest = after_digits s in if is_digit c then rest else c ∷ s

abbrev pub below : ℕ → List ℕ → ℕ → Option (ℕ × List ℕ)
below bound rest n = if ltb n bound then some (n, rest) else none

-- %d into an unsigned integer below the bound: blanks but no line feed, then digits.
unfoldable pub scan_uint : ℕ → List ℕ → Option (ℕ × List ℕ)
unfolding trim_left is_space digits_of after_digits digits_value
scan_uint bound s =
    let text = trim_left (λ c. is_space c && not (c == 10)) s in
    if is_empty (digits_of text)
    then none
    else (digits_value 0 (digits_of text) >>= below bound (after_digits text))
