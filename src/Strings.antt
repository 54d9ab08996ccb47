-- ===== src/Strings.antt =====
-- The functions of Go's `strings` package that the program calls, over lists of bytes or of code
-- points.
pub mod Lines
pub mod Decimal
pub mod Utf8
pub mod Case
pub mod Base64
pub mod Scan
use go_spoc.Prelude.{
  ℕ, Bool, true, false, List, [], ◌∷◌, ◌++◌, ◌&&◌, ◌||◌, if◌then◌else◌, is_empty, Option, none,
  some, leb,
}
use go_spoc.Prelude.Eq.{◌==◌, nat_eq}

-- strings.TrimRight, and the loop that pops the last element while a test holds.
unfoldable pub trim_right {ℓ} : {A : Type ℓ} → (A → Bool) → List A → List A
trim_right p [] = []
trim_right p (x ∷ xs) = let rest = trim_right p xs in if p x && is_empty rest then [] else x ∷ rest

abbrev pub cons_first : ℕ → List (List ℕ) → List (List ℕ)
cons_first c [] = (c ∷ []) ∷ []
cons_first c (l ∷ ls) = (c ∷ l) ∷ ls

-- strings.Split at a separator of one byte.
unfoldable pub split : ℕ → List ℕ → List (List ℕ)
split sep [] = [] ∷ []
split sep (c ∷ s) = let rest = split sep s in if c == sep then [] ∷ rest else cons_first c rest

-- strings.Join with a separator of one byte.
unfoldable pub join : ℕ → List (List ℕ) → List ℕ
join sep [] = []
join sep (l ∷ []) = l
join sep (l ∷ m ∷ ls) = l ++ sep ∷ join sep (m ∷ ls)

unfoldable pub has_prefix : List ℕ → List ℕ → Bool
has_prefix [] s = true
has_prefix (p ∷ ps) [] = false
has_prefix (p ∷ ps) (c ∷ s) = p == c && has_prefix ps s

-- strings.Contains.
unfoldable pub contains : List ℕ → List ℕ → Bool
unfolding has_prefix
contains sub [] = is_empty sub
contains sub (c ∷ s) = let later = contains sub s in if has_prefix sub (c ∷ s) then true else later

-- strings.CutPrefix; none if the prefix is missing.
unfoldable pub cut_prefix : List ℕ → List ℕ → Option (List ℕ)
cut_prefix [] s = some s
cut_prefix (p ∷ ps) [] = none
cut_prefix (p ∷ ps) (c ∷ s) = let rest = cut_prefix ps s in if p == c then rest else none

unfoldable pub trim_left {ℓ} : {A : Type ℓ} → (A → Bool) → List A → List A
trim_left p [] = []
trim_left p (x ∷ xs) = let rest = trim_left p xs in if p x then rest else x ∷ xs

-- unicode.IsSpace, on code points.
unfoldable pub is_space : ℕ → Bool
is_space c =
    (leb 9 c && leb c 13)
    || c == 32
    || c == 0x85
    || c == 0xA0
    || c == 0x1680
    || (leb 0x2000 c && leb c 0x200A)
    || c == 0x2028
    || c == 0x2029
    || c == 0x202F
    || c == 0x205F
    || c == 0x3000

unfoldable pub trim_space : List ℕ → List ℕ
unfolding trim_left trim_right is_space
trim_space s = trim_right is_space (trim_left is_space s)
