-- ===== src/Strings/Base64.antt =====
-- encoding/base64: `RawStdEncoding`, which has no padding.
pub mod RoundTrip
use go_spoc.Prelude.{
  ℕ, ◌+◌, ◌-◌, ◌*◌, ◌/◌, ◌%◌, ◌&&◌, ◌||◌, List, [], ◌∷◌, map, Option, none, some, if◌then◌else◌,
  ltb, leb,
}
use go_spoc.Prelude.Eq.{◌==◌, nat_eq}

-- The letters stand for 0 to 25, the small letters for 26 to 51, the digits for 52 to 61.
unfoldable pub symbol : ℕ → ℕ
symbol n =
    if ltb n 26
    then b'A' + n
    else if ltb n 52
    then b'a' + (n - 26)
    else if ltb n 62
    then b'0' + (n - 52)
    else if n == 62
    then b'+'
    else b'/'

unfoldable pub sextet : ℕ → Option ℕ
sextet c =
    if leb b'A' c && leb c b'Z'
    then some (c - b'A')
    else if leb b'a' c && leb c b'z'
    then some (c - b'a' + 26)
    else if leb b'0' c && leb c b'9'
    then some (c - b'0' + 52)
    else if c == b'+'
    then some 62
    else if c == b'/'
    then some 63
    else none

-- Three bytes are four groups of six bits; one or two that are left over are two or three.
unfoldable pub groups : List ℕ → List ℕ
groups [] = []
groups (a ∷ []) = a / 4 ∷ (a % 4) * 16 ∷ []
groups (a ∷ b ∷ []) = a / 4 ∷ ((a % 4) * 16 + b / 16) ∷ (b % 16) * 4 ∷ []
groups (a ∷ b ∷ c ∷ s) =
    a / 4 ∷ ((a % 4) * 16 + b / 16) ∷ ((b % 16) * 4 + c / 64) ∷ c % 64 ∷ groups s

unfoldable pub encode : List ℕ → List ℕ
unfolding symbol groups
encode s = map symbol (groups s)

abbrev pub quantum : ℕ → ℕ → ℕ → ℕ → Option (List ℕ) → Option (List ℕ)
quantum x y z u none = none
quantum x y z u (some t) =
    some ((x * 4 + y / 16) ∷ ((y % 16) * 16 + z / 4) ∷ ((z % 4) * 64 + u) ∷ t)

-- One group alone is an error; bits that fill no byte are dropped.
unfoldable pub bytes : List ℕ → Option (List ℕ)
bytes [] = some []
bytes (x ∷ []) = none
bytes (x ∷ y ∷ []) = some ((x * 4 + y / 16) ∷ [])
bytes (x ∷ y ∷ z ∷ []) = some ((x * 4 + y / 16) ∷ ((y % 16) * 16 + z / 4) ∷ [])
bytes (x ∷ y ∷ z ∷ u ∷ s) = quantum x y z u (bytes s)

abbrev pub cons_both : Option ℕ → Option (List ℕ) → Option (List ℕ)
cons_both none rest = none
cons_both (some x) none = none
cons_both (some x) (some xs) = some (x ∷ xs)

-- Line breaks are skipped, any other byte that is no symbol is an error.
unfoldable pub sextets : List ℕ → Option (List ℕ)
unfolding sextet
sextets [] = some []
sextets (c ∷ s) =
    let rest = sextets s in if c == 10 || c == 13 then rest else cons_both (sextet c) rest

abbrev pub bytes_of : Option (List ℕ) → Option (List ℕ)
bytes_of none = none
bytes_of (some xs) = bytes xs

unfoldable pub decode : List ℕ → Option (List ℕ)
unfolding sextets bytes
decode s = bytes_of (sextets s)
