-- ===== src/Httpx/Uuid.antt =====
-- The form of a fresh request id: that of a random UUID.
use Prim.Native.Nat.{bit_and, bit_or}
use go_spoc.Prelude.{
  ℕ, zero, suc, ◌+◌, ◌/◌, ◌%◌, ◌<◌, ◌≡◌, refl, ap, ◌∙◌, Bool, true, ◌&&◌, ◌||◌, List, [], ◌∷◌, some,
  map, length, leb, arith, All,
}
use go_spoc.Prelude.Eq.{◌==◌, nat_eq, nat_beq_iff}
use go_spoc.Strings.{split, join}
use go_spoc.Strings.Lines.{split-join, Free}
use go_spoc.Httpx.RequestId.{slice, hex, hex_digit, stamped, dashed, new_request_id}

abbrev pub is_hex : ℕ → Bool
is_hex c = (leb b'0' c && leb c b'9') || (leb b'a' c && leb c b'f')

-- Checked value by value below a bound.
all_below : ℕ → (ℕ → Bool) → Bool
all_below zero p = true
all_below (suc n) p = p n && all_below n p

all_below_lem : (n : ℕ) (p : ℕ → Bool) (x : ℕ) → all_below n p ≡ true → x < n → p x ≡ true
unfolding all_below
all_below_lem zero p x h k = ground (arith, k)
all_below_lem (suc n) p x h k = ground (arith, h, k, all_below_lem n p x)

version_table : all_below 256 (λ b. bit_or (bit_and b 0x0f) 0x40 == 64 + b % 16) ≡ true
unfolding all_below
version_table = refl

variant_table : all_below 256 (λ b. bit_or (bit_and b 0x3f) 0x80 == 128 + b % 64) ≡ true
unfolding all_below
variant_table = refl

version_byte : (b : ℕ) → b < 256 → bit_or (bit_and b 0x0f) 0x40 ≡ 64 + b % 16
version_byte b h = (nat_beq_iff _ _).0 (all_below_lem 256 _ b version_table h)

variant_byte : (b : ℕ) → b < 256 → bit_or (bit_and b 0x3f) 0x80 ≡ 128 + b % 64
variant_byte b h = (nat_beq_iff _ _).0 (all_below_lem 256 _ b variant_table h)

abbrev IsByte : ℕ → Type 0
IsByte b = b < 256

abbrev AllHex : List ℕ → Type 0
AllHex s = All (λ c. is_hex c ≡ true) s

module _ (b : ℕ → ℕ) (bounded : (i : ℕ) → b i < 256) where
  stamped-IsByte : (i : ℕ) → stamped b i < 256
  stamped-IsByte i = ground (
    arith,
    version_byte (b 6) (bounded 6),
    variant_byte (b 8) (bounded 8),
    bounded i,
    bounded 6,
    bounded 8,
  )

slice-IsByte : (b : ℕ → ℕ) → ((i : ℕ) → b i < 256) → (i n : ℕ) → All IsByte (slice b i n)
unfolding slice
slice-IsByte b h i zero = tt
slice-IsByte b h i (suc n) = (h i, slice-IsByte b h (i + 1) n)

hex-AllHex : (s : List ℕ) → All IsByte s → AllHex (hex s)
unfolding hex
hex-AllHex [] h = tt
hex-AllHex (b ∷ s) h = (ground arith, (ground arith, hex-AllHex s h.1))

AllHex-Free : (s : List ℕ) → AllHex s → Free b'-' s
AllHex-Free [] h = tt
AllHex-Free (c ∷ s) h = (ground (arith, h.0), AllHex-Free s h.1)

abbrev groups_of : (ℕ → ℕ) → List (List ℕ)
groups_of b =
    hex (slice b 0 4)
    ∷ hex (slice b 4 2)
    ∷ hex (slice b 6 2)
    ∷ hex (slice b 8 2)
    ∷ hex (slice b 10 6)
    ∷ []

groups_of-AllHex : (b : ℕ → ℕ) → ((i : ℕ) → b i < 256) → All AllHex (groups_of b)
groups_of-AllHex b h =
    let digits = λ (i n : ℕ). hex-AllHex (slice b i n) (slice-IsByte b h i n) in
    (digits 0 4, (digits 4 2, (digits 6 2, (digits 8 2, (digits 10 6, tt)))))

AllHex-AllFree : (ss : List (List ℕ)) → All AllHex ss → All (Free b'-') ss
AllHex-AllFree [] h = tt
AllHex-AllFree (s ∷ ss) h = (AllHex-Free s h.0, AllHex-AllFree ss h.1)

dashed-groups_of : (b : ℕ → ℕ) → dashed b ≡ join b'-' (groups_of b)
unfolding hex slice join
dashed-groups_of b = refl

split-dashed : (b : ℕ → ℕ) → ((i : ℕ) → b i < 256) → split b'-' (dashed b) ≡ groups_of b
split-dashed b h =
    ap (split b'-') (dashed-groups_of b)
    ∙ split-join b'-' _ _ (AllHex-AllFree (groups_of b) (groups_of-AllHex b h))

-- The first character of a text.
abbrev pub first : List ℕ → ℕ
first [] = 0
first (c ∷ _) = c

version_digit : (n : ℕ) → n < 256 → hex_digit (bit_or (bit_and n 0x0f) 0x40 / 16) ≡ b'4'
version_digit n h = rw (version_byte n h) (ground arith)

abbrev pub is_variant : ℕ → Bool
is_variant c = c == b'8' || c == b'9' || c == b'a' || c == b'b'

variant_digit :
    (n : ℕ) → n < 256 → is_variant (hex_digit (bit_or (bit_and n 0x3f) 0x80 / 16)) ≡ true
variant_digit n h = rw (variant_byte n h) (ground arith)

-- Five groups of hexadecimal digits, of the version 4 and the variant of RFC 9562.
pub record IsUuid (id : List ℕ) : Type 0 where
  pub a : List ℕ
  pub b : List ℕ
  pub c : List ℕ
  pub d : List ℕ
  pub e : List ℕ
  pub groups : split b'-' id ≡ a ∷ b ∷ c ∷ d ∷ e ∷ []
  pub lengths : map length (a ∷ b ∷ c ∷ d ∷ e ∷ []) ≡ 8 ∷ 4 ∷ 4 ∷ 4 ∷ 12 ∷ []
  pub digits : All AllHex (a ∷ b ∷ c ∷ d ∷ e ∷ [])
  pub version : first c ≡ b'4'
  pub variant : is_variant (first d) ≡ true

-- A fresh id from sixteen random bytes is a UUID: cut at its dashes it gives groups of 8, 4, 4, 4
-- and 12 hexadecimal digits, the third begins with 4 and the fourth with 8, 9, a or b.
pub new_request_id-IsUuid :
    (b : ℕ → ℕ) (time_text : List ℕ)
    → ((i : ℕ) → b i < 256)
    → IsUuid (new_request_id (some b) time_text)
unfolding new_request_id hex slice
new_request_id-IsUuid b time_text h = record {
  a = hex (slice (stamped b) 0 4);
  b = hex (slice (stamped b) 4 2);
  c = hex (slice (stamped b) 6 2);
  d = hex (slice (stamped b) 8 2);
  e = hex (slice (stamped b) 10 6);
  groups = split-dashed (stamped b) (stamped-IsByte b h);
  lengths = refl;
  digits = groups_of-AllHex (stamped b) (stamped-IsByte b h);
  version = version_digit (b 6) (h 6);
  variant = variant_digit (b 8) (h 8);
}
