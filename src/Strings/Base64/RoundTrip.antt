-- ===== src/Strings/Base64/RoundTrip.antt =====
-- Bytes are read back from their base64 text, which is made of symbols alone.
use go_spoc.Prelude.{
  ℕ, ◌<◌, ◌≡◌, ◌≢◌, refl, ◌∙◌, ap, false, List, [], ◌∷◌, map, some, All, arith, ◌||◌,
}
use go_spoc.Prelude.Eq.{◌==◌, nat_eq}
use go_spoc.Strings.Base64.{symbol, sextet, groups, encode, bytes, bytes_of, sextets, decode}

abbrev pub IsByte : ℕ → Type 0
IsByte b = b < 256

abbrev IsSextet : ℕ → Type 0
IsSextet n = n < 64

sextet-symbol : (n : ℕ) → n < 64 → sextet (symbol n) ≡ some n
unfolding sextet symbol
sextet-symbol n h = ground arith

symbol-visible : (n : ℕ) → n < 64 → (symbol n == 10 || symbol n == 13) ≡ false
unfolding symbol
symbol-visible n h = ground arith

groups-IsSextet : (s : List ℕ) → All IsByte s → All IsSextet (groups s)
unfolding groups
groups-IsSextet [] h = tt
groups-IsSextet (a ∷ []) h = (omega arith, (omega arith, tt))
groups-IsSextet (a ∷ b ∷ []) h = (omega arith, (omega arith, (omega arith, tt)))
groups-IsSextet (a ∷ b ∷ c ∷ s) h =
    (omega arith, (omega arith, (omega arith, (omega arith, groups-IsSextet s h.1.1.1))))

bytes-groups : (s : List ℕ) → All IsByte s → bytes (groups s) ≡ some s
unfolding groups bytes
bytes-groups [] h = refl
bytes-groups (a ∷ []) h = ground arith
bytes-groups (a ∷ b ∷ []) h = ground arith
bytes-groups (a ∷ b ∷ c ∷ s) h = rw (bytes-groups s h.1.1.1) (ground arith)

sextets-map-symbol : (s : List ℕ) → All IsSextet s → sextets (map symbol s) ≡ some s
unfolding sextets
sextets-map-symbol [] h = refl
sextets-map-symbol (n ∷ s) h =
    rw (symbol-visible n h.0, sextets-map-symbol s h.1, sextet-symbol n h.0) refl

pub decode-encode : (s : List ℕ) → All IsByte s → decode (encode s) ≡ some s
unfolding decode encode
decode-encode s h =
    ap bytes_of (sextets-map-symbol (groups s) (groups-IsSextet s h)) ∙ bytes-groups s h

-- No symbol is a dollar sign.
symbol-plain : (n : ℕ) → n < 64 → symbol n ≢ b'$'
unfolding symbol
symbol-plain n h = ground arith

map-symbol-plain : (s : List ℕ) → All IsSextet s → All (λ c. c ≢ b'$') (map symbol s)
map-symbol-plain [] h = tt
map-symbol-plain (n ∷ s) h = (symbol-plain n h.0, map-symbol-plain s h.1)

pub encode-plain : (s : List ℕ) → All IsByte s → All (λ c. c ≢ b'$') (encode s)
unfolding encode
encode-plain s h = map-symbol-plain (groups s) (groups-IsSextet s h)
