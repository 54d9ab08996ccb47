-- ===== src/Auth/Jwt.antt =====
-- internal/auth/jwt.go. The library that signs tokens is a parameter.
pub mod Tokens
use go_spoc.Prelude.{ℕ, String, List, Option, none, some, is_empty, if◌then◌else◌}
use go_spoc.Prelude.Int.{ℤ, pos, ◌+ℤ◌}
use go_spoc.Strings.Decimal.{format_int}

-- jwt.MapClaims, with its times in seconds.
pub record Claims : Type 0 where
  pub sub : List ℕ
  pub exp : ℤ
  pub iat : ℤ

-- `jwt.NewWithClaims(jwt.SigningMethodHS256, claims).SignedString([]byte(secret))`, from the
-- method's name, the secret and the claims; none if it fails.
abbrev pub Signer : Type 0
Signer = String → List ℕ → Claims → Option (List ℕ)

-- 24 * time.Hour.
abbrev pub token_seconds : ℤ
token_seconds = pos 86400

-- The two readings of the clock are for `exp` and for `iat`; none is an error.
unfoldable pub generate_jwt : Signer → ℤ → ℤ → ℤ → List ℕ → Option (List ℕ)
unfolding format_int ◌+ℤ◌
generate_jwt sign first second user_id secret =
    if is_empty secret
    then none
    else sign "HS256" secret
        (record { sub = format_int user_id; exp = first +ℤ token_seconds; iat = second })
