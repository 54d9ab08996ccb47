-- ===== src/Auth/Jwt/Tokens.antt =====
-- A token that was given out names its user to the middleware.
use go_spoc.Prelude.{
  ℕ, String, ◌≡◌, ◌≢◌, refl, ap, ◌∙◌, true, List, [], ◌∷◌, ◌++◌, Option, some, codes, is_empty,
  Bool-cases, inl, inr,
}
use go_spoc.Prelude.Eq.{string_eq, nat_eq}
use go_spoc.Prelude.Int.{ℤ, ◌<ℤ◌, ◌+ℤ◌}
use go_spoc.Result.{ok}
use go_spoc.Strings.{cut_prefix}
use go_spoc.Strings.Decimal.{parse_int, format_int}
use go_spoc.Strings.Decimal.RoundTrip.{InInt64, parse_int-format_int}
use go_spoc.Auth.Jwt.{Claims, Signer, generate_jwt, token_seconds}
use go_spoc.Auth.Middleware.{Token, Parser, key_for, authenticate, bearer, user_of, subject_of}

-- What the program relies on of the library, at a time: a token that was signed by HS256 is not
-- empty, and is read back by whoever gives the same key for HS256, as long as it has not expired.
pub record IsJwt (sign : Signer) (parse : Parser) (at_time : ℤ) : Type 0 where
  pub reads :
      (secret : List ℕ) (claims : Claims) (token : List ℕ) (key : String → Option (List ℕ))
      → sign "HS256" secret claims ≡ some token
      → key "HS256" ≡ some secret
      → at_time <ℤ claims.exp
      → (token ≢ [])
        × (parse key token ≡ some (record { valid = true; claims = some (some claims.sub) }))

key_for_own : (secret : List ℕ) → key_for secret "HS256" ≡ some secret
unfolding key_for
key_for_own secret = refl

-- A header that carries a token.
authenticate-bearer :
    (parse : Parser) (secret token : List ℕ) {t : Token}
    → token ≢ []
    → parse (key_for secret) token ≡ some t
    → authenticate parse secret (codes "Bearer " ++ token) ≡ user_of (some t)
unfolding authenticate cut_prefix bearer
authenticate-bearer parse secret [] h e = absurd (h refl)
authenticate-bearer parse secret (c ∷ token) h e = ap user_of e

user_of-sub :
    (sub : List ℕ) {id : ℤ}
    → parse_int sub ≡ some id
    → user_of (some (record { valid = true; claims = some (some sub) })) ≡ ok id
unfolding user_of subject_of
user_of-sub sub e = rw e refl

-- Within 24 hours a token that was given out for a user is let through as this user's, by a
-- middleware with the same secret. The token library is taken to read what it has signed.
pub authenticate-generate_jwt :
    (sign : Signer) (parse : Parser) (at_time first second id : ℤ) (secret token : List ℕ)
    → IsJwt sign parse at_time
    → InInt64 id
    → at_time <ℤ first +ℤ token_seconds
    → generate_jwt sign first second id secret ≡ some token
    → authenticate parse secret (codes "Bearer " ++ token) ≡ ok id
unfolding generate_jwt
authenticate-generate_jwt sign parse at_time first second id secret token lib small live h =
    elim (Bool-cases (is_empty secret)) [
      | inl e ↦ let h' = rw e at h in cc
      | inr e ↦
          let h' = rw e at h in
          let (some_token, parsed) =
            lib.reads secret _ token (key_for secret) h' (key_for_own secret) live in
          authenticate-bearer parse secret token some_token parsed
          ∙ user_of-sub (format_int id) (parse_int-format_int id small)
    ]
