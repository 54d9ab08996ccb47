-- ===== src/Auth/Middleware/Bearer.antt =====
-- Which Authorization headers name a user.
use go_spoc.Prelude.{ℕ, ◌≡◌, true, List, ◌++◌, some, codes}
use go_spoc.Prelude.Eq.{nat_eq}
use go_spoc.Prelude.Int.{ℤ}
use go_spoc.Strings.Decimal.{parse_int}
use go_spoc.Auth.Middleware.{Token, Parser, key_for}

-- A header that carries a token which is valid under the secret, signed by HS256, and whose
-- subject is the id of a user.
pub record Names (parse : Parser) (secret header : List ℕ) (id : ℤ) : Type 0 where
  pub text : List ℕ
  pub token : Token
  pub subject : List ℕ
  pub header_is : header ≡ codes "Bearer " ++ text
  pub parsed : parse (key_for secret) text ≡ some token
  pub valid : token.valid ≡ true
  pub claimed : token.claims ≡ some (some subject)
  pub number : parse_int subject ≡ some id
