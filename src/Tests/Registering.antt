-- ===== src/Tests/Registering.antt =====
-- Accounts, passwords and tokens, with a toy in place of argon2 and of the token library.
use go_spoc.Prelude.{
  ℕ, zero, suc, ◌%◌, ◌≤◌, ◌≡◌, ◌≢◌, ◌↔◌, refl, true, List, [], ◌∷◌, none, some, codes, length, All,
  arith, ap,
}
use go_spoc.Prelude.Eq.{list_beq}
use go_spoc.Prelude.Int.{ℤ, pos, ◌+ℤ◌}
use go_spoc.Result.{ok}
use go_spoc.Http.{error, json}
use go_spoc.Db.{exists}
use go_spoc.Strings.{trim_space, trim_left, trim_right, is_space}
use go_spoc.Strings.Case.{to_lower}
use go_spoc.Strings.Utf8.{utf8}
use go_spoc.Strings.Decimal.{format_int, format_nat, digits_from}
use go_spoc.Strings.Base64.{encode, groups, symbol}
use go_spoc.Strings.Base64.RoundTrip.{IsByte}
use go_spoc.User.Repository.{insert_user}
use go_spoc.User.Repository as Users
use go_spoc.World.{World, transact}
use go_spoc.Auth.Password.{Argon, hash_password, verify_password, encoded}
use go_spoc.Auth.Password.Laws.{IsKdf, key_of, verify_password-hash_password}
use go_spoc.Auth.Jwt.{Signer, generate_jwt}
use go_spoc.Auth.Jwt.Tokens.{IsJwt, authenticate-generate_jwt}
use go_spoc.Auth.Middleware.{Parser, authenticate}
use go_spoc.Auth.Handler.{
  SignupRequest, SignupResponse, refusal, clean_email, clean_role, store_user, signup_checked,
  signup, login,
}
use go_spoc.Auth.Handler.Accounts.{Registered, signup-Registered}
use go_spoc.Auth.Handler.Sessions.{login-signup}
use go_spoc.Tests.Fixtures.{start, calm, tables}

-- The first bytes of the password, and zeros behind them.
abbrev padded : ℕ → List ℕ → List ℕ
padded zero p = []
padded (suc n) [] = 0 ∷ padded n []
padded (suc n) (c ∷ p) = c % 256 ∷ padded n p

length-padded : (n : ℕ) (p : List ℕ) → length (padded n p) ≡ n
length-padded zero p = refl
length-padded (suc n) [] = ap suc (length-padded n [])
length-padded (suc n) (c ∷ p) = ap suc (length-padded n p)

padded-IsByte : (n : ℕ) (p : List ℕ) → All IsByte (padded n p)
padded-IsByte zero p = tt
padded-IsByte (suc n) [] = (omega arith, padded-IsByte n [])
padded-IsByte (suc n) (c ∷ p) = (omega arith, padded-IsByte n p)

abbrev toy_argon : Argon
toy_argon password salt time memory threads len = some (padded len password)

toy_argon-IsKdf : IsKdf toy_argon
toy_argon-IsKdf = record {
  key = λ password salt time memory threads len h k.
      (padded len password, refl, length-padded len password, padded-IsByte len password);
}

abbrev toy_salt : List ℕ
toy_salt = 1 ∷ 2 ∷ 3 ∷ 250 ∷ 5 ∷ []

toy_salt-IsByte : All IsByte toy_salt
toy_salt-IsByte = omega arith

verify_password-hash_password_example :
    (e : List ℕ) × (hash_password toy_argon (codes "open sesame") (some toy_salt) ≡ ok e)
    × (verify_password toy_argon (codes "open sesame") e ≡ ok true)
    × ((other : List ℕ)
        → (verify_password toy_argon other e ≡ ok true) ↔ (
            toy_argon (utf8 other) toy_salt 1 65536 4 32
            ≡ toy_argon (utf8 (codes "open sesame")) toy_salt 1 65536 4 32))
verify_password-hash_password_example =
    verify_password-hash_password toy_argon toy_argon-IsKdf (codes "open sesame") toy_salt
      toy_salt-IsByte

abbrev ben : SignupRequest
ben = record { email = codes " Ben@X "; password = codes "open sesame"; role = [] }

abbrev ben_account : SignupResponse
ben_account = record { id = pos 2; email = codes "ben@x"; role = codes "user" }

abbrev joined : World
joined = (signup (λ c. c) toy_argon (some toy_salt) (some ben) calm start).1

ben_signs_up :
    (signup (λ c. c) toy_argon (some toy_salt) (some ben) calm start).0 ≡ json 201 ben_account
unfolding signup signup_checked refusal clean_email clean_role store_user hash_password encoded
    encode groups symbol utf8 to_lower trim_space trim_left trim_right is_space format_nat
    digits_from Users.create insert_user transact exists list_beq
ben_signs_up = refl

signup-Registered_example :
    (hash : List ℕ) × (hash_password toy_argon ben.password (some toy_salt) ≡ ok hash)
    × Registered
        (clean_email (λ c. c) ben.email)
        (clean_role (λ c. c) ben.role)
        hash
        ben.password
        tables
        joined.db
        ben_account
signup-Registered_example =
    signup-Registered (λ c. c) toy_argon (some toy_salt) ben calm start ben_signs_up

abbrev toy_sign : Signer
toy_sign method secret claims = some (b'.' ∷ claims.sub)

abbrev toy_parse : Parser
toy_parse key [] = none
toy_parse key (c ∷ sub) = some (record { valid = true; claims = some (some sub) })

toy-IsJwt : (at_time : ℤ) → IsJwt toy_sign toy_parse at_time
toy-IsJwt at_time = record {
  reads = λ secret claims token key signed known live. read token claims.sub signed;
}
  where
    read :
        (token sub : List ℕ)
        → some (b'.' ∷ sub) ≡ some token
        → (token ≢ [])
          × (toy_parse (λ m. none) token ≡ some (record { valid = true; claims = some (some sub) }))
    read [] sub h = cc
    read (c ∷ token) sub h = (λ e. cc, ground (arith, h))

authenticate-generate_jwt_example :
    authenticate toy_parse (codes "s") (codes "Bearer .12") ≡ ok (pos 12)
unfolding generate_jwt format_int format_nat digits_from ◌+ℤ◌
authenticate-generate_jwt_example =
    authenticate-generate_jwt toy_sign toy_parse (pos 40) (pos 30) (pos 30) (pos 12) (codes "s")
      (codes ".12") (toy-IsJwt (pos 40)) (omega arith) (omega arith) refl

login-signup_example :
    ((login
        (λ c. c)
        toy_argon
        toy_sign
        (codes "s")
        (pos 30, pos 30)
        (some (record { email = ben.email; password = ben.password }))
        calm
        joined).0
      ≡ json 200
          (record { id = pos 2; email = codes "ben@x"; role = codes "user"; token = codes ".2" }))
    × ((other : List ℕ)
        → 8 ≤ length (utf8 other)
        → key_of toy_argon toy_argon-IsKdf ben.password toy_salt other
          ≢ key_of toy_argon toy_argon-IsKdf ben.password toy_salt ben.password
        → (login
            (λ c. c)
            toy_argon
            toy_sign
            (codes "s")
            (pos 30, pos 30)
            (some (record { email = ben.email; password = other }))
            calm
            joined).0
          ≡ error 401 (codes "invalid email or password"))
unfolding generate_jwt format_int format_nat digits_from ◌+ℤ◌
login-signup_example =
    login-signup (λ c. c) toy_argon toy_argon-IsKdf toy_salt ben toy_sign (codes "s")
      (pos 30, pos 30) calm start toy_salt-IsByte ben_signs_up refl refl
