-- ===== src/Auth/Handler.antt =====
-- internal/auth/handler.go.
pub mod Accounts
pub mod Sessions
use go_spoc.Prelude.{
  ℕ, Bool, true, false, ◌||◌, not, List, [], Option, none, some, codes, is_empty, if◌then◌else◌,
  length, ltb,
}
use go_spoc.Prelude.Int.{ℤ}
use go_spoc.Result.{Result, ok, err}
use go_spoc.Strings.{trim_space}
use go_spoc.Strings.Case.{to_lower}
use go_spoc.Strings.Utf8.{utf8}
use go_spoc.Db.{DbError, unique_violation, no_rows}
use go_spoc.Http.{Reply, error, json, panic, other_value}
use go_spoc.User.{User}
use go_spoc.User.Repository as Users
use go_spoc.World.{Act, pure, ◌>>=◌}
use go_spoc.Auth.Password.{Argon, PasswordError, panicked, hash_password, verify_password}
use go_spoc.Auth.Jwt.{Signer, generate_jwt}

pub record SignupRequest : Type 0 where
  pub email : List ℕ
  pub password : List ℕ
  pub role : List ℕ

pub record SignupResponse : Type 0 where
  pub id : ℤ
  pub email : List ℕ
  pub role : List ℕ

pub record LoginRequest : Type 0 where
  pub email : List ℕ
  pub password : List ℕ

pub record LoginResponse : Type 0 where
  pub id : ℤ
  pub email : List ℕ
  pub role : List ℕ
  pub token : List ℕ

-- The guards that both handlers have, on the address as it is cleaned; none lets the request pass.
unfoldable pub refusal : List ℕ → List ℕ → Option (List ℕ)
unfolding utf8
refusal email password =
    if is_empty email || is_empty password
    then some (codes "email and password cant be empty")
    else if ltb (length (utf8 password)) 8
    then some (codes "password must be at least 8 characters")
    else none

unfoldable pub clean_email : (ℕ → ℕ) → List ℕ → List ℕ
unfolding to_lower trim_space
clean_email unicode_lower email = trim_space (to_lower unicode_lower email)

-- `role := strings.ToLower(req.Role)`, and "user" if that is empty.
unfoldable pub clean_role : (ℕ → ℕ) → List ℕ → List ℕ
unfolding to_lower
clean_role unicode_lower role =
    let lower = to_lower unicode_lower role in if is_empty lower then codes "user" else lower

abbrev pub signed_up : Result DbError User → Reply SignupResponse
signed_up (err unique_violation) = error 409 (codes "user with this email already exists")
signed_up (err _) = error 500 (codes "failed to create user")
signed_up (ok u) = json 201 (record { id = u.id; email = u.email; role = u.role })

-- `salt` is what the random source fills in.
unfoldable pub store_user :
    List ℕ → List ℕ → Result PasswordError (List ℕ) → Act (Reply SignupResponse)
unfolding Users.create
store_user email role (err panicked) = pure (panic other_value)
store_user email role (err _) = pure (error 500 (codes "failed to hash password"))
store_user email role (ok hash) = do u ← Users.create email hash role; pure (signed_up u)

module _ (unicode_lower : ℕ → ℕ) (argon : Argon) where
  unfoldable pub signup_checked :
      Option (List ℕ) → SignupRequest → Option (List ℕ) → Act (Reply SignupResponse)
  unfolding store_user clean_email clean_role hash_password
  signup_checked salt req (some text) = pure (error 400 text)
  signup_checked salt req none =
      store_user (clean_email unicode_lower req.email) (clean_role unicode_lower req.role)
        (hash_password argon req.password salt)

  unfoldable pub signup : Option (List ℕ) → Option SignupRequest → Act (Reply SignupResponse)
  unfolding signup_checked refusal clean_email
  signup salt none = pure (error 400 (codes "invalid json body"))
  signup salt (some req) =
      signup_checked salt req (refusal (clean_email unicode_lower req.email) req.password)

  -- `now` are the two readings of the clock for the token.
  module _ (sign : Signer) (secret : List ℕ) (now : ℤ × ℤ) where
    abbrev pub with_token : User → Option (List ℕ) → Reply LoginResponse
    with_token u none = error 500 (codes "failed to login")
    with_token u (some token) =
        json 200 (record { id = u.id; email = u.email; role = u.role; token = token })

    unfoldable pub with_answer : User → Result PasswordError Bool → Reply LoginResponse
    unfolding generate_jwt
    with_answer u (err panicked) = panic other_value
    with_answer u (err _) = error 500 (codes "failed to login")
    with_answer u (ok false) = error 401 (codes "invalid email or password")
    with_answer u (ok true) = with_token u (generate_jwt sign now.0 now.1 u.id secret)

    unfoldable pub with_user : List ℕ → Result DbError User → Reply LoginResponse
    unfolding with_answer verify_password
    with_user password (err no_rows) = error 401 (codes "invalid email or password")
    with_user password (err _) = error 500 (codes "failed to login")
    with_user password (ok u) = with_answer u (verify_password argon password u.password_hash)

    unfoldable pub login_checked : LoginRequest → Option (List ℕ) → Act (Reply LoginResponse)
    unfolding with_user clean_email Users.find_by_email
    login_checked req (some text) = pure (error 400 text)
    login_checked req none = do
      u ← Users.find_by_email (clean_email unicode_lower req.email)
      pure (with_user req.password u)

    unfoldable pub login : Option LoginRequest → Act (Reply LoginResponse)
    unfolding login_checked refusal clean_email
    login none = pure (error 400 (codes "invalid json body"))
    login (some req) =
        login_checked req (refusal (clean_email unicode_lower req.email) req.password)
