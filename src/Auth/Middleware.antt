-- ===== src/Auth/Middleware.antt =====
-- internal/auth/middleware.go. The token library is a parameter: it reads a token with the key
-- that a function of the token's method gives.
pub mod Bearer
use go_spoc.Prelude.{
  ℕ, String, Bool, true, false, ◌||◌, not, List, [], ◌∷◌, Option, none, some, codes, is_empty,
  if◌then◌else◌,
}
use go_spoc.Prelude.Eq.{◌==◌, string_eq, list_eq, nat_eq}
use go_spoc.Prelude.Int.{ℤ}
use go_spoc.Result.{Result, ok, err}
use go_spoc.Strings.{cut_prefix}
use go_spoc.Strings.Decimal.{parse_int}
use go_spoc.Db.{DbError}
use go_spoc.Http.{Reply, error}
use go_spoc.User.{User}
use go_spoc.User.Repository as Users
use go_spoc.World.{Act, pure, ◌>>=◌}

-- A parsed token: whether it is valid, and the subject of its claims. `claims` is none if they are
-- not a jwt.MapClaims, `subject` is none if GetSubject fails.
pub record Token : Type 0 where
  pub valid : Bool
  pub claims : Option (Option (List ℕ))

-- jwt.Parse; none if it fails.
abbrev pub Parser : Type 0
Parser = (String → Option (List ℕ)) → List ℕ → Option Token

-- The function that jwt.Parse is given: the secret is for HS256 alone.
unfoldable pub key_for : List ℕ → String → Option (List ℕ)
key_for secret method = if method == "HS256" then some secret else none

abbrev number_or_error : Option ℤ → Result (List ℕ) ℤ
number_or_error none = err (codes "invalid token subject")
number_or_error (some id) = ok id

unfoldable pub subject_of : Option (Option (List ℕ)) → Result (List ℕ) ℤ
unfolding parse_int
subject_of none = err (codes "invalid token claims")
subject_of (some none) = err (codes "invalid token subject")
subject_of (some (some sub)) = number_or_error (parse_int sub)

unfoldable pub user_of : Option Token → Result (List ℕ) ℤ
unfolding subject_of
user_of none = err (codes "invalid token")
user_of (some token) = if token.valid then subject_of token.claims else err (codes "invalid token")

module _ (parse : Parser) (secret : List ℕ) where
  unfoldable pub bearer : Option (List ℕ) → Result (List ℕ) ℤ
  unfolding user_of key_for
  bearer none = err (codes "invalid authorization header")
  bearer (some token) =
      if is_empty token
      then err (codes "invalid authorization header")
      else user_of (parse (key_for secret) token)

  -- The user of an Authorization header ("" if it is missing), or the text of the answer 401.
  unfoldable pub authenticate : List ℕ → Result (List ℕ) ℤ
  unfolding bearer cut_prefix
  authenticate header =
      if is_empty header
      then err (codes "missing auth header")
      else bearer (cut_prefix (codes "Bearer ") header)

  abbrev admit : {A : Type 0} → (Option ℤ → Act (Reply A)) → Result (List ℕ) ℤ → Act (Reply A)
  admit next (err text) = pure (error 401 text)
  admit next (ok user_id) = next (some user_id)

  unfoldable pub auth_middleware :
      {A : Type 0} → List ℕ → (Option ℤ → Act (Reply A)) → Act (Reply A)
  unfolding authenticate
  auth_middleware header next = admit next (authenticate header)

abbrev pub member : List (List ℕ) → List ℕ → Bool
member [] role = false
member (r ∷ roles) role = r == role || member roles role

module _ {A : Type 0} (roles : List (List ℕ)) (next : Option ℤ → Act (Reply A)) where
  unfoldable pub on_user : Option ℤ → Result DbError User → Act (Reply A)
  on_user user (err e) = pure (error 401 (codes "unauthorized"))
  on_user user (ok u) =
      if member roles u.role then next user else pure (error 403 (codes "forbidden"))

  unfoldable pub require_any_role : Option ℤ → Act (Reply A)
  unfolding on_user Users.find_by_id
  require_any_role none = pure (error 401 (codes "unauthorized"))
  require_any_role (some user_id) = do u ← Users.find_by_id user_id; on_user (some user_id) u
