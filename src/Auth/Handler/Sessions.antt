-- ===== src/Auth/Handler/Sessions.antt =====
-- Logging in with an account that was signed up.
use go_spoc.Prelude.{
  ℕ, ◌≤◌, ◌≡◌, ◌≢◌, refl, sym, ap, ◌∙◌, Bool, true, false, List, [], ◌∷◌, ◌++◌, none, some, length,
  arith, codes, All,
}
use go_spoc.Prelude.Eq.{◌==◌, list_eq, nat_eq, list_beq_iff}
use go_spoc.Prelude.Int.{ℤ}
use go_spoc.Result.{ok}
use go_spoc.Strings.Utf8.{utf8}
use go_spoc.Strings.Base64.RoundTrip.{IsByte}
use go_spoc.Db.{exists, query_row}
use go_spoc.Http.{Reply, error, json}
use go_spoc.User.{User}
use go_spoc.User.Repository as Users
use go_spoc.World.{Env, World, up, transact}
use go_spoc.Auth.Password.{Argon, verify_password}
use go_spoc.Auth.Password.Laws.{IsKdf, key_of, verify_password-hash_password, verify_password_other}
use go_spoc.Auth.Jwt.{Signer, generate_jwt}
use go_spoc.Auth.Handler.{
  SignupRequest, SignupResponse, LoginResponse, refusal, clean_email, clean_role, signup, login,
  login_checked, with_user, with_answer, with_token,
}
use go_spoc.Auth.Handler.Accounts.{Registered, new_user, signup-Registered}

query_row-last :
    {A : Type 0} (p : A → Bool) (xs : List A) (y : A)
    → exists p xs ≡ false
    → p y ≡ true
    → query_row p (xs ++ y ∷ []) ≡ ok y
unfolding exists query_row
query_row-last p [] y h k = ground (arith, k)
query_row-last p (x ∷ xs) y h k = ground (arith, h, query_row-last p xs y)

refusal_passes :
    (email password : List ℕ)
    → email ≢ []
    → 8 ≤ length (utf8 password)
    → refusal email password ≡ none
unfolding refusal utf8
refusal_passes [] password h k = absurd (h refl)
refusal_passes (c ∷ email) [] h k = ground (arith, k)
refusal_passes (c ∷ email) (d ∷ password) h k = ground (arith, k)

module _ (unicode_lower : ℕ → ℕ) (argon : Argon) (kdf : IsKdf argon) (salt : List ℕ)
    (req : SignupRequest) (sign : Signer) (secret : List ℕ) (now : ℤ × ℤ) (env : Env)
    (w : World) where
  abbrev after : World
  after = (signup unicode_lower argon (some salt) (some req) env w).1

  abbrev attempt : List ℕ → Reply LoginResponse
  attempt password =
      (login unicode_lower argon sign secret now
        (some (record { email = req.email; password = password })) env after).0

  abbrev email : List ℕ
  email = clean_email unicode_lower req.email

  abbrev role : List ℕ
  role = clean_role unicode_lower req.role

  -- A log-in that passes the guards compares the password with the row of its address.
  login-found :
      (password : List ℕ) (w₂ : World) {u : User}
      → refusal email password ≡ none
      → env.link w₂.calls ≡ up
      → query_row (λ u. u.email == email) w₂.db.users ≡ ok u
      → (login unicode_lower argon sign secret now
          (some (record { email = req.email; password = password }))
          env
          w₂).0
        ≡ with_answer unicode_lower argon sign secret now u
            (verify_password argon password u.password_hash)
  unfolding login login_checked Users.find_by_email transact with_user
  login-found password w₂ e link found =
      ap
        (λ o.
          (login_checked unicode_lower argon sign secret now
            (record { email = req.email; password = password }) o env w₂).0)
        e
      ∙ rw link (ap (with_user unicode_lower argon sign secret now password) found)

  -- A log-in looks up the row that the sign-up has stored.
  login-new_user :
      (hash password : List ℕ) {resp : SignupResponse}
      → Registered email role hash req.password w.db after.db resp
      → 8 ≤ length (utf8 password)
      → env.link after.calls ≡ up
      → attempt password
        ≡ with_answer unicode_lower argon sign secret now
            (new_user email hash role w.db)
            (verify_password argon password hash)
  login-new_user hash password reg long link =
      let found : query_row (λ u. u.email == email) after.db.users
          ≡ ok (new_user email hash role w.db) =
        ap (query_row (λ u. u.email == email)) reg.added
        ∙ query_row-last (λ u. u.email == email) w.db.users (new_user email hash role w.db)
            reg.fresh ((list_beq_iff email email).1 refl) in
      login-found password after (refusal_passes email password reg.address long) link found

  -- Behind a sign-up that was answered with an account, a log-in with its address and password
  -- gives a token for this account; one with another password of at least eight bytes is refused,
  -- unless argon2 derives the same key from it. The query is taken to be answered, the token to be
  -- signed, the salt to hold bytes, and argon2 to give keys of the length asked for, made of bytes.
  pub login-signup :
      {status : ℕ} {resp : SignupResponse} {token : List ℕ}
      → All IsByte salt
      → (signup unicode_lower argon (some salt) (some req) env w).0 ≡ json status resp
      → env.link after.calls ≡ up
      → generate_jwt sign now.0 now.1 resp.id secret ≡ some token
      → (attempt req.password
          ≡ json 200 (record { id = resp.id; email = resp.email; role = resp.role; token = token }))
        × ((other : List ℕ)
            → 8 ≤ length (utf8 other)
            → key_of argon kdf req.password salt other
              ≢ key_of argon kdf req.password salt req.password
            → attempt other ≡ error 401 (codes "invalid email or password"))
  unfolding with_answer
  login-signup {resp = resp} {token = token} hs h link signed =
      let (hash, hashed, reg) = signup-Registered unicode_lower argon (some salt) req env w h in
      let (e, made, verified, _) = verify_password-hash_password argon kdf req.password salt hs in
      let same : hash ≡ e = ground (arith, hashed, made) in
      let user = new_user email hash role w.db in
      let issued : generate_jwt sign now.0 now.1 user.id secret ≡ some token =
        ap (λ (r : SignupResponse). generate_jwt sign now.0 now.1 r.id secret) (sym reg.answer)
        ∙ signed in
      (
        login-new_user hash req.password reg reg.long link
            ∙ ap (with_answer unicode_lower argon sign secret now user)
                (ap (verify_password argon req.password) same ∙ verified)
            ∙ ap (with_token unicode_lower argon sign secret now user) issued
            ∙ ap
                (λ (r : SignupResponse).
                  json 200 (record { id = r.id; email = r.email; role = r.role; token = token }))
                (sym reg.answer),
        λ other long differ.
            login-new_user hash other reg long link
            ∙ ap (with_answer unicode_lower argon sign secret now (new_user email hash role w.db))
                (verify_password_other argon kdf req.password salt hs hash other hashed differ),
      )
