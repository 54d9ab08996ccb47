-- ===== src/Auth/Handler/Accounts.antt =====
-- What a sign-up stores, and who may log in afterwards.
use go_spoc.Prelude.{
  ℕ, ◌≤◌, ◌≡◌, ◌≢◌, refl, ap, ◌∙◌, true, false, List, [], ◌∷◌, ◌++◌, Option, none, some, is_empty,
  length, Bool-cases, Option-cases, inl, inr, arith,
}
use go_spoc.Prelude.Eq.{◌==◌, list_eq, nat_eq}
use go_spoc.Prelude.Int.{pos}
use go_spoc.Result.{Result, ok, err}
use go_spoc.Strings.Utf8.{utf8}
use go_spoc.Db.{Db, DbError, exists}
use go_spoc.Http.{json}
use go_spoc.User.{User}
use go_spoc.User.Repository.{insert_user, role_allowed}
use go_spoc.User.Repository as Users
use go_spoc.World.{Env, World, Link, up, refused, lost, settle, transact}
use go_spoc.Auth.Password.{Argon, PasswordError, hash_password}
use go_spoc.Auth.Handler.{
  SignupRequest, SignupResponse, refusal, clean_email, clean_role, signed_up, store_user,
  signup_checked, signup,
}

signed_up-json :
    (l : Link) (r : Result DbError User) (db : Db) (w : World) {status : ℕ} {resp : SignupResponse}
    → signed_up (settle l (r, db) w).0 ≡ json status resp
    → (u : User) × (r ≡ ok u)
      × (resp ≡ record { id = u.id; email = u.email; role = u.role })
      × ((settle l (r, db) w).1.db ≡ db)
signed_up-json up (ok u) db w h = (u, refl, ground (arith, h), refl)
signed_up-json up (err e) db w h = ground (arith, h)
signed_up-json refused r db w h = cc
signed_up-json lost r db w h = cc

module _ (email hash role : List ℕ) (db : Db) where
  abbrev pub new_user : User
  new_user = record { id = pos db.next_user; email = email; password_hash = hash; role = role }

  insert_user-ok :
      {u : User}
      → (insert_user email hash role db).0 ≡ ok u
      → (u ≡ record new_user { password_hash = [] })
        × (role_allowed role ≡ true)
        × (exists (λ u. u.email == email) db.users ≡ false)
        × ((insert_user email hash role db).1.users ≡ db.users ++ new_user ∷ [])
  unfolding insert_user
  insert_user-ok h = elim (Bool-cases (role_allowed role)) [
    | inr e ↦ let h' = rw e at h in cc
    | inl e ↦ elim (Bool-cases (exists (λ u. u.email == email) db.users)) [
      | inl taken ↦ let h' = rw (e, taken) at h in cc
      | inr fresh ↦
          let h' = rw (e, fresh) at h in rw (e, fresh) (ground (arith, h'), refl, refl, refl)
    ]
  ]

-- An account that a sign-up has stored behind the others, none of which has its address.
pub record Registered (email role hash password : List ℕ) (before after : Db)
    (resp : SignupResponse) : Type 0 where
  pub address : email ≢ []
  pub long : 8 ≤ length (utf8 password)
  pub allowed : role_allowed role ≡ true
  pub fresh : exists (λ u. u.email == email) before.users ≡ false
  pub added : after.users ≡ before.users ++ new_user email hash role before ∷ []
  pub answer : resp ≡ record { id = pos before.next_user; email = email; role = role }

refusal-none :
    (email password : List ℕ)
    → refusal email password ≡ none
    → (email ≢ []) × (8 ≤ length (utf8 password))
unfolding refusal
refusal-none email password h = (λ e. ground (arith, h, ap is_empty e), ground (arith, h))

module _ (unicode_lower : ℕ → ℕ) (argon : Argon) (salt : Option (List ℕ))
    (req : SignupRequest) where
  abbrev email : List ℕ
  email = clean_email unicode_lower req.email

  abbrev role : List ℕ
  role = clean_role unicode_lower req.role

  store_user-Registered :
      (r : Result PasswordError (List ℕ)) (env : Env) (w : World) {status : ℕ}
      {resp : SignupResponse}
      → refusal email req.password ≡ none
      → (store_user email role r env w).0 ≡ json status resp
      → (hash : List ℕ) × (r ≡ ok hash)
        × Registered email role hash req.password w.db (store_user email role r env w).1.db resp
  unfolding store_user Users.create transact
  store_user-Registered (err e) env w k h = ground (arith, h)
  store_user-Registered (ok hash) env w k h =
      let (u, stored, shown, kept) = signed_up-json (env.link w.calls) _ _ w h in
      let (same, allowed, fresh, added) = insert_user-ok email hash role w.db stored in
      let (address, long) = refusal-none email req.password k in
      (
        hash,
        refl,
        record {
          address = address;
          long = long;
          allowed = allowed;
          fresh = fresh;
          added = ap (λ db. db.users) kept ∙ added;
          answer =
              shown ∙ ap (λ (u : User). record { id = u.id; email = u.email; role = u.role }) same;
        },
      )

  -- A sign-up that is answered with an account has stored it, with the cleaned address, which no
  -- other account has, a role that the table allows and the hash of a password of at least eight
  -- bytes.
  pub signup-Registered :
      (env : Env) (w : World) {status : ℕ} {resp : SignupResponse}
      → (signup unicode_lower argon salt (some req) env w).0 ≡ json status resp
      → (hash : List ℕ) × (hash_password argon req.password salt ≡ ok hash)
        × Registered email role hash req.password w.db
            (signup unicode_lower argon salt (some req) env w).1.db
            resp
  unfolding signup signup_checked
  signup-Registered env w h = elim (Option-cases (refusal email req.password)) [
    | inr (text, e) ↦ let h' = rw e at h in cc
    | inl e ↦
        let h' = rw e at h in
        rw e (store_user-Registered (hash_password argon req.password salt) env w e h')
  ]
