-- ===== src/Api/Guards.antt =====
-- What the guards of the routes keep out.
use go_spoc.Prelude.{
  ℕ, ◌≡◌, suc, refl, sym, true, List, [], ◌∷◌, Option, some, codes, Bool-cases, ◌⊎◌, inl, inr,
  arith,
}
use go_spoc.Prelude.Eq.{◌==◌, list_eq, nat_eq, list_beq_iff}
use go_spoc.Prelude.Int.{ℤ, int_eq}
use go_spoc.Result.{Result, ok, err, Result-cases}
use go_spoc.Db.{Db, DbError, query_row}
use go_spoc.Http.{Reply, error, json, panic}
use go_spoc.User.{User}
use go_spoc.User.Repository as Users
use go_spoc.World.{Env, World, Act, Link, up, refused, lost, settle, transact}
use go_spoc.Auth.Middleware.{
  Parser, authenticate, auth_middleware, require_any_role, on_user, member,
}
use go_spoc.Problem.Handler as Problems
use go_spoc.Api.{post_problems}

-- A request whose token names a user that the table holds as an administrator.
pub record FromAdmin (who : Result (List ℕ) ℤ) (db : Db) : Type 0 where
  pub id : ℤ
  pub user : User
  pub token : who ≡ ok id
  pub found : query_row (λ u. u.id == id) db.users ≡ ok user
  pub role : user.role ≡ codes "admin"

-- A request that is answered with an error and changes no table.
abbrev pub TurnedAway : {A : Type 0} → Db → Reply A × World → Type 0
TurnedAway db (error status text, w) = w.db ≡ db
TurnedAway db (json status a, w) = ⊥
TurnedAway db (panic value, w) = ⊥

admin_only : (role : List ℕ) → member (codes "admin" ∷ []) role ≡ true → role ≡ codes "admin"
admin_only role h = elim (Bool-cases (codes "admin" == role)) [
  | inl e ↦ sym ((list_beq_iff (codes "admin") role).0 e)
  | inr e ↦ ground (arith, h, e)
]

module _ {A : Type 0} (next : Option ℤ → Act (Reply A)) (user : Option ℤ) (env : Env) where
  -- The role that was read decides, if one was.
  on_user-admin :
      (r : Result DbError User) (w : World)
      → ((u : User) × (r ≡ ok u) × (u.role ≡ codes "admin"))
        ⊎ TurnedAway w.db (on_user (codes "admin" ∷ []) next user r env w)
  unfolding on_user
  on_user-admin (err e) w = inr refl
  on_user-admin (ok u) w = elim (Bool-cases (member (codes "admin" ∷ []) u.role)) [
    | inl e ↦ inl (u, refl, admin_only u.role e)
    | inr e ↦ inr (rw e refl)
  ]

  settled-admin :
      (l : Link) (q : Result DbError User) (w : World)
      → let (r, w') = settle l (q, w.db) w in
        ((u : User) × (q ≡ ok u) × (u.role ≡ codes "admin"))
        ⊎ TurnedAway w.db (on_user (codes "admin" ∷ []) next user r env w')
  unfolding on_user
  settled-admin up q w = on_user-admin q (record w { calls = suc w.calls })
  settled-admin refused q w = inr refl
  settled-admin lost q w = inr refl

module _ (unicode_lower : ℕ → ℕ) (parse : Parser) (secret : List ℕ) (header : List ℕ) where
  abbrev who : Result (List ℕ) ℤ
  who = authenticate parse secret header

  -- A request to create a problem gets past the guards only with a token that names a user whose
  -- row has the role admin; any other is answered with an error and changes no table.
  pub post_problems-FromAdmin :
      (body : Option Problems.CreateRequest) (env : Env) (w : World)
      → FromAdmin who w.db
        ⊎ TurnedAway w.db (post_problems unicode_lower parse secret header body env w)
  unfolding post_problems auth_middleware require_any_role Users.find_by_id transact
  post_problems-FromAdmin body env w = elim (Result-cases who) [
    | inr (text, e) ↦ inr (rw e refl)
    | inl (id, e) ↦
        elim (settled-admin (λ user. Problems.create unicode_lower body) (some id) env
          (env.link w.calls) (query_row (λ u. u.id == id) w.db.users) w) [
            | inl (u, found, role) ↦
                inl (record { id = id; user = u; token = e; found = found; role = role })
            | inr away ↦ inr (rw e away)
          ]
  ]
