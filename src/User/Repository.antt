-- ===== src/User/Repository.antt =====
-- internal/user/repository.go.
use go_spoc.Prelude.{ℕ, suc, Bool, ◌||◌, not, List, ◌++◌, [], ◌∷◌, codes, if◌then◌else◌}
use go_spoc.Prelude.Eq.{◌==◌, nat_eq, list_eq}
use go_spoc.Prelude.Int.{ℤ, pos, int_eq}
use go_spoc.User.{User}
use go_spoc.Result.{Result, ok, err}
use go_spoc.Db.{Db, DbError, unique_violation, check_violation, exists, query_row}
use go_spoc.World.{Act, transact}

-- migrations/001 and 004: the role is checked, and the address is unique.
abbrev pub role_allowed : List ℕ → Bool
role_allowed role = role == codes "user" || role == codes "admin"

-- INSERT INTO users … RETURNING id, email, role: the hash stays unread.
unfoldable pub insert_user : List ℕ → List ℕ → List ℕ → Db → Result DbError User × Db
insert_user email password_hash role db =
    let row : User = record {
      id = pos db.next_user;
      email = email;
      password_hash = password_hash;
      role = role;
    } in
    let spent : Db = record db { next_user = suc db.next_user } in
    if not (role_allowed role)
    then (err check_violation, spent)
    else if exists (λ u. u.email == email) db.users
    then (err unique_violation, spent)
    else (ok (record row { password_hash = [] }), record spent { users = db.users ++ row ∷ [] })

unfoldable pub create : List ℕ → List ℕ → List ℕ → Act (Result DbError User)
unfolding insert_user transact
create email password_hash role = transact λ now. insert_user email password_hash role

unfoldable pub find_by_email : List ℕ → Act (Result DbError User)
unfolding transact
find_by_email email = transact λ now db. (query_row (λ u. u.email == email) db.users, db)

unfoldable pub find_by_id : ℤ → Act (Result DbError User)
unfolding transact
find_by_id id = transact λ now db. (query_row (λ u. u.id == id) db.users, db)
