-- ===== src/Db.antt =====
-- The tables of migrations/*.up.sql, and the parts of SQL that the repositories' statements use.
pub mod Order
use go_spoc.Prelude.{
  ℕ, suc, ◌+◌, Bool, true, false, List, [], ◌∷◌, map, Option, none, some, if◌then◌else◌, ◌^◌, ltb,
  leb, ◌&&◌,
}
use go_spoc.Prelude.Int.{ℤ, pos_part, neg_part}
use go_spoc.User.{User}
use go_spoc.Problem.{Problem}
use go_spoc.TestCase.{TestCase}
use go_spoc.Submission.{Submission, TestResult}
use go_spoc.Result.{Result}

-- What a statement can report. `connection` stands for every failure that is not about the rows:
-- a lost connection, a timeout, a text that the server refuses.
pub data DbError : Type 0 where
  connection no_rows unique_violation check_violation foreign_key_violation out_of_range : DbError

-- Each `next` is the sequence behind a BIGSERIAL key.
pub record Db : Type 0 where
  pub users : List User
  pub problems : List Problem
  pub test_cases : List TestCase
  pub submissions : List Submission
  pub results : List TestResult
  pub next_user : ℕ
  pub next_problem : ℕ
  pub next_submission : ℕ

module _ {ℓ} {A : Type ℓ} where
  -- UPDATE … SET … WHERE …
  unfoldable pub update_where : (A → Bool) → (A → A) → List A → List A
  update_where p f [] = []
  update_where p f (x ∷ xs) = (if p x then f x else x) ∷ update_where p f xs

  -- RowsAffected of such an UPDATE.
  unfoldable pub affected : (A → Bool) → List A → ℕ
  affected p [] = 0
  affected p (x ∷ xs) = (if p x then 1 else 0) + affected p xs

  -- SELECT … WHERE …
  unfoldable pub select : (A → Bool) → List A → List A
  select p [] = []
  select p (x ∷ xs) = let rest = select p xs in if p x then x ∷ rest else rest

  -- QueryRow: the first row, or pgx.ErrNoRows.
  unfoldable pub query_row : (A → Bool) → List A → Result DbError A
  query_row p [] = Result.err no_rows
  query_row p (x ∷ xs) = let rest = query_row p xs in if p x then Result.ok x else rest

  unfoldable pub exists : (A → Bool) → List A → Bool
  exists p [] = false
  exists p (x ∷ xs) = let rest = exists p xs in if p x then true else rest

-- The range of INTEGER.
abbrev pub fits_int4 : ℤ → Bool
fits_int4 a = ltb (pos_part a) (2 ^ 31) && leb (neg_part a) (2 ^ 31)
