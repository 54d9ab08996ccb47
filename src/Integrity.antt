-- ===== src/Integrity.antt =====
-- What holds of the tables of migrations/ at all times, and the statements that write to them.
pub mod Tables
pub mod Inserts
pub mod Results
pub mod Updates
pub mod Always
use go_spoc.Prelude.{
  ℕ, ◌+◌, ◌≤◌, ◌≡◌, String, Bool, true, false, ◌&&◌, List, [], ◌∷◌, Option, none, some, All,
}
use go_spoc.Prelude.Eq.{◌==◌, nat_eq, list_eq}
use go_spoc.Prelude.Int.{ℤ, int_eq}
use go_spoc.User.{User}
use go_spoc.User.Repository.{role_allowed}
use go_spoc.User.Repository as Users
use go_spoc.Problem.{Problem}
use go_spoc.Problem.Repository as Problems
use go_spoc.TestCase.{TestCase}
use go_spoc.Submission.{Submission, TestResult, Status, queued, running, done, failed}
use go_spoc.Submission.Repository.{verdict_allowed}
use go_spoc.Submission.Claims.{IsKeyed, unborn_at}
use go_spoc.Submission.Schedule.{Op, perform}
use go_spoc.Db.{Db, affected, exists}
use go_spoc.World.{Env, World}

abbrev pub user_is : ℤ → User → Bool
user_is id u = u.id == id

abbrev pub has_email : List ℕ → User → Bool
has_email email u = u.email == email

abbrev pub problem_is : ℤ → Problem → Bool
problem_is id p = p.id == id

abbrev pub has_slug : List ℕ → Problem → Bool
has_slug slug p = p.slug == slug

abbrev pub of_case : ℤ × ℤ → TestResult → Bool
of_case (s, c) r = r.submission_id == s && r.test_case_id == c

abbrev pub of_idx : ℤ × ℤ → TestResult → Bool
of_idx (s, i) r = r.submission_id == s && r.idx == i

pub record UsersSound (users : List User) (next : ℕ) : Type 0 where
  pub ids : (id : ℤ) → affected (user_is id) users + unborn_at id next ≤ 1
  pub emails : (email : List ℕ) → affected (has_email email) users ≤ 1
  pub roles : All (λ (u : User). role_allowed u.role ≡ true) users

pub record ProblemsSound (problems : List Problem) (next : ℕ) : Type 0 where
  pub ids : (id : ℤ) → affected (problem_is id) problems + unborn_at id next ≤ 1
  pub slugs : (slug : List ℕ) → affected (has_slug slug) problems ≤ 1

-- The columns of a judgement, with the status of the row.
abbrev pub judgement_fits : Status → Option String → Option ℤ → Option ℤ → Bool
judgement_fits done (some v) (some r) (some m) = verdict_allowed v
judgement_fits queued none none none = true
judgement_fits running none none none = true
judgement_fits failed none none none = true
judgement_fits _ _ _ _ = false

-- A submission is of a user and of a problem, and has a verdict, a time and a memory exactly if it
-- is done.
abbrev pub IsProper : List User → List Problem → Submission → Type 0
IsProper users problems s =
    (exists (user_is s.user_id) users ≡ true)
    × (exists (problem_is s.problem_id) problems ≡ true)
    × (judgement_fits s.status s.verdict s.runtime_ms s.memory_kb ≡ true)

-- A result is of a submission and of a test case, with a verdict that is allowed.
abbrev pub IsRecorded : List Submission → List TestCase → TestResult → Type 0
IsRecorded submissions test_cases r =
    (exists (λ (s : Submission). s.id == r.submission_id) submissions ≡ true)
    × (exists (λ (t : TestCase). t.id == r.test_case_id) test_cases ≡ true)
    × (verdict_allowed r.verdict ≡ true)

-- A submission has one result at most for a test case, and for a position.
pub record ResultsSound (submissions : List Submission) (test_cases : List TestCase)
    (results : List TestResult) : Type 0 where
  pub cases : (key : ℤ × ℤ) → affected (of_case key) results ≤ 1
  pub idxs : (key : ℤ × ℤ) → affected (of_idx key) results ≤ 1
  pub recorded : All (IsRecorded submissions test_cases) results

pub record IsSound (db : Db) : Type 0 where
  pub users : UsersSound db.users db.next_user
  pub problems : ProblemsSound db.problems db.next_problem
  pub keyed : IsKeyed db
  pub proper : All (IsProper db.users db.problems) db.submissions
  pub results : ResultsSound db.submissions db.test_cases db.results

-- Every statement of the program that writes.
pub data Write : Type 0 where
  account : List ℕ → List ℕ → List ℕ → Write
  problem : List ℕ → List ℕ → List ℕ → ℤ → ℤ → Write
  submission : Op → Write

unfoldable pub write : Write → Env → World → World
unfolding Users.create Problems.create perform
write (account email hash role) env w = (Users.create email hash role env w).1
write (problem slug title statement time memory) env w =
    (Problems.create slug title statement time memory env w).1
write (submission o) env w = (perform o env w).1

unfoldable pub writes : List Write → Env → World → World
unfolding write
writes [] env w = w
writes (x ∷ xs) env w = writes xs env (write x env w)
