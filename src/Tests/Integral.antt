-- ===== src/Tests/Integral.antt =====
-- The tables of the fixtures are sound, and so are empty ones.
use go_spoc.Prelude.{◌+◌, ◌≤◌, refl, List, [], ◌∷◌, codes, arith}
use go_spoc.Prelude.Eq.{list_beq}
use go_spoc.Prelude.Int.{ℤ, pos, negsuc}
use go_spoc.Db.{Db, affected, exists}
use go_spoc.Submission.Claims.{unborn_at}
use go_spoc.Submission.Schedule.{Op}
use go_spoc.Integrity.{IsSound, user_is, problem_is, Write, account, problem, submission, writes}
use go_spoc.Integrity.Always.{writes-IsSound}
use go_spoc.Tests.Fixtures.{tables, start, calm, tables-IsKeyed}

user_ids : (id : ℤ) → affected (user_is id) tables.users + unborn_at id 2 ≤ 1
unfolding affected
user_ids (pos n) = ground arith
user_ids (negsuc n) = ground arith

problem_ids : (id : ℤ) → affected (problem_is id) tables.problems + unborn_at id 2 ≤ 1
unfolding affected
problem_ids (pos n) = ground arith
problem_ids (negsuc n) = ground arith

tables-IsSound : IsSound tables
unfolding affected exists list_beq
tables-IsSound = record {
  users = record { ids = user_ids; emails = λ email. ground arith; roles = (refl, tt) };
  problems = record { ids = problem_ids; slugs = λ slug. ground arith };
  keyed = tables-IsKeyed;
  proper = ((refl, refl, refl), tt);
  results = record { cases = λ key. omega arith; idxs = λ key. omega arith; recorded = tt };
}

abbrev new_tables : Db
new_tables = record {
  users = [];
  problems = [];
  test_cases = [];
  submissions = [];
  results = [];
  next_user = 1;
  next_problem = 1;
  next_submission = 1;
}

-- The tables that the migrations make are sound.
new_tables-IsSound : IsSound new_tables
unfolding affected
new_tables-IsSound = record {
  users = record {
    ids = λ id. elim id [ pos n ↦ ground arith | negsuc n ↦ ground arith ];
    emails = λ email. omega arith;
    roles = tt;
  };
  problems = record {
    ids = λ id. elim id [ pos n ↦ ground arith | negsuc n ↦ ground arith ];
    slugs = λ slug. omega arith;
  };
  keyed = λ id. elim id [ pos n ↦ ground arith | negsuc n ↦ ground arith ];
  proper = tt;
  results = record { cases = λ key. omega arith; idxs = λ key. omega arith; recorded = tt };
}

-- The second account has the address of the first.
abbrev traffic : List Write
traffic =
    account (codes "bob@x") (codes "h") (codes "user")
    ∷ account (codes "bob@x") (codes "g") (codes "admin")
    ∷ problem (codes "sub") (codes "Sub") (codes "Subtract.") (pos 1000) (pos 65536)
    ∷ submission (Op.mark_running (pos 1))
    ∷ submission (Op.mark_done (pos 1) "AC" (pos 7) (pos 900))
    ∷ []

writes-IsSound_example : IsSound (writes traffic calm start).db
writes-IsSound_example = writes-IsSound traffic calm start tables-IsSound
