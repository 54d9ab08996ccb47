-- ===== src/Tests/Fixtures.antt =====
-- A small world: one user, one problem with two test cases, one queued submission.
use go_spoc.Prelude.{◌+◌, [], ◌∷◌, true, false, none, some, codes, arith, String}
use go_spoc.Prelude.Int.{pos, negsuc}
use go_spoc.User.{User}
use go_spoc.Problem.{Problem}
use go_spoc.TestCase.{TestCase}
use go_spoc.Submission.{Submission, queued}
use go_spoc.Db.{Db, affected}
use go_spoc.Sandbox.{Output}
use go_spoc.World.{Env, World, up, nothing}
use go_spoc.Judge.Languages.{Config, Judge}
use go_spoc.Judge.Languages as Languages
use go_spoc.Queue.{Message}
use go_spoc.Submission.Claims.{IsKeyed}
use go_spoc.Worker.{Worker}

abbrev pub ann : User
ann = record { id = pos 1; email = codes "ann@x"; password_hash = codes "h"; role = codes "user" }

abbrev pub adding : Problem
adding = record {
  id = pos 1;
  slug = codes "add";
  title = codes "Add";
  statement = codes "Add.";
  time_limit_ms = pos 1000;
  memory_limit_kb = pos 65536;
}

abbrev pub case_one : TestCase
case_one = record {
  id = pos 11;
  problem_id = pos 1;
  idx = pos 1;
  input = codes "1 2";
  expected_output = codes "3\n";
  is_sample = true;
}

abbrev pub case_two : TestCase
case_two = record {
  id = pos 12;
  problem_id = pos 1;
  idx = pos 2;
  input = codes "2 2";
  expected_output = codes "4";
  is_sample = false;
}

abbrev pub waiting : Submission
waiting = record {
  id = pos 1;
  user_id = pos 1;
  problem_id = pos 1;
  language = codes "python";
  source = codes "print(3)";
  status = queued;
  verdict = none;
  runtime_ms = none;
  memory_kb = none;
  compile_error = none;
  created_at = 5;
  updated_at = 5;
}

abbrev pub tables : Db
tables = record {
  users = ann ∷ [];
  problems = adding ∷ [];
  test_cases = case_one ∷ case_two ∷ [];
  submissions = waiting ∷ [];
  results = [];
  next_user = 2;
  next_problem = 2;
  next_submission = 2;
}

abbrev pub start : World
start = record { db = tables; sent = []; ran = []; calls = 0 }

abbrev pub prints : String → Output
prints s = record {
  verdict = "OK";
  stdout = codes s;
  runtime_ms = pos 7;
  memory_kb = pos 900;
  stderr_excerpt = [];
  output_truncated = false;
}

-- Everything goes through, and every program prints 3.
abbrev pub calm : Env
calm = record {
  link = λ n. up;
  redis = λ n c. true;
  create_group = λ n. none;
  read_group = λ n consumer. nothing;
  sandbox = λ n req. some (prints "3 ");
  mkdir_temp = λ n. some (codes "/tmp/j");
  write_file = λ n path content. true;
  now = λ n. 100 + n;
  wall_clock = λ n. 100 + n;
}

abbrev pub settings : Config
settings = record {
  python_image = codes "py";
  go_image = codes "go";
  work_dir = [];
  output_kb = pos 0;
  compile_wall_ms = pos 0;
  compile_mem_kb = pos 0;
}

abbrev pub judge : Judge
judge = Languages.new settings

abbrev pub message : Message
message = record { id = codes "0-1"; job = record { submission_id = pos 1 } }

abbrev pub hand : Worker
hand = record { has_publisher = true; concurrency = pos 1; name_prefix = codes "w" }

pub tables-IsKeyed : IsKeyed tables
unfolding affected
tables-IsKeyed (pos n) = ground arith
tables-IsKeyed (negsuc n) = ground arith
