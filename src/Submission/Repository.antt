-- ===== src/Submission/Repository.antt =====
-- internal/submission/repository.go. Each statement is a function on the tables; the method runs
-- it over the connection.
use go_spoc.Prelude.{
  ℕ, suc, String, Bool, ◌&&◌, ◌||◌, not, List, ◌++◌, [], ◌∷◌, map, none, some, ltb, if◌then◌else◌,
}
use go_spoc.Prelude.Eq.{◌==◌, nat_eq, string_eq}
use go_spoc.Prelude.Int.{ℤ, pos, int_eq, ltb_ℤ, ◌-ℤ◌}
use go_spoc.Submission.{Submission, Status, status_eq, queued, running, done, failed, TestResult}
use go_spoc.Result.{Result, ok, err}
use go_spoc.Db.{
  Db, DbError, check_violation, unique_violation, foreign_key_violation, out_of_range, update_where,
  affected, select, query_row, exists, fits_int4,
}
use go_spoc.Db.Order.{order_by}
use go_spoc.World.{Act, transact}

-- The CHECK on verdicts of migrations/005 and 006.
abbrev pub verdict_allowed : String → Bool
verdict_allowed v = v == "AC" || v == "WA" || v == "TLE" || v == "MLE" || v == "RE" || v == "CE"

-- The row that the columns' defaults complete.
abbrev pub queued_row : ℕ → ℤ → ℤ → List ℕ → List ℕ → ℕ → Submission
queued_row next user_id problem_id language source now = record {
  id = pos next;
  user_id = user_id;
  problem_id = problem_id;
  language = language;
  source = source;
  status = queued;
  verdict = none;
  runtime_ms = none;
  memory_kb = none;
  compile_error = none;
  created_at = now;
  updated_at = now;
}

unfoldable pub insert_submission : ℤ → ℤ → List ℕ → List ℕ → ℕ → Db → Result DbError Submission × Db
insert_submission user_id problem_id language source now db =
    let row : Submission = queued_row db.next_submission user_id problem_id language source now in
    let spent : Db = record db { next_submission = suc db.next_submission } in
    if exists (λ u. u.id == user_id) db.users && exists (λ p. p.id == problem_id) db.problems
    then (ok row, record spent { submissions = db.submissions ++ row ∷ [] })
    else (err foreign_key_violation, spent)

unfoldable pub create : ℤ → ℤ → List ℕ → List ℕ → Act (Result DbError Submission)
unfolding insert_submission transact
create user_id problem_id language source =
    transact (insert_submission user_id problem_id language source)

abbrev pub has_status : ℤ → Status → Submission → Bool
has_status id status s = s.id == id && s.status == status

abbrev pub set_running : ℕ → Submission → Submission
set_running now s = record s { status = running; updated_at = now }

unfoldable pub update_running : ℤ → ℕ → Db → Result DbError Bool × Db
update_running id now db = (
  ok (affected (has_status id queued) db.submissions == 1),
  record db { submissions = update_where (has_status id queued) (set_running now) db.submissions },
)

unfoldable pub mark_running : ℤ → Act (Result DbError Bool)
unfolding update_running transact
mark_running id = transact (update_running id)

abbrev pub set_done : String → ℤ → ℤ → ℕ → Submission → Submission
set_done verdict runtime_ms memory_kb now s = record s {
  status = done;
  verdict = some verdict;
  runtime_ms = some runtime_ms;
  memory_kb = some memory_kb;
  updated_at = now;
}

-- The CHECK is made on the rows that change.
unfoldable pub update_done : ℤ → String → ℤ → ℤ → ℕ → Db → Result DbError Bool × Db
update_done id verdict runtime_ms memory_kb now db =
    let hits = affected (has_status id running) db.submissions in
    if not (fits_int4 runtime_ms && fits_int4 memory_kb)
    then (err out_of_range, db)
    else if ltb 0 hits && not (verdict_allowed verdict)
    then (err check_violation, db)
    else (
      ok (hits == 1),
      record db {
        submissions =
            update_where (has_status id running) (set_done verdict runtime_ms memory_kb now)
              db.submissions;
      },
    )

unfoldable pub mark_done : ℤ → String → ℤ → ℤ → Act (Result DbError Bool)
unfolding update_done transact
mark_done id verdict runtime_ms memory_kb = transact (update_done id verdict runtime_ms memory_kb)

abbrev pub set_failed : ℕ → Submission → Submission
set_failed now s = record s { status = failed; updated_at = now }

unfoldable pub update_failed : ℤ → ℕ → Db → Result DbError Bool × Db
update_failed id now db = (
  ok (affected (has_status id running) db.submissions == 1),
  record db { submissions = update_where (has_status id running) (set_failed now) db.submissions },
)

unfoldable pub mark_failed : ℤ → Act (Result DbError Bool)
unfolding update_failed transact
mark_failed id = transact (update_failed id)

abbrev pub same_case : TestResult → TestResult → Bool
same_case tr r = r.submission_id == tr.submission_id && r.test_case_id == tr.test_case_id

abbrev pub same_idx : TestResult → TestResult → Bool
same_idx tr r = r.submission_id == tr.submission_id && r.idx == tr.idx

-- INSERT … ON CONFLICT (submission_id, test_case_id) DO NOTHING, with the other constraints of
-- migrations/006.
unfoldable pub insert_result : TestResult → Db → Result DbError (Unit {0}) × Db
insert_result tr db =
    if not (fits_int4 tr.idx && fits_int4 tr.runtime_ms && fits_int4 tr.memory_kb)
    then (err out_of_range, db)
    else if not (verdict_allowed tr.verdict)
    then (err check_violation, db)
    else if exists (same_case tr) db.results
    then (ok tt, db)
    else if exists (same_idx tr) db.results
    then (err unique_violation, db)
    else if exists (λ s. s.id == tr.submission_id) db.submissions
        && exists (λ t. t.id == tr.test_case_id) db.test_cases
    then (ok tt, record db { results = db.results ++ tr ∷ [] })
    else (err foreign_key_violation, db)

unfoldable pub save_test_result : TestResult → Act (Result DbError (Unit {0}))
unfolding insert_result transact
save_test_result tr = transact λ now. insert_result tr

abbrev pub set_message : List ℕ → Submission → Submission
set_message msg s = record s { compile_error = some msg }

unfoldable pub update_compile_error : ℤ → List ℕ → Db → Result DbError (Unit {0}) × Db
update_compile_error id msg db = (
  ok tt,
  record db { submissions = update_where (λ s. s.id == id) (set_message msg) db.submissions },
)

unfoldable pub set_compile_error : ℤ → List ℕ → Act (Result DbError (Unit {0}))
unfolding update_compile_error transact
set_compile_error id msg = transact λ now. update_compile_error id msg

unfoldable pub find_by_id : ℤ → Act (Result DbError Submission)
unfolding transact
find_by_id id = transact λ now db. (query_row (λ s. s.id == id) db.submissions, db)

-- The two listings leave `compile_error` unread, and newest comes first.
abbrev pub newest_first : List Submission → List Submission
newest_first rows =
    map {A = Submission} (λ s. record s { compile_error = none })
      (order_by (λ s t. ltb_ℤ t.id s.id) rows)

unfoldable pub list_by_user : ℤ → Act (Result DbError (List Submission))
unfolding transact
list_by_user user_id =
    transact λ now db. (ok (newest_first (select (λ s. s.user_id == user_id) db.submissions)), db)

abbrev pub is_stale : ℤ → Submission → Bool
is_stale cutoff s = s.status == queued && ltb_ℤ (pos s.updated_at) cutoff

-- The ids of `ListStaleQueued`, given the cutoff.
unfoldable pub stale_ids : ℤ → Db → List ℤ
stale_ids cutoff db =
    map (λ s. s.id) (order_by (λ s t. ltb_ℤ s.id t.id) (select (is_stale cutoff) db.submissions))

-- The cutoff is taken from the caller's clock.
unfoldable pub list_stale_queued : ℤ → Act (Result DbError (List ℤ))
unfolding stale_ids transact
list_stale_queued older_than env w =
    transact (λ now db. (ok (stale_ids (pos (env.wall_clock w.calls) -ℤ older_than) db), db)) env w

unfoldable pub list_by_user_and_problem : ℤ → ℤ → Act (Result DbError (List Submission))
unfolding transact
list_by_user_and_problem user_id problem_id = transact λ now db. (
  ok (
      newest_first
        (select (λ s. s.user_id == user_id && s.problem_id == problem_id) db.submissions)),
  db,
)
