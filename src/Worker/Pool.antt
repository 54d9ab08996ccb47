-- ===== src/Worker/Pool.antt =====
-- Consumers side by side: internal/worker/worker.go `Run`, in any number of processes, with the
-- submissions that the API stores and the sweeps that run meanwhile. Any of them may go next.
pub mod Passes
pub mod Once
pub mod Stops
use go_spoc.Prelude.{ℕ, zero, suc, ◌+◌, List, [], ◌∷◌, ◌++◌, codes, if◌then◌else◌}
use go_spoc.Prelude.Eq.{◌==◌}
use go_spoc.Prelude.Int.{ℤ, pos, pos_part, int_eq}
use go_spoc.Strings.Decimal.{format_int}
use go_spoc.World.{Env, World}
use go_spoc.Submission.Repository.{create}
use go_spoc.Judge.Languages.{Judge}
use go_spoc.Sweeper.{sweep}
use go_spoc.Queue.{Message}
use go_spoc.Worker.{Worker}
use go_spoc.Worker.Consumer.{Stage, idle, stopped, fetched, judging, judged, Context, advance}

-- One goroutine, with its worker and its name in the consumer group.
pub record Consumer : Type 0 where
  pub worker : Worker
  pub judge : Judge
  pub name : List ℕ
  pub stage : Stage

-- fmt.Sprintf("%s-%d", w.namePrefix, i), for i from the number on.
abbrev pub consumers_from : Worker → Judge → ℕ → ℕ → List Consumer
consumers_from wk j i zero = []
consumers_from wk j i (suc n) =
    record {
      worker = wk;
      judge = j;
      name = wk.name_prefix ++ (codes "-" ++ format_int (pos i));
      stage = idle;
    }
    ∷ consumers_from wk j (i + 1) n

-- `Run` starts as many goroutines as the worker's concurrency.
unfoldable pub start : Worker → Judge → List Consumer
unfolding format_int
start wk j = consumers_from wk j 0 (pos_part wk.concurrency)

-- The consumers of several processes.
unfoldable pub fleet : List (Worker × Judge) → List Consumer
unfolding start
fleet [] = []
fleet ((wk, j) ∷ processes) = start wk j ++ fleet processes

-- The consumer at a position goes on, the API stores a submission, or a sweeper sweeps.
pub data Move : Type 0 where
  work : ℕ → Context → Move
  submit : ℤ → ℤ → List ℕ → List ℕ → Move
  sweep_stale : ℤ → Move

unfoldable pub go_on : Context → Consumer → Env → World → Consumer × World
unfolding advance
go_on ctx c env w =
    let (s, w') = advance c.worker c.judge c.name ctx c.stage env w in (record c { stage = s }, w')

unfoldable pub work_at : ℕ → Context → List Consumer → Env → World → List Consumer × World
unfolding go_on
work_at i ctx [] env w = ([], w)
work_at zero ctx (c ∷ cs) env w = let (c', w') = go_on ctx c env w in (c' ∷ cs, w')
work_at (suc i) ctx (c ∷ cs) env w = let (cs', w') = work_at i ctx cs env w in (c ∷ cs', w')

unfoldable pub move : Move → Env → List Consumer × World → List Consumer × World
unfolding work_at create sweep
move (work i ctx) env (cs, w) = work_at i ctx cs env w
move (submit user_id problem_id language source) env (cs, w) =
    (cs, (create user_id problem_id language source env w).1)
move (sweep_stale stale_after) env (cs, w) = (cs, (sweep stale_after env w).1)

unfoldable pub play : List Move → Env → List Consumer × World → List Consumer × World
unfolding move
play [] env s = s
play (m ∷ ms) env s = play ms env (move m env s)

-- 1 for a consumer that stands before the judge's run for a submission.
abbrev pub enters : ℤ → Stage → ℕ
enters id (judging msg) = if msg.job.submission_id == id then 1 else 0
enters id _ = 0

-- 1 for a consumer that has claimed a submission and not yet recorded its end.
abbrev pub holds : ℤ → Stage → ℕ
holds id (judging msg) = if msg.job.submission_id == id then 1 else 0
holds id (judged msg rep) = if msg.job.submission_id == id then 1 else 0
holds id _ = 0

abbrev pub holders : ℤ → List Consumer → ℕ
holders id [] = 0
holders id (c ∷ cs) = holds id c.stage + holders id cs

-- How often a consumer comes to judge a submission in the course of some moves.
abbrev pub entering : ℤ → ℕ → Context → List Consumer → Env → World → ℕ
entering id i ctx [] env w = 0
entering id zero ctx (c ∷ cs) env w = enters id (go_on ctx c env w).0.stage
entering id (suc i) ctx (c ∷ cs) env w = entering id i ctx cs env w

abbrev pub entering_by : ℤ → Move → Env → List Consumer × World → ℕ
entering_by id (work i ctx) env (cs, w) = entering id i ctx cs env w
entering_by id _ env s = 0

unfoldable pub judgings : ℤ → List Move → Env → List Consumer × World → ℕ
unfolding move go_on
judgings id [] env s = 0
judgings id (m ∷ ms) env s = entering_by id m env s + judgings id ms env (move m env s)
