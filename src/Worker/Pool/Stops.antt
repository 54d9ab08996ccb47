-- ===== src/Worker/Pool/Stops.antt =====
-- The shutdown of internal/worker/worker.go: `Run` returns once every consumer has.
use go_spoc.Prelude.{
  ℕ, zero, suc, ◌+◌, ◌-◌, ◌≤◌, ◌≡◌, refl, Bool, true, false, List, [], ◌∷◌, All, arith,
  if◌then◌else◌,
}
use go_spoc.Prelude.Eq.{◌==◌, nat_eq}
use go_spoc.Result.{Result, ok, err}
use go_spoc.Db.{DbError}
use go_spoc.World.{Env, World}
use go_spoc.Judge.Languages.{Judge}
use go_spoc.Queue.{Message}
use go_spoc.Submission.Repository.{mark_running}
use go_spoc.Worker.{Worker}
use go_spoc.Worker.Consumer.{
  Stage, idle, stopped, fetched, judging, judged, Context, after_claim, advance,
}
use go_spoc.Worker.Pool.{Consumer, Move, work, submit, sweep_stale, go_on, work_at, move, play}

-- How many more stages a consumer has before it returns, once its context is cancelled.
abbrev pub stages_left : Stage → ℕ
stages_left stopped = 0
stages_left idle = 1
stages_left (judged msg rep) = 2
stages_left (judging msg) = 3
stages_left (fetched msg) = 4

-- The context is cancelled.
abbrev pub IsCancelled : Context → Type 0
IsCancelled ctx = (ctx.before ≡ true) × (ctx.after ≡ true)

-- In a move the context is cancelled, if the move is a consumer's.
abbrev pub InShutdown : Move → Type 0
InShutdown (work i ctx) = IsCancelled ctx
InShutdown _ = Unit

-- How often the consumer at a position goes on.
abbrev pub turns : ℕ → List Move → ℕ
turns i [] = 0
turns i (work k ctx ∷ ms) = (if i == k then 1 else 0) + turns i ms
turns i (_ ∷ ms) = turns i ms

-- A position with no consumer counts as stopped.
abbrev pub stage_at : ℕ → List Consumer → Stage
stage_at i [] = stopped
stage_at zero (c ∷ cs) = c.stage
stage_at (suc i) (c ∷ cs) = stage_at i cs

after_claim_left :
    (wk : Worker) (j : Judge) (msg : Message) (r : Result DbError Bool) (env : Env) (w : World)
    → stages_left (after_claim wk j msg r env w).0 ≤ 3
unfolding after_claim
after_claim_left wk j msg (err e) env w = omega arith
after_claim_left wk j msg (ok false) env w = omega arith
after_claim_left wk j msg (ok true) env w = omega arith

-- A stage of a consumer whose context is cancelled brings it nearer to its return.
advance_left :
    (wk : Worker) (j : Judge) (name : List ℕ) (ctx : Context) (s : Stage) (env : Env) (w : World)
    → IsCancelled ctx
    → stages_left (advance wk j name ctx s env w).0 ≤ stages_left s - 1
unfolding advance
advance_left wk j name ctx idle env w (b, a) = rw b (omega arith)
advance_left wk j name ctx stopped env w h = omega arith
advance_left wk j name ctx (fetched msg) env w h =
    after_claim_left wk j msg (mark_running msg.job.submission_id env w).0 env _
advance_left wk j name ctx (judging msg) env w h = omega arith
advance_left wk j name ctx (judged msg rep) env w h = omega arith

work_at_left :
    (i k : ℕ) (ctx : Context) (cs : List Consumer) (env : Env) (w : World)
    → IsCancelled ctx
    → stages_left (stage_at i (work_at k ctx cs env w).0)
      ≤ stages_left (stage_at i cs) - (if i == k then 1 else 0)
unfolding work_at go_on
work_at_left i k ctx [] env w h = omega arith
work_at_left zero zero ctx (c ∷ cs) env w h =
    advance_left c.worker c.judge c.name ctx c.stage env w h
work_at_left (suc i) zero ctx (c ∷ cs) env w h = ground arith
work_at_left zero (suc k) ctx (c ∷ cs) env w h = ground arith
work_at_left (suc i) (suc k) ctx (c ∷ cs) env w h = ground (arith, work_at_left i k ctx cs env w h)

play_left :
    (i : ℕ) (ms : List Move) (env : Env) (cs : List Consumer) (w : World)
    → All InShutdown ms
    → stages_left (stage_at i (play ms env (cs, w)).0) ≤ stages_left (stage_at i cs) - turns i ms
unfolding play move
play_left i [] env cs w h = omega arith
play_left i (work k ctx ∷ ms) env cs w (h, rest) =
    let (cs', w') = work_at k ctx cs env w in
    omega (arith, work_at_left i k ctx cs env w h, play_left i ms env cs' w' rest)
play_left i (submit u p l s ∷ ms) env cs w (h, rest) = play_left i ms env cs _ rest
play_left i (sweep_stale age ∷ ms) env cs w (h, rest) = play_left i ms env cs _ rest

left_le : (s : Stage) → stages_left s ≤ 4
left_le idle = omega arith
left_le stopped = omega arith
left_le (fetched msg) = omega arith
left_le (judging msg) = omega arith
left_le (judged msg rep) = omega arith

none_left : (s : Stage) → stages_left s ≤ 0 → s ≡ stopped
none_left stopped h = refl
none_left idle h = absurd (omega arith)
none_left (fetched msg) h = absurd (omega arith)
none_left (judging msg) h = absurd (omega arith)
none_left (judged msg rep) h = absurd (omega arith)

-- Once the contexts are cancelled, a consumer returns within four stages of its own, whatever is
-- answered to it, and whatever the other consumers, the API and the sweepers do in between; so
-- `Run` returns when each has had four.
pub play_stops :
    (ms : List Move) (env : Env) (cs : List Consumer) (w : World) (i : ℕ)
    → All InShutdown ms
    → 4 ≤ turns i ms
    → stage_at i (play ms env (cs, w)).0 ≡ stopped
play_stops ms env cs w i h enough =
    none_left _ (omega (arith, play_left i ms env cs w h, left_le (stage_at i cs)))
