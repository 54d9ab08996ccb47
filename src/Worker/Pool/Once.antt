-- ===== src/Worker/Pool/Once.antt =====
-- However many consumers run, and in whatever order they go on, a submission is judged once.
use go_spoc.Prelude.{ℕ, zero, suc, ◌+◌, ◌≤◌, ◌≡◌, refl, ◌++◌, ◌∙◌, List, [], ◌∷◌, arith}
use go_spoc.Prelude.Int.{ℤ, int_eq, pos, pos_part, ◌-ℤ◌}
use go_spoc.Result.{Result, ok, err}
use go_spoc.Db.{DbError}
use go_spoc.World.{Env, World, Link, up, refused, lost, settle}
use go_spoc.Submission.Repository.{create, list_stale_queued, stale_ids}
use go_spoc.Submission.Claims.{IsKeyed, queue-le-rows, perform-Drains}
use go_spoc.Submission.Schedule.{Op, perform}
use go_spoc.Judge.Languages.{Judge}
use go_spoc.Sweeper.{sweep, swept}
use go_spoc.Sweeper.Laws.{swept_sent}
use go_spoc.Worker.{Worker}
use go_spoc.Worker.Consumer.{Context}
use go_spoc.Worker.Pool.{
  Consumer, consumers_from, start, fleet, Move, work, submit, sweep_stale, go_on, work_at, move,
  play, holders, entering, entering_by, judgings,
}
use go_spoc.Worker.Pool.Passes.{open_rows, advance-Passes, db-open_rows}

swept_db : (r : Result DbError (List ℤ)) (env : Env) (w : World) → (swept r env w).1.db ≡ w.db
unfolding swept
swept_db (err e) env w = refl
swept_db (ok ids) env w = (swept_sent ids env w).1

settle_same :
    {A : Type 0} (l : Link) (r : Result DbError A) (w : World) → (settle l (r, w.db) w).1.db ≡ w.db
settle_same up r w = refl
settle_same refused r w = refl
settle_same lost r w = refl

sweep_db : (stale_after : ℤ) (env : Env) (w : World) → (sweep stale_after env w).1.db ≡ w.db
unfolding sweep list_stale_queued
sweep_db stale_after env w =
    let listed = list_stale_queued stale_after env w in
    swept_db listed.0 env listed.1
    ∙ settle_same (env.link w.calls)
        (ok (stale_ids (pos (env.wall_clock w.calls) -ℤ stale_after) w.db)) w

create-open_rows :
    (id u p : ℤ) (l s : List ℕ) (env : Env) (w : World)
    → open_rows id (create u p l s env w).1 ≤ open_rows id w
unfolding perform
create-open_rows id u p l s env w =
    omega (arith, (perform-Drains id (Op.create u p l s) env w).queue)

-- One move, on the consumers and on the rows.
record Moves (id : ℤ) (cs cs' : List Consumer) (w w' : World) (came : ℕ) : Type 0 where
  rows : open_rows id w' + came ≤ open_rows id w
  held : holders id cs' ≤ holders id cs + came

work_at-Moves :
    (id : ℤ) (i : ℕ) (ctx : Context) (cs : List Consumer) (env : Env) (w : World)
    → let (cs', w') = work_at i ctx cs env w in Moves id cs cs' w w' (entering id i ctx cs env w)
unfolding work_at go_on
work_at-Moves id i ctx [] env w = record { rows = omega arith; held = omega arith }
work_at-Moves id zero ctx (c ∷ cs) env w =
    let p = advance-Passes c.worker c.judge id c.name ctx c.stage env w in
    record { rows = p.rows; held = omega (arith, p.held) }
work_at-Moves id (suc i) ctx (c ∷ cs) env w =
    let m = work_at-Moves id i ctx cs env w in
    record { rows = m.rows; held = omega (arith, m.held) }

move-Moves :
    (id : ℤ) (m : Move) (env : Env) (cs : List Consumer) (w : World)
    → let (cs', w') = move m env (cs, w) in Moves id cs cs' w w' (entering_by id m env (cs, w))
unfolding move
move-Moves id (work i ctx) env cs w = work_at-Moves id i ctx cs env w
move-Moves id (submit u p l s) env cs w = record {
  rows = omega (arith, create-open_rows id u p l s env w);
  held = omega arith;
}
move-Moves id (sweep_stale stale_after) env cs w = record {
  rows = omega (arith, db-open_rows id w (sweep stale_after env w).1 (sweep_db stale_after env w));
  held = omega arith;
}

play-Moves :
    (id : ℤ) (ms : List Move) (env : Env) (cs : List Consumer) (w : World)
    → let (cs', w') = play ms env (cs, w) in Moves id cs cs' w w' (judgings id ms env (cs, w))
unfolding play judgings
play-Moves id [] env cs w = record { rows = omega arith; held = omega arith }
play-Moves id (m ∷ ms) env cs w =
    let first = move-Moves id m env cs w in
    let (cs', w') = move m env (cs, w) in
    let rest = play-Moves id ms env cs' w' in
    record {
      rows = omega (arith, first.rows, rest.rows);
      held = omega (arith, first.held, rest.held);
    }

holders-append :
    (id : ℤ) (cs ds : List Consumer) → holders id (cs ++ ds) ≡ holders id cs + holders id ds
holders-append id [] ds = omega arith
holders-append id (c ∷ cs) ds = omega (arith, holders-append id cs ds)

holders-consumers_from :
    (id : ℤ) (wk : Worker) (j : Judge) (i n : ℕ) → holders id (consumers_from wk j i n) ≡ 0
holders-consumers_from id wk j i zero = refl
holders-consumers_from id wk j i (suc n) = omega (arith, holders-consumers_from id wk j (i + 1) n)

holders-fleet : (id : ℤ) (processes : List (Worker × Judge)) → holders id (fleet processes) ≡ 0
unfolding fleet start
holders-fleet id [] = refl
holders-fleet id ((wk, j) ∷ processes) = omega (
  arith,
  holders-append id (consumers_from wk j 0 (pos_part wk.concurrency)) (fleet processes),
  holders-consumers_from id wk j 0 (pos_part wk.concurrency),
  holders-fleet id processes,
)

-- Whatever is answered to whom, and in whatever order the consumers of some worker processes, the
-- API and the sweepers go on: no submission comes to be judged twice, and never do two consumers
-- hold one between its claim and the recording of its end. The keys of the tables are distinct.
pub judged_once :
    (id : ℤ) (processes : List (Worker × Judge)) (ms : List Move) (env : Env) (w : World)
    → IsKeyed w.db
    → (judgings id ms env (fleet processes, w) ≤ 1)
      × (holders id (play ms env (fleet processes, w)).0 ≤ 1)
judged_once id processes ms env w keyed =
    let m = play-Moves id ms env (fleet processes) w in
    let one : open_rows id w ≤ 1 = omega (arith, keyed id, queue-le-rows id w.db.submissions) in
    let nobody = holders-fleet id processes in
    (omega (arith, m.rows, one), omega (arith, m.rows, m.held, one, nobody))
