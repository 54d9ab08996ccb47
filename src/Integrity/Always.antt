-- ===== src/Integrity/Always.antt =====
-- The tables are sound at all times.
use go_spoc.Prelude.{List, [], ◌∷◌}
use go_spoc.Result.{Result}
use go_spoc.Db.{Db, DbError}
use go_spoc.World.{Env, World, Link, up, refused, lost, settle}
use go_spoc.Submission.Schedule.{Op, perform}
use go_spoc.Integrity.{IsSound, Write, account, problem, submission, write, writes}
use go_spoc.Integrity.Inserts.{user-IsSound, problem-IsSound, submission-IsSound}
use go_spoc.Integrity.Results.{result-IsSound}
use go_spoc.Integrity.Updates.{running-IsSound, done-IsSound, failed-IsSound, message-IsSound}

-- A statement that is refused leaves the tables as they are.
settle-IsSound :
    {A : Type 0} (l : Link) (r : Result DbError A × Db) (w : World)
    → IsSound w.db
    → IsSound r.1
    → IsSound (settle l r w).1.db
settle-IsSound up r w h k = k
settle-IsSound refused r w h k = h
settle-IsSound lost r w h k = k

perform-IsSound : (o : Op) (env : Env) (w : World) → IsSound w.db → IsSound (perform o env w).1.db
unfolding perform
perform-IsSound (Op.create u p l s) env w h =
    settle-IsSound _ _ w h (submission-IsSound w.db h u p l s (env.now w.calls))
perform-IsSound (Op.mark_running j) env w h =
    settle-IsSound _ _ w h (running-IsSound w.db h j (env.now w.calls))
perform-IsSound (Op.mark_done j v r m) env w h =
    settle-IsSound _ _ w h (done-IsSound w.db h j v r m (env.now w.calls))
perform-IsSound (Op.mark_failed j) env w h =
    settle-IsSound _ _ w h (failed-IsSound w.db h j (env.now w.calls))
perform-IsSound (Op.save_test_result t) env w h = settle-IsSound _ _ w h (result-IsSound w.db h t)
perform-IsSound (Op.set_compile_error j msg) env w h =
    settle-IsSound _ _ w h (message-IsSound w.db h j msg)

write-IsSound : (x : Write) (env : Env) (w : World) → IsSound w.db → IsSound (write x env w).db
unfolding write
write-IsSound (account email hash role) env w h =
    settle-IsSound (env.link w.calls) _ w h (user-IsSound w.db h email hash role)
write-IsSound (problem slug title statement time memory) env w h =
    settle-IsSound (env.link w.calls) _ w h
      (problem-IsSound w.db h slug title statement time memory)
write-IsSound (submission o) env w h = perform-IsSound o env w h

-- Whatever statements are sent, in whatever order and whatever becomes of them and of their
-- answers, sound tables stay sound: keys, addresses and slugs are unique, roles and verdicts are
-- those allowed, a submission refers to a user and a problem, and has a verdict, a time and a
-- memory exactly if it is done, and each result refers to a submission and a test case, of which
-- it is the only one, as of its position.
pub writes-IsSound :
    (xs : List Write) (env : Env) (w : World) → IsSound w.db → IsSound (writes xs env w).db
unfolding writes
writes-IsSound [] env w h = h
writes-IsSound (x ∷ xs) env w h = writes-IsSound xs env (write x env w) (write-IsSound x env w h)
