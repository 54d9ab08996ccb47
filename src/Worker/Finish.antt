-- ===== src/Worker/Finish.antt =====
-- A queued submission that is judged ends as done, with the verdict of the judge.
use go_spoc.Prelude.{
  ℕ, ◌≡◌, refl, ap, ◌∙◌, ◌≤◌, Bool, true, false, ◌&&◌, List, [], ◌∷◌, map, arith, ltb, Bool-cases,
  inl, inr,
}
use go_spoc.Prelude.Eq.{◌==◌, nat_eq}
use go_spoc.Prelude.Int.{ℤ, int_eq}
use go_spoc.Submission.{Submission, queued, running, status_eq}
use go_spoc.Result.{ok}
use go_spoc.Db.{Db, update_where, affected, query_row, fits_int4}
use go_spoc.World.{Env, World, up}
use go_spoc.Submission.Repository.{
  mark_running, mark_done, update_running, update_done, has_status, set_running, set_done,
  verdict_allowed,
}
use go_spoc.Submission.Rows.{query_row-update, query_row-holds}
use go_spoc.Submission.Claims.{IsKeyed}
use go_spoc.Submission.Lifecycle.{judged_part}
use go_spoc.Judge.Languages.{Judge}
use go_spoc.Judge.Run.{JudgeResult}
use go_spoc.Judge.Run as Judging
use go_spoc.Judge.Frame.{run-Frame}
use go_spoc.Judge.Verdicts.{run-Allowed}
use go_spoc.Queue.{Message, ack}
use go_spoc.Worker.{Worker, status_event, done_event, process}
use go_spoc.Worker.Laws.{at_judging, at_verdict, publish_db}

module _ (id : ℤ) where
  abbrev by_id : Submission → Bool
  by_id s = s.id == id

  -- A row that is found and queued is counted.
  affected-query_row :
      (rows : List Submission) {s : Submission}
      → query_row by_id rows ≡ ok s
      → s.status ≡ queued
      → 1 ≤ affected (has_status id queued) rows
  unfolding affected query_row
  affected-query_row [] e q = cc
  affected-query_row (r ∷ rows) {s} e q = ground (arith, affected-query_row rows {s = s})

  affected-le :
      (rows : List Submission) → affected (has_status id queued) rows ≤ affected by_id rows
  unfolding affected
  affected-le [] = omega arith
  affected-le (r ∷ rows) = ground (arith, affected-le rows)

  -- Rows that agree but for the compiler's messages answer a query alike.
  query_row-judged :
      (rows rows' : List Submission) {s : Submission}
      → map judged_part rows' ≡ map judged_part rows
      → query_row by_id rows ≡ ok s
      → (t : Submission) × (query_row by_id rows' ≡ ok t) × (judged_part t ≡ judged_part s)
  unfolding query_row
  query_row-judged [] rows' h e = cc
  query_row-judged (r ∷ rows) [] h e = cc
  query_row-judged (r ∷ rows) (r' ∷ rows') {s} h e =
      let head : judged_part r' ≡ judged_part r = cc in
      let tail : map judged_part rows' ≡ map judged_part rows = cc in
      let same : r'.id ≡ r.id = ap (λ (x : Submission). x.id) head in
      elim (Bool-cases (by_id r)) [
        | inl hit ↦
            let hit' : by_id r' ≡ true = rw same hit in
            let found : r ≡ s = ground arith in rw hit' (r', refl, head ∙ ap judged_part found)
        | inr missed ↦
            let missed' : by_id r' ≡ false = rw same missed in
            rw missed' (query_row-judged rows rows' {s = s} tail (ground arith))
      ]

-- With numbers that fit and a verdict that is allowed, the row is updated.
update_done_ok :
    (id : ℤ) (rep : JudgeResult) (now : ℕ) (db : Db)
    → verdict_allowed rep.verdict ≡ true
    → (fits_int4 rep.runtime_ms && fits_int4 rep.memory_kb) ≡ true
    → update_done id rep.verdict rep.runtime_ms rep.memory_kb now db ≡ (
      ok (affected (has_status id running) db.submissions == 1),
      record db {
        submissions =
            update_where
              (has_status id running)
              (set_done rep.verdict rep.runtime_ms rep.memory_kb now)
              db.submissions;
      },
    )
unfolding update_done
update_done_ok id rep now db allowed fits =
    rw fits (elim (Bool-cases (ltb 0 (affected (has_status id running) db.submissions))) [
      | inl e ↦ rw e (rw allowed refl)
      | inr e ↦ rw e refl
    ])

module _ (wk : Worker) (j : Judge) (msg : Message) (env : Env) (w : World) (s : Submission)
    (rep : JudgeResult) where
  abbrev id : ℤ
  id = msg.job.submission_id

  abbrev pub Found : World → Submission → Type 0
  Found u t = query_row (λ r. r.id == id) u.db.submissions ≡ ok t

  -- The claim goes through.
  pub claimed :
      ((n : ℕ) → env.link n ≡ up)
      → IsKeyed w.db
      → Found w s
      → s.status ≡ queued
      → ((mark_running id env w).0 ≡ ok true)
        × Found (mark_running id env w).1 (set_running (env.now w.calls) s)
  unfolding mark_running update_running
  claimed l k f q =
      let one : affected (has_status id queued) w.db.submissions ≡ 1 = omega (
        arith,
        affected-query_row id w.db.submissions f q,
        affected-le id w.db.submissions,
        k id,
      ) in
      let hit : has_status id queued s ≡ true =
        ground (arith, query_row-holds (by_id id) w.db.submissions f) in
      let moved =
        query_row-update (has_status id queued) (by_id id) (set_running (env.now w.calls))
          w.db.submissions (λ r. refl) f in
      (rw (l w.calls) (rw one refl), rw (l w.calls) (moved ∙ rw hit refl))

  -- The judge leaves the claimed row as it is, but for the compiler's message.
  pub judged :
      Found (mark_running id env w).1 (set_running (env.now w.calls) s)
      → (t : Submission) × Found (at_verdict wk j msg env w) t
        × (judged_part t ≡ judged_part (set_running (env.now w.calls) s))
  unfolding at_verdict at_judging
  judged f =
      query_row-judged id (at_judging wk j msg env w).db.submissions
        (at_verdict wk j msg env w).db.submissions {s = set_running (env.now w.calls) s}
        (run-Frame j id env (at_judging wk j msg env w)).rows
        (rw (publish_db wk (status_event id "running") env (mark_running id env w).1) f)

  -- The verdict is written into the row.
  pub marked :
      (t : Submission)
      → ((n : ℕ) → env.link n ≡ up)
      → Found (at_verdict wk j msg env w) t
      → t.status ≡ running
      → verdict_allowed rep.verdict ≡ true
      → (fits_int4 rep.runtime_ms && fits_int4 rep.memory_kb) ≡ true
      → let v = at_verdict wk j msg env w in
        let (r, u) = mark_done id rep.verdict rep.runtime_ms rep.memory_kb env v in
        (r ≡ ok (affected (has_status id running) v.db.submissions == 1))
        × Found u (set_done rep.verdict rep.runtime_ms rep.memory_kb (env.now v.calls) t)
  unfolding mark_done
  marked t l f run allowed fits =
      let v = at_verdict wk j msg env w in
      let moved =
        query_row-update (has_status id running) (by_id id)
          (set_done rep.verdict rep.runtime_ms rep.memory_kb (env.now v.calls)) v.db.submissions
          (λ r. refl) f in
      let hit : has_status id running t ≡ true =
        ground (arith, query_row-holds (by_id id) v.db.submissions f) in
      let done = update_done_ok id rep (env.now v.calls) v.db allowed fits in
      (rw (l v.calls) (rw done refl), rw (l v.calls) (rw done (moved ∙ rw hit refl)))

  -- What follows the recording leaves the tables as they are.
  recorded-Found :
      (t : Submission) (b : Bool)
      → (mark_running id env w).0 ≡ ok true
      → (Judging.run j id env (at_judging wk j msg env w)).0 ≡ ok rep
      → let (r, u) =
          mark_done id rep.verdict rep.runtime_ms rep.memory_kb env (at_verdict wk j msg env w) in
        r ≡ ok b → Found u t → Found (process wk j msg env w).1 t
  unfolding process at_judging at_verdict ack
  recorded-Found t b c r m f = rw c (rw r (rw m (rw (publish_db wk (done_event id rep) env _) f)))

  -- A queued submission whose judging returns a result ends as done, with the verdict, time and
  -- memory of that result, whether or not Redis takes the events; the rest of its row is as it was
  -- but for the compiler's message. The keys are taken to be distinct, the statements to go
  -- through, and the two numbers to fit INTEGER.
  pub process_finishes :
      ((n : ℕ) → env.link n ≡ up)
      → IsKeyed w.db
      → Found w s
      → s.status ≡ queued
      → (Judging.run j id env (at_judging wk j msg env w)).0 ≡ ok rep
      → (fits_int4 rep.runtime_ms && fits_int4 rep.memory_kb) ≡ true
      → (t : Submission) × Found (process wk j msg env w).1 t
        × (judged_part t
            ≡ set_done rep.verdict rep.runtime_ms rep.memory_kb
                (env.now (at_verdict wk j msg env w).calls)
                (judged_part s))
  unfolding process
  process_finishes l k f q r fits =
      let (c, f1) = claimed l k f q in
      let (t, f2, same) = judged f1 in
      let allowed : verdict_allowed rep.verdict ≡ true =
        rw r at (run-Allowed j id env (at_judging wk j msg env w)) in
      let (m, f3) = marked t l f2 (ap (λ (x : Submission). x.status) same) allowed fits in
      let written =
        set_done rep.verdict rep.runtime_ms rep.memory_kb
          (env.now (at_verdict wk j msg env w).calls) in
      (written t, recorded-Found (written t) _ c r m f3, ap written same)
