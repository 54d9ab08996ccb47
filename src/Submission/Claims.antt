-- ===== src/Submission/Claims.antt =====
-- No submission is claimed twice, in any order of the statements and whatever becomes of their
-- answers.
use go_spoc.Prelude.{
  ℕ, ◌+◌, ◌≤◌, ◌≡◌, refl, String, Bool, List, [], ◌∷◌, arith, if◌then◌else◌, ◌&&◌, leb, Bool-cases,
  inl, inr,
}
use go_spoc.Prelude.Eq.{◌==◌, nat_eq}
use go_spoc.Prelude.Int.{ℤ, pos, negsuc, int_eq, int_beq_iff}
use go_spoc.Submission.{Submission, queued, running, status_eq, TestResult}
use go_spoc.Result.{Result}
use go_spoc.Db.{Db, DbError, update_where, affected}
use go_spoc.World.{Env, World, Link, up, refused, lost, settle}
use go_spoc.Submission.Repository.{
  queued_row, has_status, set_running, set_done, set_failed, set_message, insert_submission,
  update_running, update_done, update_failed, insert_result, update_compile_error,
}
use go_spoc.Submission.Rows.{bit, affected-append, affected-update-le, affected-update_zero}
use go_spoc.Submission.Schedule.{Op, perform, claims, wins, answered_true}

abbrev pub rows_of : ℤ → Db → ℕ
rows_of id db = affected (λ s. s.id == id) db.submissions

abbrev pub queued_of : ℤ → Db → ℕ
queued_of id db = affected (has_status id queued) db.submissions

-- 1 for an id that the sequence has still to give out.
abbrev pub unborn_at : ℤ → ℕ → ℕ
unborn_at (pos k) next = if leb next k then 1 else 0
unborn_at (negsuc k) next = 0

abbrev pub unborn : ℤ → Db → ℕ
unborn id db = unborn_at id db.next_submission

-- The primary key: an id stands in one row at most, and in none before it is given out.
abbrev pub IsKeyed : Db → Type 0
IsKeyed db = (id : ℤ) → rows_of id db + unborn id db ≤ 1

-- What a statement may do to the rows of one id.
pub record Drains (id : ℤ) (db db' : Db) (won : ℕ) : Type 0 where
  pub keyed : rows_of id db' + unborn id db' ≤ rows_of id db + unborn id db
  pub queue : queued_of id db' + unborn id db' + won ≤ queued_of id db + unborn id db

-- What a worker counts: it asked for this id and was told `true`.
abbrev pub won_if : Bool → Result DbError Bool → ℕ
won_if mine r = bit (mine && answered_true r)

insert-Drains :
    (id u p : ℤ) (l s : List ℕ) (now : ℕ) (db : Db)
    → Drains id db (insert_submission u p l s now db).1 0
unfolding insert_submission
insert-Drains id u p l s now db =
    let row : Submission = queued_row db.next_submission u p l s now in
    ground (
      arith,
      affected-append (λ (r : Submission). r.id == id) db.submissions row,
      affected-append (has_status id queued) db.submissions row,
    )

-- An UPDATE that keeps the ids and queues nothing.
update-Drains :
    (id : ℤ) (p : Submission → Bool) (f : Submission → Submission) (db : Db)
    → ((s : Submission) → (f s).id ≡ s.id)
    → ((s : Submission) → bit ((f s).status == queued) ≤ bit (s.status == queued))
    → Drains id db (record db { submissions = update_where p f db.submissions }) 0
update-Drains id p f db same calm =
    let rows =
      affected-update-le p (λ s. s.id == id) f db.submissions (λ s h. rw (same s) (omega arith)) in
    let queue =
      affected-update-le p (has_status id queued) f db.submissions
        (λ s h. rw (same s) (ground (arith, calm s))) in
    record { keyed = omega arith; queue = omega arith }

claim_own-Drains :
    (id : ℤ) (now : ℕ) (db : Db)
    → Drains id db
        (update_running id now db).1
        (bit (affected (has_status id queued) db.submissions == 1))
unfolding update_running
claim_own-Drains id now db =
    let rest =
      update-Drains id (has_status id queued) (set_running now) db (λ s. refl) (λ s. omega arith) in
    let emptied =
      affected-update_zero (has_status id queued) (has_status id queued) (set_running now)
        db.submissions (λ s h. ground arith) (λ s h. h) in
    record { keyed = rest.keyed; queue = ground (arith, emptied) }

pub claim-Drains :
    (id j : ℤ) (now : ℕ) (db : Db)
    → Drains id db (update_running j now db).1 (won_if (j == id) (update_running j now db).0)
unfolding update_running
claim-Drains id j now db = elim (Bool-cases (j == id)) [
  | inl e ↦ rw (e, (int_beq_iff j id).0 e) (claim_own-Drains id now db)
  | inr e ↦
      rw e
        (update-Drains id (has_status j queued) (set_running now) db (λ s. refl) (λ s. omega arith))
]

pub done-Drains :
    (id j : ℤ) (v : String) (r m : ℤ) (now : ℕ) (db : Db)
    → Drains id db (update_done j v r m now db).1 0
unfolding update_done
done-Drains id j v r m now db = ground (
  arith,
  update-Drains id (has_status j running) (set_done v r m now) db (λ s. refl) (λ s. ground arith),
)

pub failed-Drains : (id j : ℤ) (now : ℕ) (db : Db) → Drains id db (update_failed j now db).1 0
unfolding update_failed
failed-Drains id j now db =
    update-Drains id (has_status j running) (set_failed now) db (λ s. refl) (λ s. ground arith)

message-Drains :
    (id j : ℤ) (msg : List ℕ) (db : Db) → Drains id db (update_compile_error j msg db).1 0
unfolding update_compile_error
message-Drains id j msg db =
    update-Drains id (λ s. s.id == j) (set_message msg) db (λ s. refl) (λ s. omega arith)

result-Drains : (id : ℤ) (tr : TestResult) (db : Db) → Drains id db (insert_result tr db).1 0
unfolding insert_result
result-Drains id tr db = ground arith

-- The connection may carry a statement out or not; what it reports can only be less.
pub settle-Drains :
    (id : ℤ) (l : Link) (mine : Bool) (r : Result DbError Bool × Db) (w : World)
    → Drains id w.db r.1 (won_if mine r.0)
    → Drains id w.db (settle l r w).1.db (won_if mine (settle l r w).0)
settle-Drains id up mine r w h = h
settle-Drains id refused mine r w h = ground arith
settle-Drains id lost mine r w h = ground arith

pub settle_quiet-Drains :
    (id : ℤ) {A : Type 0} (l : Link) (r : Result DbError A × Db) (w : World)
    → Drains id w.db r.1 0
    → Drains id w.db (settle l r w).1.db 0
settle_quiet-Drains id up r w h = h
settle_quiet-Drains id refused r w h = omega arith
settle_quiet-Drains id lost r w h = h

abbrev won : ℤ → Op → Env → World → ℕ
won id o env w = bit (claims id o && (perform o env w).0)

pub perform-Drains :
    (id : ℤ) (o : Op) (env : Env) (w : World)
    → Drains id w.db (perform o env w).1.db (won id o env w)
unfolding perform
perform-Drains id (Op.mark_running j) env w =
    settle-Drains id (env.link w.calls) (j == id) _ w (claim-Drains id j (env.now w.calls) w.db)
perform-Drains id (Op.create u p l s) env w =
    settle_quiet-Drains id (env.link w.calls) _ w (insert-Drains id u p l s (env.now w.calls) w.db)
perform-Drains id (Op.mark_done j v r m) env w =
    settle_quiet-Drains id (env.link w.calls) _ w (done-Drains id j v r m (env.now w.calls) w.db)
perform-Drains id (Op.mark_failed j) env w =
    settle_quiet-Drains id (env.link w.calls) _ w (failed-Drains id j (env.now w.calls) w.db)
perform-Drains id (Op.save_test_result t) env w =
    settle_quiet-Drains id (env.link w.calls) _ w (result-Drains id t w.db)
perform-Drains id (Op.set_compile_error j msg) env w =
    settle_quiet-Drains id (env.link w.calls) _ w (message-Drains id j msg w.db)

-- Every statement keeps the keys distinct.
pub perform-IsKeyed :
    (o : Op) (env : Env) (w : World) → IsKeyed w.db → IsKeyed (perform o env w).1.db
perform-IsKeyed o env w h id = omega (arith, perform-Drains id o env w, h id)

wins-le-queue :
    (id : ℤ) (os : List Op) (env : Env) (w : World)
    → wins id os env w ≤ queued_of id w.db + unborn id w.db
unfolding wins
wins-le-queue id [] env w = omega arith
wins-le-queue id (o ∷ os) env w =
    omega (arith, perform-Drains id o env w, wins-le-queue id os env (perform o env w).1)

pub queue-le-rows :
    (id : ℤ) (rows : List Submission)
    → affected (has_status id queued) rows ≤ affected (λ s. s.id == id) rows
unfolding affected
queue-le-rows id [] = omega arith
queue-le-rows id (s ∷ rows) = ground (arith, queue-le-rows id rows)

-- From tables with distinct keys, in every sequence of the repository's statements and whatever
-- becomes of their answers, at most one caller is told that it claimed a submission.
pub claimed_once :
    (id : ℤ) (os : List Op) (env : Env) (w : World) → IsKeyed w.db → wins id os env w ≤ 1
claimed_once id os env w h =
    omega (arith, wins-le-queue id os env w, queue-le-rows id w.db.submissions, h id)
