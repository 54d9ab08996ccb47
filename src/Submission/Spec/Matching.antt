-- ===== src/Submission/Spec/Matching.antt =====
-- Each statement of internal/submission/repository.go, carried out or not, against one act on the
-- board.
use go_spoc.Prelude.{
  ℕ, ◌≤◌, ◌≡◌, refl, sym, ap, ◌∙◌, String, Bool, false, ◌&&◌, List, Option, none, some, arith,
  Bool-cases, inl, inr, if◌then◌else◌,
}
use go_spoc.Prelude.Eq.{◌==◌, nat_eq}
use go_spoc.Prelude.Int.{ℤ, pos, int_eq, int_beq_iff}
use go_spoc.Result.{Result}
use go_spoc.Db.{Db, DbError, affected, fits_int4}
use go_spoc.World.{World, Link, up, refused, lost, settle}
use go_spoc.Submission.{Status, queued, running, done, failed, status_eq, TestResult}
use go_spoc.Submission.Repository.{
  queued_row, has_status, set_running, set_done, set_failed, set_message, insert_submission,
  update_running, update_done, update_failed, insert_result, update_compile_error, verdict_allowed,
}
use go_spoc.Submission.Claims.{IsKeyed}
use go_spoc.Submission.Schedule.{Op, answered_true}
use go_spoc.Submission.Spec.{turn, is_at, act, told, act_over, told_over}
use go_spoc.Submission.Spec.Statuses.{
  status_of, board_of, knows, status_of-turn, status_of-kept, affected-is_at, status_of-append,
}

-- One statement on the tables against one act on the board.
pub record Matches (known : ℤ → ℤ → Bool) (o : Op) (l : Link) (db db' : Db) (answer : Bool)
    : Type 0 where
  pub status :
      (id : ℤ) → status_of id db'.submissions ≡ (act_over known l o (board_of db)).status id
  pub next : db'.next_submission ≡ (act_over known l o (board_of db)).next
  pub answer_is : answer ≡ told_over known l o (board_of db)
  pub kept : knows db' ≡ knows db

-- It is enough to look at the statement where it is carried out.
pub settle-Matches :
    (known : ℤ → ℤ → Bool) (o : Op) (l : Link) (r : Result DbError Bool × Db) (w : World)
    → Matches known o up w.db r.1 (answered_true r.0)
    → Matches known o l w.db (settle l r w).1.db (answered_true (settle l r w).0)
settle-Matches known o up r w h = h
settle-Matches known o refused r w h = record {
  status = λ id. refl;
  next = refl;
  answer_is = refl;
  kept = refl;
}
settle-Matches known o lost r w h = record {
  status = h.status;
  next = h.next;
  answer_is = refl;
  kept = h.kept;
}

pub settle_quiet-Matches :
    (known : ℤ → ℤ → Bool) (o : Op) (l : Link) {A : Type 0} (r : Result DbError A × Db) (w : World)
    → told known o (board_of w.db) ≡ false
    → Matches known o up w.db r.1 false
    → Matches known o l w.db (settle l r w).1.db false
settle_quiet-Matches known o up r w k h = h
settle_quiet-Matches known o refused r w k h = record {
  status = λ id. refl;
  next = refl;
  answer_is = refl;
  kept = refl;
}
settle_quiet-Matches known o lost r w k h = record {
  status = h.status;
  next = h.next;
  answer_is = refl;
  kept = h.kept;
}

module _ (db : Db) (keyed : IsKeyed db) where
  one_row : (j : ℤ) → affected (λ s. s.id == j) db.submissions ≤ 1
  one_row j = omega (arith, keyed j)

  hit_is :
      (j : ℤ) (st : Status)
      → (affected (has_status j st) db.submissions == 1) ≡ is_at st (status_of j db.submissions)
  hit_is j st = ground (arith, affected-is_at j st db.submissions (one_row j))

  pub running-Matches :
      (j : ℤ) (now : ℕ)
      → let (r, db') = update_running j now db in
        Matches (knows db) (Op.mark_running j) up db db' (answered_true r)
  unfolding update_running act told
  running-Matches j now = record {
    status = λ id.
        status_of-turn id j queued running (set_running now) db.submissions (λ s. refl) (λ s. refl);
    next = refl;
    kept = refl;
    answer_is = hit_is j queued;
  }

  pub failed-Matches :
      (j : ℤ) (now : ℕ)
      → let (r, db') = update_failed j now db in
        Matches (knows db) (Op.mark_failed j) up db db' (answered_true r)
  unfolding update_failed act told
  failed-Matches j now = record {
    status = λ id.
        status_of-turn id j running failed (set_failed now) db.submissions (λ s. refl) (λ s. refl);
    next = refl;
    kept = refl;
    answer_is = hit_is j running;
  }

  pub message-Matches :
      (j : ℤ) (msg : List ℕ)
      → Matches
          (knows db)
          (Op.set_compile_error j msg)
          up
          db
          (update_compile_error j msg db).1
          false
  unfolding update_compile_error act told
  message-Matches j msg = record {
    status = λ id.
        status_of-kept id (λ s. s.id == j) (set_message msg) db.submissions (λ s. refl) (λ s. refl);
    next = refl;
    answer_is = refl;
    kept = refl;
  }

  pub result-Matches :
      (t : TestResult)
      → Matches (knows db) (Op.save_test_result t) up db (insert_result t db).1 false
  unfolding insert_result act told
  result-Matches t = record {
    status = λ id. ground arith;
    next = ground arith;
    answer_is = refl;
    kept = ground arith;
  }

  -- The row that a refused verdict would have changed is not there, or the statement fails.
  no_turn :
      (id j : ℤ) (to : Status)
      → is_at running (status_of j db.submissions) ≡ false
      → (if j == id
          then turn running to (status_of id db.submissions)
          else status_of id db.submissions)
        ≡ status_of id db.submissions
  no_turn id j to h = elim (Bool-cases (j == id)) [
    | inl e ↦ rw e (
        stays (status_of id db.submissions)
          (ap (λ k. is_at running (status_of k db.submissions)) (sym ((int_beq_iff j id).0 e)) ∙ h))
    | inr e ↦ rw e refl
  ]
    where
      stays : (o : Option Status) → is_at running o ≡ false → turn running to o ≡ o
      stays none k = refl
      stays (some s) k = rw k refl

  pub done-Matches :
      (j : ℤ) (v : String) (r m : ℤ) (now : ℕ)
      → let (a, db') = update_done j v r m now db in
        Matches (knows db) (Op.mark_done j v r m) up db db' (answered_true a)
  unfolding update_done act told
  done-Matches j v r m now = elim (Bool-cases (fits_int4 r && fits_int4 m)) [
    | inr e ↦ record {
      status = λ id. ground (arith, e);
      next = ground (arith, e);
      answer_is = ground (arith, e);
      kept = ground (arith, e);
    }
    | inl e ↦ elim (Bool-cases (verdict_allowed v)) [
      | inl k ↦ record {
        status = λ id. ground (
          arith,
          e,
          k,
          status_of-turn id j running done (set_done v r m now) db.submissions (λ s. refl)
              (λ s. refl),
        );
        next = ground (arith, e, k);
        kept = ground (arith, e, k);
        answer_is = ground (arith, e, k, hit_is j running);
      }
      | inr k ↦ record {
        status = λ id. ground (
          arith,
          e,
          k,
          hit_is j running,
          no_turn id j done,
          status_of-turn id j running done (set_done v r m now) db.submissions (λ s. refl)
              (λ s. refl),
        );
        next = ground (arith, e, k);
        kept = ground (arith, e, k);
        answer_is = ground (arith, e, k);
      }
    ]
  ]

  absent : affected (λ s. s.id == pos db.next_submission) db.submissions ≡ 0
  absent = ground (arith, keyed (pos db.next_submission))

  pub create-Matches :
      (u p : ℤ) (l s : List ℕ) (now : ℕ)
      → Matches (knows db) (Op.create u p l s) up db (insert_submission u p l s now db).1 false
  unfolding insert_submission act told
  create-Matches u p l s now = record {
    status = λ id. ground (
      arith,
      status_of-append id (queued_row db.next_submission u p l s now) db.submissions absent,
    );
    next = ground arith;
    answer_is = refl;
    kept = ground arith;
  }
