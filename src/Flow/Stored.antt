-- ===== src/Flow/Stored.antt =====
-- What a request that was accepted leaves behind it, for the worker that takes the job.
use mathlib.Core.Path.{subst}
use go_spoc.Prelude.{
  ℕ, ◌≡◌, refl, sym, true, List, [], ◌∷◌, ◌++◌, some, arith, Option-cases, inl, inr,
}
use go_spoc.Prelude.Eq.{◌==◌}
use go_spoc.Prelude.Int.{ℤ, int_eq}
use go_spoc.Result.{Result, ok, err}
use go_spoc.Db.{DbError, query_row, affected}
use go_spoc.Http.{Reply, error, json, panic}
use go_spoc.World.{Env, World, send}
use go_spoc.Queue.{enqueue}
use go_spoc.Submission.{Submission}
use go_spoc.Submission.Claims.{IsKeyed, perform-IsKeyed}
use go_spoc.Submission.Schedule.{Op, perform}
use go_spoc.Submission.Repository as Submissions
use go_spoc.Submission.Repository.{queued_row}
use go_spoc.Submission.Handler.{
  CreateRequest, SubmissionResponse, clean, refusal, submit, on_created, create,
}
use go_spoc.Submission.Handler.Laws.{
  Course, turned_away, unsaved, accepted, stored_row, create-Course,
}

-- The row that is appended under a fresh key is the one that a query of the key finds.
query_row-fresh :
    (id : ℤ) (row : Submission) (rows : List Submission)
    → (row.id == id) ≡ true
    → affected (λ s. s.id == id) rows ≡ 0
    → query_row (λ s. s.id == id) (rows ++ row ∷ []) ≡ ok row
unfolding query_row affected
query_row-fresh id row [] e h = rw e refl
query_row-fresh id row (s ∷ rows) e h = ground (arith, h, query_row-fresh id row rows e)

-- The reply is that the request was accepted.
abbrev pub Accepted : Reply SubmissionResponse → Type 0
Accepted (error status text) = ⊥
Accepted (json status resp) = Unit {0}
Accepted (panic value) = ⊥

module _ (unicode_lower : ℕ → ℕ) (user_id : ℤ) (body : CreateRequest) (env : Env) (w : World) where
  abbrev pub posted : Reply SubmissionResponse × World
  posted = create unicode_lower (some user_id) (some body) env w

  abbrev req : CreateRequest
  req = clean unicode_lower body

  abbrev pub row : Submission
  row = stored_row unicode_lower user_id body env w

  -- The submission is in the tables, and the reply shows it.
  pub record IsStored (u : World) : Type 0 where
    pub keyed : IsKeyed u.db
    pub found : query_row (λ s. s.id == row.id) u.db.submissions ≡ ok row

  on_created_db : (r : Result DbError Submission) (u : World) → (on_created r env u).1.db ≡ u.db
  unfolding on_created enqueue send
  on_created_db (ok s) u = refl
  on_created_db (err e) u = refl

  posted-IsKeyed : IsKeyed w.db → IsKeyed posted.1.db
  unfolding create submit perform
  posted-IsKeyed k = elim (Option-cases (refusal req)) [
    | inl passed ↦
        let inserted =
          perform-IsKeyed (Op.create user_id req.problem_id req.language req.source) env w k in
        let (r, u) = Submissions.create user_id req.problem_id req.language req.source env w in
        rw passed (subst IsKeyed (sym (on_created_db r u)) inserted)
    | inr (text, refused) ↦ rw refused k
  ]

  -- Of the three courses of a request only one is an acceptance.
  posted_row :
      {p : Reply SubmissionResponse × World}
      → Course unicode_lower user_id body env w p
      → Accepted p.0
      → p.1.db.submissions ≡ w.db.submissions ++ row ∷ []
  posted_row (turned_away bad) a = elim a [ ]
  posted_row (unsaved v sent) a = elim a [ ]
  posted_row (accepted v rows sent) a = rows

  pub posted-IsStored : IsKeyed w.db → Accepted posted.0 → IsStored posted.1
  posted-IsStored k a = record {
    keyed = posted-IsKeyed k;
    found =
        rw (posted_row (create-Course unicode_lower user_id body env w) a)
          (query_row-fresh row.id row w.db.submissions (ground arith) (ground (arith, k row.id)));
  }
