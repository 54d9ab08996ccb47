-- ===== src/Submission/Handler/Laws.antt =====
-- What becomes of a request to create a submission.
use go_spoc.Prelude.{
  ℕ, suc, ◌≤◌, ◌≡◌, ◌≢◌, ◌↔◌, refl, Bool, true, false, ◌&&◌, List, [], ◌∷◌, ◌++◌, none, some, codes,
  length, is_empty, Bool-cases, Option-cases, ◌⊎◌, inl, inr, arith, if◌then◌else◌,
}
use go_spoc.Prelude.Eq.{list_beq_iff, ◌==◌, nat_eq, list_eq}
use go_spoc.Prelude.Int.{ℤ, pos, ◌<ℤ◌, int_eq}
use go_spoc.Result.{Result, ok, err}
use go_spoc.Strings.Utf8.{utf8}
use go_spoc.Db.{Db, DbError, foreign_key_violation, exists}
use go_spoc.Http.{Reply, error, json}
use go_spoc.World.{Env, World, Link, up, refused, lost, settle, xadd, send}
use go_spoc.Submission.{Submission}
use go_spoc.Submission.Repository.{queued_row, insert_submission}
use go_spoc.Submission.Repository as Submissions
use go_spoc.Submission.Handler.{
  CreateRequest, SubmissionResponse, to_response, clean, refusal, on_created, submit, create,
  allowed_language,
}
use go_spoc.Queue.{enqueue, job_fields}

-- A request that may be stored.
pub record IsValid (req : CreateRequest) : Type 0 where
  pub problem : pos 0 <ℤ req.problem_id
  pub language : (req.language ≡ codes "python") ⊎ (req.language ≡ codes "go")
  pub source : req.source ≢ []
  pub size : length (utf8 req.source) ≤ 65536

allowed_language_iff :
    (l : List ℕ) → (allowed_language l ≡ true) ↔ ((l ≡ codes "python") ⊎ (l ≡ codes "go"))
allowed_language_iff l = (
  λ h. elim (Bool-cases (l == codes "python")) [
    | inl e ↦ inl ((list_beq_iff l (codes "python")).0 e)
    | inr e ↦ inr ((list_beq_iff l (codes "go")).0 (ground (arith, h, e)))
  ],
  λ h. ground (arith, list_beq_iff l (codes "python"), list_beq_iff l (codes "go"), h),
)

is_empty_iff : {A : Type 0} (xs : List A) → (is_empty xs ≡ true) ↔ (xs ≡ [])
is_empty_iff [] = (λ _. refl, λ _. refl)
is_empty_iff (x ∷ xs) = (λ h. cc, λ h. cc)

-- The guards let exactly the valid requests pass.
pub refusal-none_iff : (req : CreateRequest) → (refusal req ≡ none) ↔ IsValid req
unfolding refusal
refusal-none_iff req = (
  λ h. record {
    problem = ground (arith, h);
    language = (allowed_language_iff req.language).0 (ground (arith, h));
    source = λ e. ground (arith, h, (is_empty_iff req.source).1 e);
    size = ground (arith, h);
  },
  λ v. ground (
    arith,
    v.problem,
    (allowed_language_iff req.language).1 v.language,
    v.source,
    is_empty_iff req.source,
    v.size,
  ),
)

module _ (unicode_lower : ℕ → ℕ) (user_id : ℤ) (body : CreateRequest) (env : Env) (w : World) where
  abbrev req : CreateRequest
  req = clean unicode_lower body

  abbrev pub stored_row : Submission
  stored_row =
      queued_row w.db.next_submission user_id req.problem_id req.language req.source
        (env.now w.calls)

  -- The three courses of a request that a known user sends.
  pub data Course : Reply SubmissionResponse × World → Type 0 where
    turned_away : {text : List ℕ} → (IsValid req → ⊥) → Course (error 400 text, w)
    unsaved :
        {text : List ℕ} {w' : World} → IsValid req → w'.sent ≡ w.sent → Course (error 500 text, w')
    accepted :
        {w' : World}
        → IsValid req
        → w'.db.submissions ≡ w.db.submissions ++ stored_row ∷ []
        → w'.sent ≡ w.sent ++ xadd (job_fields (record { submission_id = stored_row.id })) ∷ []
        → Course (json 202 (to_response stored_row), w')

  settled-Course :
      (known : Bool) (l : Link)
      → IsValid req
      → let spent : Db = record w.db { next_submission = suc w.db.next_submission } in
        let answer : Result DbError Submission × Db =
          if known
          then (ok stored_row, record spent { submissions = w.db.submissions ++ stored_row ∷ [] })
          else (err foreign_key_violation, spent) in
        let (r, w') = settle l answer w in Course (on_created r env w')
  unfolding on_created enqueue send
  settled-Course true up v = accepted v refl refl
  settled-Course false up v = unsaved v refl
  settled-Course known refused v = elim known [ true ↦ unsaved v refl | false ↦ unsaved v refl ]
  settled-Course known lost v = elim known [ true ↦ unsaved v refl | false ↦ unsaved v refl ]

  -- A request of a known user ends in one of three ways: it is not valid, and nothing happens; the
  -- row is not known to be stored, the answer is 500 and nothing is enqueued; or the row is stored
  -- as queued for that user, its id is enqueued, and the row is the answer, whether or not Redis
  -- takes the job.
  pub create-Course : Course (create unicode_lower (some user_id) (some body) env w)
  unfolding create submit Submissions.create insert_submission
  create-Course = elim (Option-cases (refusal req)) [
    | inl none_h ↦ rw none_h (
        settled-Course
          (exists (λ u. u.id == user_id) w.db.users
            && exists (λ p. p.id == req.problem_id) w.db.problems)
          (env.link w.calls) ((refusal-none_iff req).0 none_h))
    | inr (text, some_h) ↦ rw some_h (turned_away λ v. refusal_some v some_h)
  ]
    where
      refusal_some : {text : List ℕ} → IsValid req → refusal req ≡ some text → ⊥
      refusal_some v h = ground (arith, (refusal-none_iff req).1 v, h)
