-- ===== src/Integrity/Updates.antt =====
-- The UPDATEs keep the tables sound.
use mathlib.Core.Path.{subst}
use go_spoc.Prelude.{
  ℕ, ◌≡◌, refl, sym, ◌∙◌, String, Bool, true, ◌&&◌, List, [], ◌∷◌, arith, Bool-cases, inl, inr,
}
use go_spoc.Prelude.Eq.{◌==◌, nat_eq}
use go_spoc.Prelude.Int.{ℤ, int_eq}
use go_spoc.Submission.{Submission, queued, running, status_eq}
use go_spoc.Submission.Repository.{
  update_running, update_done, update_failed, update_compile_error, has_status, set_running,
  set_done, set_failed, set_message, verdict_allowed,
}
use go_spoc.Submission.Rows.{affected-update-le}
use go_spoc.Db.{Db, affected, update_where, fits_int4}
use go_spoc.Integrity.{IsSound, IsProper, IsRecorded}
use go_spoc.Integrity.Tables.{exists-update, All-update, All-map}

-- An UPDATE that hits no row.
update_none :
    {A : Type 0} (p : A → Bool) (f : A → A) (xs : List A)
    → affected p xs ≡ 0
    → update_where p f xs ≡ xs
unfolding affected update_where
update_none p f [] h = refl
update_none p f (x ∷ xs) h = ground (arith, h, update_none p f xs)

module _ (db : Db) (h : IsSound db) where
  -- An UPDATE of submissions that keeps the references and brings the columns of a judgement in
  -- line with the status.
  updated-IsSound :
      (p : Submission → Bool) (f : Submission → Submission)
      → ((s : Submission) → (f s).id ≡ s.id)
      → ((s : Submission)
          → p s ≡ true
          → IsProper db.users db.problems s
          → IsProper db.users db.problems (f s))
      → IsSound (record db { submissions = update_where p f db.submissions })
  updated-IsSound p f same proper = record {
    users = h.users;
    problems = h.problems;
    keyed = λ id. omega (
      arith,
      affected-update-le p (λ s. s.id == id) f db.submissions (λ s e. rw (same s) (omega arith)),
      h.keyed id,
    );
    proper = All-update (IsProper db.users db.problems) p f db.submissions proper h.proper;
    results = record {
      cases = h.results.cases;
      idxs = h.results.idxs;
      recorded =
          All-map (IsRecorded db.submissions db.test_cases) _ db.results
            (λ r (sub, case_, allowed). (
              exists-update (λ s. s.id == r.submission_id) p f db.submissions
                    (λ s. rw (same s) refl)
                  ∙ sub,
              case_,
              allowed,
            ))
            h.results.recorded;
    };
  }

  pub running-IsSound : (id : ℤ) (now : ℕ) → IsSound (update_running id now db).1
  unfolding update_running
  running-IsSound id now =
      updated-IsSound (has_status id queued) (set_running now) (λ s. refl)
        (λ s e (user, problem, fits). (user, problem, ground (arith, e, fits)))

  pub failed-IsSound : (id : ℤ) (now : ℕ) → IsSound (update_failed id now db).1
  unfolding update_failed
  failed-IsSound id now =
      updated-IsSound (has_status id running) (set_failed now) (λ s. refl)
        (λ s e (user, problem, fits). (user, problem, ground (arith, e, fits)))

  pub message-IsSound : (id : ℤ) (msg : List ℕ) → IsSound (update_compile_error id msg db).1
  unfolding update_compile_error
  message-IsSound id msg =
      updated-IsSound (λ s. s.id == id) (set_message msg) (λ s. refl) (λ s e proper. proper)

  pub done-IsSound :
      (id : ℤ) (v : String) (r m : ℤ) (now : ℕ) → IsSound (update_done id v r m now db).1
  unfolding update_done
  done-IsSound id v r m now = elim (Bool-cases (fits_int4 r && fits_int4 m)) [
    | inr e ↦ rw e h
    | inl e ↦ elim (Bool-cases (verdict_allowed v)) [
      | inl a ↦
          let written : (update_done id v r m now db).1 ≡ record db {
            submissions = update_where (has_status id running) (set_done v r m now) db.submissions;
          } =
            ground (arith, e, a) in
          subst IsSound (sym written) (
            updated-IsSound (has_status id running) (set_done v r m now) (λ s. refl)
              (λ s _ (user, problem, fits). (user, problem, a)))
      | inr a ↦
          let unchanged : (update_done id v r m now db).1 ≡ db = ground (
            arith,
            e,
            a,
            update_none (has_status id running) (set_done v r m now) db.submissions,
          ) in
          subst IsSound (sym unchanged) h
    ]
  ]
