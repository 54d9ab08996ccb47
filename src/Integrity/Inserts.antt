-- ===== src/Integrity/Inserts.antt =====
-- The INSERTs keep the tables sound.
use go_spoc.Prelude.{
  ℕ, suc, ◌≡◌, refl, sym, true, false, ◌&&◌, List, [], ◌∷◌, ◌++◌, arith, Bool-cases, inl, inr,
}
use go_spoc.Prelude.Eq.{nat_eq, list_eq, list_beq_iff}
use go_spoc.Prelude.Int.{ℤ, pos, int_eq}
use go_spoc.User.{User}
use go_spoc.User.Repository.{role_allowed, insert_user}
use go_spoc.Problem.{Problem}
use go_spoc.Problem.Repository.{insert_problem}
use go_spoc.Submission.{Submission}
use go_spoc.Submission.Repository.{insert_submission}
use go_spoc.Db.{Db, exists, fits_int4}
use go_spoc.Integrity.{IsSound, IsProper, IsRecorded, user_is, has_email, problem_is, has_slug}
use go_spoc.Integrity.Tables.{
  exists-append, unique-append, IsFresh-suc, IsFresh-append, All-append, All-map,
}

-- The sequences are advanced by an INSERT that fails too.
module _ (db : Db) (h : IsSound db) where
  spend_user : IsSound (record db { next_user = suc db.next_user })
  spend_user = record {
    users = record {
      ids = IsFresh-suc (λ (u : User). u.id) db.users db.next_user h.users.ids;
      emails = h.users.emails;
      roles = h.users.roles;
    };
    problems = h.problems;
    keyed = h.keyed;
    proper = h.proper;
    results = h.results;
  }

  spend_problem : IsSound (record db { next_problem = suc db.next_problem })
  spend_problem = record {
    users = h.users;
    problems = record {
      ids = IsFresh-suc (λ (p : Problem). p.id) db.problems db.next_problem h.problems.ids;
      slugs = h.problems.slugs;
    };
    keyed = h.keyed;
    proper = h.proper;
    results = h.results;
  }

  spend_submission : IsSound (record db { next_submission = suc db.next_submission })
  spend_submission = record {
    users = h.users;
    problems = h.problems;
    keyed = IsFresh-suc (λ (s : Submission). s.id) db.submissions db.next_submission h.keyed;
    proper = h.proper;
    results = h.results;
  }

  add_user :
      (u : User)
      → u.id ≡ pos db.next_user
      → role_allowed u.role ≡ true
      → exists (has_email u.email) db.users ≡ false
      → IsSound (record db { users = db.users ++ u ∷ []; next_user = suc db.next_user })
  add_user u id role free = record {
    users = record {
      ids = IsFresh-append (λ (u : User). u.id) db.users u db.next_user id h.users.ids;
      emails =
          unique-append has_email db.users u u.email h.users.emails free
            (λ email e. sym ((list_beq_iff u.email email).0 e));
      roles = All-append (λ (u : User). role_allowed u.role ≡ true) db.users u h.users.roles role;
    };
    problems = h.problems;
    keyed = h.keyed;
    proper =
        All-map (IsProper db.users db.problems) _ db.submissions
          (λ s (user, problem, fits).
            (exists-append (user_is s.user_id) db.users (u ∷ []) user, problem, fits))
          h.proper;
    results = h.results;
  }

  add_problem :
      (p : Problem)
      → p.id ≡ pos db.next_problem
      → exists (has_slug p.slug) db.problems ≡ false
      → IsSound (record db { problems = db.problems ++ p ∷ []; next_problem = suc db.next_problem })
  add_problem p id free = record {
    users = h.users;
    problems = record {
      ids = IsFresh-append (λ (p : Problem). p.id) db.problems p db.next_problem id h.problems.ids;
      slugs =
          unique-append has_slug db.problems p p.slug h.problems.slugs free
            (λ slug e. sym ((list_beq_iff p.slug slug).0 e));
    };
    keyed = h.keyed;
    proper =
        All-map (IsProper db.users db.problems) _ db.submissions
          (λ s (user, problem, fits).
            (user, exists-append (problem_is s.problem_id) db.problems (p ∷ []) problem, fits))
          h.proper;
    results = h.results;
  }

  add_submission :
      (s : Submission)
      → s.id ≡ pos db.next_submission
      → IsProper db.users db.problems s
      → IsSound (record db {
        submissions = db.submissions ++ s ∷ [];
        next_submission = suc db.next_submission;
      })
  add_submission s id proper = record {
    users = h.users;
    problems = h.problems;
    keyed =
        IsFresh-append (λ (s : Submission). s.id) db.submissions s db.next_submission id h.keyed;
    proper = All-append (IsProper db.users db.problems) db.submissions s h.proper proper;
    results = record {
      cases = h.results.cases;
      idxs = h.results.idxs;
      recorded =
          All-map (IsRecorded db.submissions db.test_cases) _ db.results
            (λ r (sub, case_, allowed).
              (exists-append _ db.submissions (s ∷ []) sub, case_, allowed))
            h.results.recorded;
    };
  }

  pub user-IsSound : (email hash role : List ℕ) → IsSound (insert_user email hash role db).1
  unfolding insert_user
  user-IsSound email hash role = elim (Bool-cases (role_allowed role)) [
    | inr e ↦ rw e spend_user
    | inl e ↦ elim (Bool-cases (exists (has_email email) db.users)) [
      | inl k ↦ rw (e, k) spend_user
      | inr k ↦ rw (e, k) (add_user _ refl e k)
    ]
  ]

  pub problem-IsSound :
      (slug title statement : List ℕ) (time memory : ℤ)
      → IsSound (insert_problem slug title statement time memory db).1
  unfolding insert_problem
  problem-IsSound slug title statement time memory =
      elim (Bool-cases (fits_int4 time && fits_int4 memory)) [
        | inr e ↦ rw e h
        | inl e ↦ elim (Bool-cases (exists (has_slug slug) db.problems)) [
          | inl k ↦ rw (e, k) spend_problem
          | inr k ↦ rw (e, k) (add_problem _ refl k)
        ]
      ]

  pub submission-IsSound :
      (u p : ℤ) (language source : List ℕ) (now : ℕ)
      → IsSound (insert_submission u p language source now db).1
  unfolding insert_submission
  submission-IsSound u p language source now =
      elim (Bool-cases (exists (user_is u) db.users && exists (problem_is p) db.problems)) [
        | inr e ↦ rw e spend_submission
        | inl e ↦ rw e (add_submission _ refl (ground (arith, e), ground (arith, e), refl))
      ]
