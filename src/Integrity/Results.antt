-- ===== src/Integrity/Results.antt =====
-- The INSERT of a test case's result keeps the tables sound.
use mathlib.Core.Path.{subst}
use go_spoc.Prelude.{
  ◌≡◌, refl, sym, ap₂, Bool, true, false, not, ◌&&◌, [], ◌∷◌, ◌++◌, arith, if◌then◌else◌,
  Bool-cases, inl, inr,
}
use go_spoc.Prelude.Eq.{◌==◌, nat_eq, list_eq}
use go_spoc.Prelude.Int.{ℤ, int_eq, int_beq_iff}
use go_spoc.Submission.{TestResult}
use go_spoc.Submission.Repository.{insert_result, verdict_allowed, same_case, same_idx}
use go_spoc.Result.{ok, err}
use go_spoc.Db.{
  Db, exists, fits_int4, out_of_range, check_violation, unique_violation, foreign_key_violation,
}
use go_spoc.Integrity.{IsSound, IsRecorded, of_case, of_idx}
use go_spoc.Integrity.Tables.{unique-append, All-append}

same_key : {a b : ℤ} (key : ℤ × ℤ) → (a == key.0 && b == key.1) ≡ true → key ≡ (a, b)
same_key {a} {b} (c, d) e =
    ap₂ (λ x y. (x, y)) (sym ((int_beq_iff a c).0 (ground (arith, e))))
      (sym ((int_beq_iff b d).0 (ground (arith, e))))

-- Five guards in a row, of which each but the last returns early.
in_turn :
    {A B : Type 0} (f v c i r : Bool) (y x : B) (a b d e k l : A)
    → let answer : A × B =
        if not f
        then (a, y)
        else if not v
        then (b, y)
        else if c
        then (d, y)
        else if i
        then (e, y)
        else if r
        then (k, x)
        else (l, y) in
      answer.1 ≡ (if f && (v && (not c && (not i && r))) then x else y)
in_turn false v c i r y x a b d e k l = refl
in_turn true false c i r y x a b d e k l = refl
in_turn true true true i r y x a b d e k l = refl
in_turn true true false true r y x a b d e k l = refl
in_turn true true false false true y x a b d e k l = refl
in_turn true true false false false y x a b d e k l = refl

module _ (db : Db) (h : IsSound db) where
  add_result :
      (r : TestResult)
      → exists (same_case r) db.results ≡ false
      → exists (same_idx r) db.results ≡ false
      → IsRecorded db.submissions db.test_cases r
      → IsSound (record db { results = db.results ++ r ∷ [] })
  add_result r new_case new_idx refs = record {
    users = h.users;
    problems = h.problems;
    keyed = h.keyed;
    proper = h.proper;
    results = record {
      cases =
          unique-append of_case db.results r (r.submission_id, r.test_case_id) h.results.cases
            new_case same_key;
      idxs =
          unique-append of_idx db.results r (r.submission_id, r.idx) h.results.idxs new_idx
            same_key;
      recorded =
          All-append (IsRecorded db.submissions db.test_cases) db.results r h.results.recorded refs;
    };
  }

  abbrev fits : TestResult → Bool
  fits r = fits_int4 r.idx && fits_int4 r.runtime_ms && fits_int4 r.memory_kb

  abbrev refers : TestResult → Bool
  refers r =
      exists (λ s. s.id == r.submission_id) db.submissions
      && exists (λ t. t.id == r.test_case_id) db.test_cases

  -- What the row's constraints ask for.
  abbrev insertable : TestResult → Bool
  insertable r =
      fits r
      && (verdict_allowed r.verdict
          && (not (exists (same_case r) db.results)
              && (not (exists (same_idx r) db.results) && refers r)))

  result_db :
      (r : TestResult)
      → (insert_result r db).1
        ≡ (if insertable r then record db { results = db.results ++ r ∷ [] } else db)
  unfolding insert_result
  result_db r =
      in_turn (fits r) (verdict_allowed r.verdict) (exists (same_case r) db.results)
        (exists (same_idx r) db.results) (refers r) db _ (err out_of_range) (err check_violation)
        (ok tt) (err unique_violation) (ok tt) (err foreign_key_violation)

  pub result-IsSound : (r : TestResult) → IsSound (insert_result r db).1
  result-IsSound r = subst IsSound (sym (result_db r)) (elim (Bool-cases (insertable r)) [
    | inr e ↦ rw e h
    | inl e ↦ rw e (
        add_result r (ground (arith, e)) (ground (arith, e))
          (ground (arith, e), ground (arith, e), ground (arith, e)))
  ])
