-- ===== src/Judge/Accepts.antt =====
-- When a run is accepted, and when a submission is.
use go_spoc.Prelude.{
  ℕ, suc, String, ◌≡◌, ◌↔◌, refl, false, List, [], ◌∷◌, some, arith, Bool-cases, Option-cases, inl,
  inr,
}
use go_spoc.Prelude.Eq.{◌==◌, string_eq, list_eq, list_beq_iff, nat_eq}
use go_spoc.Prelude.Int.{ℤ}
use go_spoc.Problem.{Problem}
use go_spoc.TestCase.{TestCase}
use go_spoc.Result.{Result, ok}
use go_spoc.Sandbox.{Output}
use go_spoc.World.{Env, World}
use go_spoc.Judge.Normalize.{normalize}
use go_spoc.Judge.SameLines.{SameLines, normalize_eq_iff}
use go_spoc.Judge.Classify.{classify}
use go_spoc.Judge.Languages.{LangConfig, Judge}
use go_spoc.Judge.Run.{JudgeResult, JudgeError, run_request, run_cases}
use go_spoc.Judge.RunSteps.{after, after_calls, step_broken, step_stop, step_go}
use text.Mathlib.TextEquality.{eq_iff}

-- The run ended by itself with status 0, within its limits; its output was captured whole; and the
-- output agrees with the expected one line by line.
abbrev pub Accepted : Output → List ℕ → Type 0
Accepted out expected =
    (out.verdict ≡ "OK") × (out.output_truncated ≡ false) × SameLines out.stdout expected

classify_ac :
    (out : Output) (expected : List ℕ)
    → (classify out expected ≡ "AC") ↔ (
        (out.verdict ≡ "OK")
        × (out.output_truncated ≡ false)
        × (normalize out.stdout ≡ normalize expected))
unfolding classify
classify_ac out expected = ground (
  arith,
  eq_iff out.verdict "OK",
  eq_iff out.verdict "TLE",
  eq_iff out.verdict "MLE",
  list_beq_iff (normalize out.stdout) (normalize expected),
  eq_iff "WA" "AC",
  eq_iff "TLE" "AC",
  eq_iff "MLE" "AC",
  eq_iff "RE" "AC",
)

-- A run is given AC exactly when it is accepted in this sense.
pub classify_ac_iff :
    (out : Output) (expected : List ℕ) → (classify out expected ≡ "AC") ↔ Accepted out expected
classify_ac_iff out expected =
    let (to, from) = classify_ac out expected in
    let same = normalize_eq_iff out.stdout expected in
    (λ e. let (a, b, c) = to e in (a, b, same.0 c), λ h. from (h.0, h.1, same.1 h.2))

module _ (j : Judge) (submission_id : ℤ) (lang : LangConfig) (dir : List ℕ) (prob : Problem)
    (env : Env) where
  -- Each test case, run in its turn from the n-th call on, ends accepted. A case takes two calls:
  -- the sandbox, and the statement that saves its result.
  abbrev pub AllAccepted : ℕ → List TestCase → Type 0
  AllAccepted n [] = Unit
  AllAccepted n (tc ∷ tcs) =
      (out : Output) × (env.sandbox n (run_request j submission_id lang dir prob tc) ≡ some out)
      × Accepted out tc.expected_output
      × AllAccepted (suc (suc n)) tcs

  abbrev pub EndsWith : Result JudgeError JudgeResult → String → Type 0
  EndsWith r v = (x : JudgeResult) × (r ≡ ok x) × (x.verdict ≡ v)

  ac_sound :
      (tcs : List TestCase) (rt mem : ℤ) (w : World)
      → EndsWith (run_cases j submission_id lang dir prob tcs rt mem env w).0 "AC"
      → AllAccepted w.calls tcs
  ac_sound [] rt mem w h = tt
  ac_sound (tc ∷ tcs) rt mem w h =
      elim (Option-cases (env.sandbox w.calls (run_request j submission_id lang dir prob tc))) [
        | inl e ↦ cc (step_broken j submission_id lang dir prob env tc tcs rt mem w e, h.1)
        | inr (out, e) ↦ elim (Bool-cases (classify out tc.expected_output == "AC")) [
          | inl v ↦
              let go = step_go j submission_id lang dir prob env tc tcs rt mem w out e v in
              let later =
                ac_sound tcs _ _ (after j submission_id lang dir prob env tc tcs rt mem w out)
                  (rw go at h) in
              (
                out,
                e,
                (classify_ac_iff out tc.expected_output).0 ((eq_iff _ "AC").0 v),
                rw (after_calls j submission_id lang dir prob env tc tcs rt mem w out) at later,
              )
          | inr v ↦
              let stop = step_stop j submission_id lang dir prob env tc tcs rt mem w out e v in
              let h' = rw stop at h in
              absurd (ground (arith, eq_iff (classify out tc.expected_output) "AC", h'.1, h'.2))
        ]
      ]

  ac_complete :
      (tcs : List TestCase) (rt mem : ℤ) (w : World)
      → AllAccepted w.calls tcs
      → EndsWith (run_cases j submission_id lang dir prob tcs rt mem env w).0 "AC"
  unfolding run_cases
  ac_complete [] rt mem w h = (_, refl, refl)
  ac_complete (tc ∷ tcs) rt mem w (out, e, a, h) =
      let v = (eq_iff _ "AC").1 ((classify_ac_iff out tc.expected_output).1 a) in
      rw (step_go j submission_id lang dir prob env tc tcs rt mem w out e v) (
        ac_complete tcs _ _ (after j submission_id lang dir prob env tc tcs rt mem w out)
          (rw (after_calls j submission_id lang dir prob env tc tcs rt mem w out) h))

  -- The loop gives AC exactly when every test case was run and accepted.
  pub run_cases_ac_iff :
      (tcs : List TestCase) (rt mem : ℤ) (w : World)
      → EndsWith (run_cases j submission_id lang dir prob tcs rt mem env w).0 "AC"
        ↔ AllAccepted w.calls tcs
  run_cases_ac_iff tcs rt mem w = (ac_sound tcs rt mem w, ac_complete tcs rt mem w)
