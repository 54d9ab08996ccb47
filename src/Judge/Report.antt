-- ===== src/Judge/Report.antt =====
-- What a finished loop over the test cases tells: which cases ran, and where its result comes from.
use mathlib.Core.Path.{subst, subst₂}
use mathlib.Core.List.{append_assoc, append-nil}
use go_spoc.Prelude.{
  ℕ, suc, some, String, ◌≡◌, ◌≢◌, ◌⊎◌, refl, sym, ap, ◌∙◌, false, List, [], ◌∷◌, ◌++◌, map, arith,
  Bool-cases, Option-cases, inl, inr, All,
}
use go_spoc.Prelude.Eq.{◌==◌, string_eq}
use go_spoc.Prelude.Int.{ℤ, ◌≤ℤ◌}
use go_spoc.Problem.{Problem}
use go_spoc.TestCase.{TestCase}
use go_spoc.Result.{Result, ok}
use go_spoc.Sandbox.{ExecRequest, Output}
use go_spoc.World.{Env, World}
use go_spoc.Judge.Classify.{classify}
use go_spoc.Judge.Languages.{LangConfig, Judge}
use go_spoc.Judge.Run.{JudgeResult, JudgeError, larger, run_request, run_cases}
use go_spoc.Judge.RunSteps.{after, after_calls, after_ran, step_broken, step_stop, step_go}
use text.Mathlib.TextEquality.{eq_iff}

abbrev pub Ran : Type 0
Ran = TestCase × Output

abbrev pub verdict_of : Ran → String
verdict_of (tc, out) = classify out tc.expected_output

-- All cases but the last that ran were accepted; the last gives the verdict, or all were run and
-- the verdict is AC.
abbrev pub Ends : List Ran → List TestCase → String → Type 0
Ends [] rest v = (rest ≡ []) × (v ≡ "AC")
Ends (d ∷ ds) rest v =
    ((verdict_of d ≡ "AC") × Ends ds rest v) ⊎ ((v ≢ "AC") × (verdict_of d ≡ v) × (ds ≡ []))

abbrev pub Reached : (Output → ℤ) → ℤ → ℤ → List Ran → Type 0
Reached f m base [] = m ≡ base
Reached f m base (d ∷ ds) = (m ≡ f d.1) ⊎ Reached f m base ds

-- `m` is the largest of `base` and the measurements.
abbrev pub IsLargest : (Output → ℤ) → ℤ → ℤ → List Ran → Type 0
IsLargest f m base ds = (base ≤ℤ m) × All (λ d. f d.1 ≤ℤ m) ds × Reached f m base ds

module _ (f : Output → ℤ) (m base : ℤ) where
  Reached-larger :
      (a : ℤ) (ds : List Ran) → Reached f m (larger a base) ds → (m ≡ a) ⊎ Reached f m base ds
  Reached-larger a [] h = ground arith
  Reached-larger a (d ∷ ds) h = ground (arith, Reached-larger a ds)

  IsLargest-larger :
      (tc : TestCase) (out : Output) (ds : List Ran)
      → IsLargest f m (larger (f out) base) ds
      → IsLargest f m base ((tc, out) ∷ ds)
  IsLargest-larger tc out ds (low, all, top) =
      (ground arith, (ground arith, all), Reached-larger (f out) ds top)

-- larger of two: what one measurement leaves.
larger-IsLargest :
    (f : Output → ℤ) (base : ℤ) (tc : TestCase) (out : Output)
    → IsLargest f (larger (f out) base) base ((tc, out) ∷ [])
larger-IsLargest f base tc out = (ground arith, (ground arith, tt), ground arith)

module _ (j : Judge) (submission_id : ℤ) (lang : LangConfig) (dir : List ℕ) (prob : Problem)
    (env : Env) where
  abbrev pub request_of : Ran → ExecRequest
  request_of (tc, out) = run_request j submission_id lang dir prob tc

  -- The outputs are what the sandbox answered, from the n-th call on. A case takes two calls: the
  -- sandbox, and the statement that saves its result.
  abbrev pub Answered : ℕ → List Ran → Type 0
  Answered n [] = Unit
  Answered n (d ∷ ds) = (env.sandbox n (request_of d) ≡ some d.1) × Answered (suc (suc n)) ds

  -- The cases that ran are the first ones, in their order; the sandbox was asked for these and no
  -- more; the verdict is the first that is not AC; the times are the largest measured.
  pub record Report (tcs : List TestCase) (rt mem : ℤ) (w : World) (x : JudgeResult) (w' : World)
      : Type 0 where
    pub ran : List Ran
    pub rest : List TestCase
    pub split : tcs ≡ map (λ d. d.0) ran ++ rest
    pub answered : Answered w.calls ran
    pub ends : Ends ran rest x.verdict
    pub asked : w'.ran ≡ w.ran ++ map request_of ran
    pub runtime : IsLargest (λ o. o.runtime_ms) x.runtime_ms rt ran
    pub memory : IsLargest (λ o. o.memory_kb) x.memory_kb mem ran

  go_on-Report :
      (tc : TestCase) (tcs : List TestCase) (rt mem : ℤ) (w w' : World) (x : JudgeResult)
      (out : Output)
      → env.sandbox w.calls (run_request j submission_id lang dir prob tc) ≡ some out
      → classify out tc.expected_output ≡ "AC"
      → Report tcs
          (larger out.runtime_ms rt)
          (larger out.memory_kb mem)
          (after j submission_id lang dir prob env tc tcs rt mem w out)
          x
          w'
      → Report (tc ∷ tcs) rt mem w x w'
  go_on-Report tc tcs rt mem w w' x out e v r = record {
    ran = (tc, out) ∷ r.ran;
    rest = r.rest;
    split = ap (λ l. tc ∷ l) r.split;
    answered = (
      e,
      subst (λ n. Answered n r.ran)
          (after_calls j submission_id lang dir prob env tc tcs rt mem w out) r.answered,
    );
    ends = inl (v, r.ends);
    asked =
        r.asked
        ∙ ap (λ l. l ++ map request_of r.ran)
            (after_ran j submission_id lang dir prob env tc tcs rt mem w out)
        ∙ append_assoc w.ran _ _;
    runtime = IsLargest-larger (λ o. o.runtime_ms) x.runtime_ms rt tc out r.ran r.runtime;
    memory = IsLargest-larger (λ o. o.memory_kb) x.memory_kb mem tc out r.ran r.memory;
  }

  stop-Report :
      (tc : TestCase) (tcs : List TestCase) (rt mem : ℤ) (w : World) (out : Output)
      → env.sandbox w.calls (run_request j submission_id lang dir prob tc) ≡ some out
      → (classify out tc.expected_output == "AC") ≡ false
      → Report
          (tc ∷ tcs)
          rt
          mem
          w
          (record {
            verdict = classify out tc.expected_output;
            runtime_ms = larger out.runtime_ms rt;
            memory_kb = larger out.memory_kb mem;
          })
          (after j submission_id lang dir prob env tc tcs rt mem w out)
  stop-Report tc tcs rt mem w out e v = record {
    ran = (tc, out) ∷ [];
    rest = tcs;
    split = refl;
    answered = (e, tt);
    ends = inr (ground (arith, eq_iff (classify out tc.expected_output) "AC"), refl, refl);
    asked = after_ran j submission_id lang dir prob env tc tcs rt mem w out;
    runtime = larger-IsLargest (λ o. o.runtime_ms) rt tc out;
    memory = larger-IsLargest (λ o. o.memory_kb) mem tc out;
  }

  nil-Report :
      (rt mem : ℤ) (w : World)
      → Report [] rt mem w (record { verdict = "AC"; runtime_ms = rt; memory_kb = mem }) w
  nil-Report rt mem w = record {
    ran = [];
    rest = [];
    split = refl;
    answered = tt;
    ends = (refl, refl);
    asked = sym (append-nil w.ran);
    runtime = (omega arith, tt, refl);
    memory = (omega arith, tt, refl);
  }

  carry :
      {tcs : List TestCase} {rt mem : ℤ} {w w' w'' : World} {x y : JudgeResult}
      → ◌≡◌ {A = Result JudgeError JudgeResult × World} (ok y, w'') (ok x, w')
      → Report tcs rt mem w y w''
      → Report tcs rt mem w x w'
  carry {tcs} {rt} {mem} {w} h r = subst₂ (Report tcs rt mem w) (cc) (ap (λ t. t.1) h) r

  -- A loop that returns a result has run the test cases in order up to the first that was not
  -- accepted by what the sandbox answered for it, asked the sandbox for these and no more, and
  -- reports that case's verdict, or AC after all; its time and memory are the largest of the
  -- sandbox's answers, or what it started from.
  pub run_cases-Report :
      (tcs : List TestCase) (rt mem : ℤ) (w w' : World) (x : JudgeResult)
      → run_cases j submission_id lang dir prob tcs rt mem env w ≡ (ok x, w')
      → Report tcs rt mem w x w'
  unfolding run_cases
  run_cases-Report [] rt mem w w' x h = carry h (nil-Report rt mem w)
  run_cases-Report (tc ∷ tcs) rt mem w w' x h =
      elim (Option-cases (env.sandbox w.calls (run_request j submission_id lang dir prob tc))) [
        | inl e ↦
            cc (step_broken j submission_id lang dir prob env tc tcs rt mem w e, ap (λ t. t.0) h)
        | inr (out, e) ↦ elim (Bool-cases (classify out tc.expected_output == "AC")) [
          | inl v ↦ go_on-Report tc tcs rt mem w w' x out e ((eq_iff _ "AC").0 v) (
              run_cases-Report tcs _ _ _ w' x
                (rw (step_go j submission_id lang dir prob env tc tcs rt mem w out e v) at h))
          | inr v ↦
              carry (rw (step_stop j submission_id lang dir prob env tc tcs rt mem w out e v) at h)
                (stop-Report tc tcs rt mem w out e v)
        ]
      ]
