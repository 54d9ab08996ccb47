-- ===== src/Judge/CompileErrors.antt =====
-- When a run ends at the compiler, and what its owner is told.
use mathlib.Core.Path.{subst}
use go_spoc.Prelude.{
  ℕ, suc, String, ◌≡◌, ◌≢◌, ◌↔◌, ◌⊎◌, refl, ap, ◌∙◌, true, false, List, [], ◌∷◌, ◌++◌, map, take,
  none, some, arith, codes, Bool-cases, Option-cases, inl, inr, if◌then◌else◌,
}
use go_spoc.Prelude.Eq.{◌==◌, string_eq}
use go_spoc.Prelude.Int.{ℤ, pos, int_eq}
use go_spoc.Problem.{Problem}
use go_spoc.TestCase.{TestCase}
use go_spoc.Submission.{Submission}
use go_spoc.Submission.Repository.{set_compile_error, update_compile_error, set_message}
use go_spoc.Db.{update_where}
use go_spoc.Result.{Result, ok, err}
use go_spoc.Runner.Laws.{take_all}
use go_spoc.Sandbox.{Output}
use go_spoc.World.{Env, World, up, exec}
use go_spoc.World.Try.{Try}
use go_spoc.Judge.Classify.{classify, truncate}
use go_spoc.Judge.Languages.{LangConfig, Judge}
use go_spoc.Judge.Report.{Ends, Ran, run_cases-Report}
use go_spoc.Judge.Run.{
  JudgeResult, JudgeError, compile_failed, compile, compile_request, compile_message, run_cases,
}
use text.Mathlib.TextEquality.{eq_iff}

-- At most the first 4096 bytes.
truncate-take : (s : List ℕ) (max : ℕ) → truncate s max ≡ take max s
unfolding truncate
truncate-take s max = ground (arith, take_all max s)

-- The tests never give CE.
classify-not_ce : (out : Output) (expected : List ℕ) → classify out expected ≢ "CE"
unfolding classify
classify-not_ce out expected = ground (
  arith,
  eq_iff "AC" "CE",
  eq_iff "WA" "CE",
  eq_iff "TLE" "CE",
  eq_iff "MLE" "CE",
  eq_iff "RE" "CE",
)

Ends-not_ce : (ran : List Ran) (rest : List TestCase) (v : String) → Ends ran rest v → v ≢ "CE"
Ends-not_ce [] rest v h = ground (arith, h, eq_iff "AC" "CE")
Ends-not_ce ((tc, out) ∷ ran) rest v (inl h) = Ends-not_ce ran rest v h.1
Ends-not_ce ((tc, out) ∷ ran) rest v (inr h) =
    subst (λ u. u ≢ "CE") h.1 (classify-not_ce out tc.expected_output)

message_stored :
    (id : ℤ) (msg : List ℕ) (subs : List Submission)
    → update_where (λ s. s.id == id) (set_message msg) subs
      ≡ map (λ s. if s.id == id then record s { compile_error = some msg } else s) subs
unfolding update_where
message_stored id msg [] = refl
message_stored id msg (s ∷ subs) =
    ap (λ l. (if s.id == id then record s { compile_error = some msg } else s) ∷ l)
      (message_stored id msg subs)

abbrev refused_result : JudgeResult
refused_result = record { verdict = "CE"; runtime_ms = pos 0; memory_kb = pos 0 }

module _ (j : Judge) (id : ℤ) (lang : LangConfig) (dir : List ℕ) (cmd : List (List ℕ)) (env : Env)
    (w : World) (next : Try JudgeError JudgeResult) where
  compile_stops :
      env.sandbox w.calls (compile_request j id lang dir cmd) ≡ none
      → (compile j id lang dir (some cmd) next env w).0 ≡ err compile_failed
  unfolding compile
  compile_stops e = rw e refl

  module _ (out : Output) where
    compile_goes_on :
        env.sandbox w.calls (compile_request j id lang dir cmd) ≡ some out
        → (out.verdict == "OK") ≡ true
        → compile j id lang dir (some cmd) next env w
          ≡ next env (exec (compile_request j id lang dir cmd) env w).1
    unfolding compile
    compile_goes_on e v = rw e (rw v refl)

    compile_refuses :
        env.sandbox w.calls (compile_request j id lang dir cmd) ≡ some out
        → (out.verdict == "OK") ≡ false
        → env.link (suc w.calls) ≡ up
        → let (r, w') = compile j id lang dir (some cmd) next env w in
          (r ≡ ok refused_result)
          × (w'.ran ≡ w.ran ++ compile_request j id lang dir cmd ∷ [])
          × (w'.db ≡ (update_compile_error id (compile_message j id lang dir out) w.db).1)
    unfolding compile set_compile_error
    compile_refuses e v l = (rw e (rw v refl), rw e (rw v (rw l refl)), rw e (rw v (rw l refl)))

    message_told :
        let message = compile_message j id lang dir out in
        ((out.verdict ≡ "TLE") × (message ≡ codes "compilation timed out"))
        ⊎ ((out.verdict ≢ "TLE") × (message ≡ take 4096 out.stderr_excerpt))
    unfolding truncate
    message_told = elim (Bool-cases (out.verdict == "TLE")) [
      | inl t ↦ inl ((eq_iff out.verdict "TLE").0 t, rw t refl)
      | inr t ↦ inr (
        ground (arith, t, eq_iff out.verdict "TLE"),
        rw t (truncate-take out.stderr_excerpt 4096),
      )
    ]

module _ (j : Judge) (id : ℤ) (lang : LangConfig) (dir : List ℕ) (cmd : List (List ℕ)) (env : Env)
    (w : World) where
  -- The compiler ended otherwise than with OK: the sandbox was asked for the compilation alone, and
  -- the submission's owner finds the compiler's message, at most 4096 bytes of it, or that it took
  -- too long.
  pub record RefusedBy (w' : World) : Type 0 where
    pub out : Output
    pub answered : env.sandbox w.calls (compile_request j id lang dir cmd) ≡ some out
    pub not_ok : out.verdict ≢ "OK"
    pub message : List ℕ
    pub told :
        ((out.verdict ≡ "TLE") × (message ≡ codes "compilation timed out"))
        ⊎ ((out.verdict ≢ "TLE") × (message ≡ take 4096 out.stderr_excerpt))
    pub stored : w'.db ≡ record w.db {
      submissions =
          map
            (λ s. if s.id == id then record s { compile_error = some message } else s)
            w.db.submissions;
    }
    pub asked : w'.ran ≡ w.ran ++ compile_request j id lang dir cmd ∷ []

  abbrev pub GivesCe : Result JudgeError JudgeResult → Type 0
  GivesCe r = (x : JudgeResult) × (r ≡ ok x) × (x.verdict ≡ "CE")

  -- What holds of a result and the world behind it.
  abbrev CeIff : Result JudgeError JudgeResult × World → Type 0
  CeIff y = GivesCe y.0 ↔ RefusedBy y.1

  module _ (prob : Problem) (tcs : List TestCase) (rt mem : ℤ) where
    abbrev compilation : Result JudgeError JudgeResult × World
    compilation = compile j id lang dir (some cmd) (run_cases j id lang dir prob tcs rt mem) env w

    abbrev behind : World
    behind = (exec (compile_request j id lang dir cmd) env w).1

    not_ce : (u : World) → GivesCe (run_cases j id lang dir prob tcs rt mem env u).0 → ⊥
    not_ce u (x, e, v) =
        let rep =
          run_cases-Report j id lang dir prob env tcs rt mem u
            (run_cases j id lang dir prob tcs rt mem env u).1 x
            (ap (λ r. (r, (run_cases j id lang dir prob tcs rt mem env u).1)) e) in
        Ends-not_ce rep.ran rep.rest x.verdict rep.ends v

    abbrev tests : Try JudgeError JudgeResult
    tests = run_cases j id lang dir prob tcs rt mem

    broken : env.sandbox w.calls (compile_request j id lang dir cmd) ≡ none → CeIff compilation
    broken e = (
      λ (x, p, v). absurd (cc (p, compile_stops j id lang dir cmd env w tests e)),
      λ r. cc (e, r.answered),
    )

    passed :
        (out : Output)
        → env.sandbox w.calls (compile_request j id lang dir cmd) ≡ some out
        → (out.verdict == "OK") ≡ true
        → CeIff compilation
    passed out e v = (
      λ h.
          let go = ap (λ y. y.0) (compile_goes_on j id lang dir cmd env w tests out e v) in
          elim (not_ce behind (subst GivesCe go h)) [ ],
      λ r.
          let same : r.out ≡ out = cc (e, r.answered) in
          elim (r.not_ok (ap (λ (o : Output). o.verdict) same ∙ (eq_iff out.verdict "OK").0 v)) [ ],
    )

    refused :
        (out : Output)
        → env.sandbox w.calls (compile_request j id lang dir cmd) ≡ some out
        → (out.verdict == "OK") ≡ false
        → env.link (suc w.calls) ≡ up
        → CeIff compilation
    unfolding update_compile_error
    refused out e v l =
        let (result, asked, stored) = compile_refuses j id lang dir cmd env w tests out e v l in
        (
          λ h. record {
            out = out;
            answered = e;
            not_ok = ground (arith, v, eq_iff out.verdict "OK");
            message = compile_message j id lang dir out;
            told = message_told j id lang dir cmd env w tests out;
            stored =
                stored
                ∙ ap (λ l. record w.db { submissions = l })
                    (message_stored id (compile_message j id lang dir out) w.db.submissions);
            asked = asked;
          },
          λ r. (refused_result, result, refl),
        )

    -- The compile step, with the test cases behind it, gives CE exactly when the sandbox answers for
    -- the compiler and its verdict is not OK; then it was asked for the compilation alone, and the
    -- submission's row gets the message: that it timed out if the verdict is TLE, else the first
    -- 4096 bytes of the compiler's. The statement that stores it is taken to go through.
    pub compile_ce_iff :
        env.link (suc w.calls) ≡ up
        → let (r, w') =
            compile j id lang dir (some cmd) (run_cases j id lang dir prob tcs rt mem) env w in
          GivesCe r ↔ RefusedBy w'
    compile_ce_iff l =
        elim (Option-cases (env.sandbox w.calls (compile_request j id lang dir cmd))) [
          | inl e ↦ broken e
          | inr (out, e) ↦ elim (Bool-cases (out.verdict == "OK")) [
            | inl v ↦ passed out e v
            | inr v ↦ refused out e v l
          ]
        ]
