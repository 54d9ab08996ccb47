-- ===== src/Sandbox/Docker/Verdict.antt =====
-- A submission's run through the runner, the container and the judge: when it is accepted.
use text.Mathlib.TextEquality.{eq_iff}
use mathlib.Core.Path.{subst}
use go_spoc.Prelude.{
  ℕ, ◌-◌, ◌≤◌, ◌≡◌, ◌↔◌, refl, sym, ap, ◌∙◌, Bool, false, List, length, take, ltb, Bool-cases, ◌⊎◌,
  inl, inr, arith, All,
}
use go_spoc.Prelude.Int.{ℤ, pos, pos_part, ◌≤ℤ◌, ◌<ℤ◌, wrap_int64, ◌*ℤ◌, ltb_ℤ, int_eq, int_beq_iff}
use go_spoc.Runner.{RunResult, Ended, ended, run, rss_of, exit_code_of, verdict_of, stdout_writer}
use go_spoc.Runner.Laws.{whole, concat, NonEmpty, write_all_kept, write_all_truncated, take_all}
use go_spoc.Judge.Classify.{classify}
use go_spoc.Judge.Accepts.{classify_ac_iff}
use go_spoc.Judge.SameLines.{SameLines}
use go_spoc.Sandbox.{Output}
use go_spoc.Sandbox.Docker.{RunnerResult, output_of}

-- The fields of result.json that the sandbox reads. A text that is no UTF-8 comes back from JSON
-- with its bad bytes replaced, which is `to_valid`; the other fields come back as they were.
abbrev pub as_read : (List ℕ → List ℕ) → RunResult → RunnerResult
as_read to_valid r = record {
  verdict = r.verdict;
  runtime_ms = r.runtime_ms;
  memory_kb = r.memory_kb;
  stderr_excerpt = to_valid r.stderr_excerpt;
  output_truncated = r.output_truncated;
}

-- What the judge is given of a process that ended.
abbrev pub seen : (List ℕ → List ℕ) → ℤ → ℤ → Ended → Output
seen to_valid mem_kb output_kb p =
    let (r, file) = run whole mem_kb output_kb (ended p) in output_of (as_read to_valid r) file

abbrev pub output_limit : ℤ → ℕ
output_limit output_kb = pos_part (wrap_int64 (output_kb *ℤ pos 1024))

pub record Passed (mem_kb output_kb : ℤ) (p : Ended) (expected : List ℕ) : Type 0 where
  pub in_time : p.timed_out ≡ false
  pub in_memory : (mem_kb ≤ℤ pos 0) ⊎ (rss_of p.max_rss_kb <ℤ mem_kb)
  pub clean_exit : exit_code_of p.status ≡ pos 0
  pub in_output : length (concat p.stdout) ≤ output_limit output_kb
  pub lines : SameLines (concat p.stdout) expected

verdict_of_ok_iff :
    (late : Bool) (mem_kb rss code : ℤ)
    → (verdict_of late mem_kb rss code ≡ "OK")
      ↔ ((late ≡ false) × ((mem_kb ≤ℤ pos 0) ⊎ (rss <ℤ mem_kb)) × (code ≡ pos 0))
unfolding verdict_of
verdict_of_ok_iff late mem_kb rss code = (
  λ h. (
    ground (arith, h, eq_iff "TLE" "OK"),
    elim (Bool-cases (ltb_ℤ (pos 0) mem_kb)) [
      | inl e ↦ inr (ground (arith, h, e, eq_iff "TLE" "OK", eq_iff "MLE" "OK"))
      | inr e ↦ inl (ground (arith, e))
    ],
    ground (
      arith,
      h,
      eq_iff "TLE" "OK",
      eq_iff "MLE" "OK",
      eq_iff "RE" "OK",
      int_beq_iff code (pos 0),
    ),
  ),
  λ h. ground (arith, h.0, h.1, h.2, int_beq_iff code (pos 0)),
)

module _ (to_valid : List ℕ → List ℕ) (mem_kb output_kb : ℤ) (p : Ended)
    (chunks : All NonEmpty p.stdout) where
  all_room : output_limit output_kb - 0 ≡ output_limit output_kb
  all_room = omega arith

  seen_truncated :
      (seen to_valid mem_kb output_kb p).output_truncated
      ≡ ltb (output_limit output_kb) (length (concat p.stdout))
  unfolding run
  seen_truncated =
      write_all_truncated (stdout_writer output_kb) p.stdout chunks
      ∙ ap (λ n. ltb n (length (concat p.stdout))) all_room

  seen_stdout :
      (seen to_valid mem_kb output_kb p).stdout ≡ take (output_limit output_kb) (concat p.stdout)
  unfolding run
  seen_stdout =
      write_all_kept (stdout_writer output_kb) p.stdout chunks
      ∙ ap (λ n. take n (concat p.stdout)) all_room

  seen_verdict :
      (seen to_valid mem_kb output_kb p).verdict
      ≡ verdict_of p.timed_out mem_kb (rss_of p.max_rss_kb) (exit_code_of p.status)
  unfolding run
  seen_verdict = refl

  -- A program is accepted exactly when it ended in time, within its memory and with exit code 0,
  -- and all of its output is within the limit and agrees with the expected one line by line. Its
  -- chunks of output are not empty, and the disk takes them as a whole.
  pub seen_ac_iff :
      (expected : List ℕ)
      → (classify (seen to_valid mem_kb output_kb p) expected ≡ "AC")
        ↔ Passed mem_kb output_kb p expected
  seen_ac_iff expected =
      let (to, from) = classify_ac_iff (seen to_valid mem_kb output_kb p) expected in
      let (ok_to, ok_from) =
        verdict_of_ok_iff p.timed_out mem_kb (rss_of p.max_rss_kb) (exit_code_of p.status) in
      let kept : length (concat p.stdout) ≤ output_limit output_kb
          → (seen to_valid mem_kb output_kb p).stdout ≡ concat p.stdout =
        λ h. seen_stdout ∙ take_all (output_limit output_kb) (concat p.stdout) h in
      (
        λ h.
            let (v, t, l) = to h in
            let (in_time, in_memory, clean_exit) = ok_to (sym seen_verdict ∙ v) in
            let fits : length (concat p.stdout) ≤ output_limit output_kb =
              ground (arith, sym seen_truncated ∙ t) in
            record {
              in_time = in_time;
              in_memory = in_memory;
              clean_exit = clean_exit;
              in_output = fits;
              lines = subst (λ s. SameLines s expected) (kept fits) l;
            },
        λ ps. from (
          seen_verdict ∙ ok_from (ps.in_time, ps.in_memory, ps.clean_exit),
          seen_truncated ∙ ground (arith, ps.in_output),
          subst (λ s. SameLines s expected) (sym (kept ps.in_output)) ps.lines,
        ),
      )
