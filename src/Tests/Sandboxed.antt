-- ===== src/Tests/Sandboxed.antt =====
-- A process in its container.
use go_spoc.Prelude.{◌≡◌, ◌↔◌, refl, [], ◌∷◌, false, some, codes, arith}
use go_spoc.Prelude.Int.{pos, wrap_int64, ◌*ℤ◌}
use go_spoc.Prelude.Eq.{list_beq}
use go_spoc.Runner.{Ended, exited, run, verdict_of}
use go_spoc.Runner.Capped.{write_all, write, append_all, append}
use go_spoc.Judge.Classify.{classify}
use go_spoc.Judge.Normalize.{normalize, replace_crlf}
use go_spoc.Strings.{trim_right, split, join}
use go_spoc.Prelude.{◌-◌, ◌≤◌, length, take}
use go_spoc.Prelude.Int.{pos_part}
use go_spoc.Runner.{ended, stderr_excerpt_bytes}
use go_spoc.Runner.Capped.{Sink}
use go_spoc.Runner.Laws.{concat}
use go_spoc.Runner.Bounds.{run_bounds}
use mathlib.Core.List.{Nodup-cons, Nodup-nil, not-mem-nil, eq-or-mem_of_mem-cons}
use mathlib.Core.Logic.Or
use mathlib.Core.HLevel.{⊥_prop}
use mathlib.Core.List.Permᴰ.{Permᴰ}
use go_spoc.Prelude.{List, ℕ}
use go_spoc.Sandbox.{ExecRequest}
use go_spoc.Sandbox.Docker.{sorted_entries, insert_entry, string_lt, docker_args}
use go_spoc.Sandbox.Docker.Arguments.{docker_args-Perm}
use go_spoc.Sandbox.Docker.Verdict.{seen, Passed, seen_ac_iff}

abbrev chatty : Ended
chatty = record {
  timed_out = false;
  elapsed_ms = pos 12;
  max_rss_kb = some (pos 900);
  status = some (exited (pos 0));
  stdout = codes "3" ∷ codes "\n" ∷ [];
  stderr = [];
}

seen_ac_iff_example :
    (classify (seen (λ t. t) (pos 65536) (pos 1) chatty) (codes "3") ≡ "AC")
    ↔ Passed (pos 65536) (pos 1) chatty (codes "3")
seen_ac_iff_example =
    seen_ac_iff (λ t. t) (pos 65536) (pos 1) chatty (ground arith, (ground arith, tt)) (codes "3")

chatty_passes : classify (seen (λ t. t) (pos 65536) (pos 1) chatty) (codes "3") ≡ "AC"
unfolding classify run verdict_of write_all write append_all append wrap_int64 ◌*ℤ◌ normalize
    replace_crlf trim_right split join list_beq
chatty_passes = refl

entries_are_sorted :
    sorted_entries ((codes "b", []) ∷ (codes "ab", []) ∷ (codes "a", []) ∷ [])
    ≡ (codes "a", []) ∷ (codes "ab", []) ∷ (codes "b", []) ∷ []
unfolding sorted_entries insert_entry string_lt
entries_are_sorted = refl

-- A disk that is full after four bytes.
abbrev small_disk : Sink
small_disk held chunk = 4 - length held

abbrev noisy : Ended
noisy = record chatty {
  stdout = codes "123" ∷ codes "456" ∷ [];
  stderr = codes "no" ∷ codes "pe" ∷ [];
}

run_bounds_example :
    let (res, file) = run small_disk (pos 65536) (pos 1) (ended noisy) in
    length file ≤ pos_part (wrap_int64 (pos 1 *ℤ pos 1024))
    × res.stderr_excerpt ≡ take stderr_excerpt_bytes (concat noisy.stderr)
run_bounds_example = run_bounds small_disk (pos 65536) (pos 1) noisy

noisy_file : (run small_disk (pos 65536) (pos 1) (ended noisy)).1 ≡ codes "1234"
unfolding run write_all write append_all append wrap_int64 ◌*ℤ◌
noisy_file = refl

-- Two variables, in either order.
abbrev with_env : List (List ℕ × List ℕ) → ExecRequest
with_env env = record {
  image = codes "py";
  cmd = codes "python3" ∷ [];
  input = [];
  host_dir = codes "/tmp/a";
  env = env;
  wall_ms = pos 1000;
  mem_kb = pos 65536;
  output_kb = pos 1024;
}

docker_args-Perm_example :
    docker_args (with_env ((codes "HOME", codes "/w") ∷ (codes "GOCACHE", codes "/c") ∷ []))
    ≡ docker_args (with_env ((codes "GOCACHE", codes "/c") ∷ (codes "HOME", codes "/w") ∷ []))
docker_args-Perm_example =
    docker_args-Perm (with_env ((codes "HOME", codes "/w") ∷ (codes "GOCACHE", codes "/c") ∷ []))
      ((codes "GOCACHE", codes "/c") ∷ (codes "HOME", codes "/w") ∷ []) ∣ Permᴰ.swap refl refl ∣₁
      (Nodup-cons.1 (
        λ m. Or.elim ⊥_prop (eq-or-mem_of_mem-cons m) (λ e. ground (arith, e)) not-mem-nil,
        Nodup-cons.1 (not-mem-nil, Nodup-nil),
      ))
