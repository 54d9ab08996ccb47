-- ===== src/Runner/Capped.antt =====
-- sandbox/runner/main.go: `cappedWriter` and `cappedBuffer`.
use go_spoc.Prelude.{
  ℕ, ◌+◌, ◌-◌, min, Bool, true, false, List, [], ◌∷◌, ◌++◌, if◌then◌else◌, length, take, ltb,
}
use go_spoc.Prelude.Eq.{◌==◌, nat_eq}
use go_spoc.Prelude.Int.{ℤ, pos_part}

-- How many bytes of a chunk the output file takes, behind what it holds; `Write` reports an error
-- if these are not all.
abbrev pub Sink : Type 0
Sink = List ℕ → List ℕ → ℕ

-- `file` is what the underlying writer has taken.
pub record CappedWriter : Type 0 where
  pub limit : ℤ
  pub written : ℕ
  pub truncated : Bool
  pub file : List ℕ

-- What a Write returns: a count, and whether there is an error.
pub record Wrote : Type 0 where
  pub count : ℕ
  pub failed : Bool

-- `c.limit - c.written`, where that is positive, or 0.
abbrev pub room : CappedWriter → ℕ
room c = pos_part c.limit - c.written

-- `c.w.Write(p)`, counted.
abbrev pub pass_on : Sink → CappedWriter → List ℕ → Wrote × CappedWriter
pass_on sink c p =
    let n = min (sink c.file p) (length p) in
    (
      record { count = n; failed = ltb n (length p) },
      record c { written = c.written + n; file = c.file ++ take n p },
    )

unfoldable pub write : Sink → CappedWriter → List ℕ → Wrote × CappedWriter
write sink c p =
    if room c == 0
    then (record { count = length p; failed = false }, record c { truncated = true })
    else if ltb (room c) (length p)
    then (let (wrote, c') = pass_on sink (record c { truncated = true }) (take (room c) p) in
        (record wrote { count = length p }, c'))
    else pass_on sink c p

-- io.Copy, as os/exec runs it: it stops at an error.
unfoldable pub write_all : Sink → CappedWriter → List (List ℕ) → CappedWriter
unfolding write
write_all sink c [] = c
write_all sink c (p ∷ chunks) =
    let (wrote, c') = write sink c p in
    let rest = write_all sink c' chunks in if wrote.failed then c' else rest

pub record CappedBuffer : Type 0 where
  pub limit : ℕ
  pub buf : List ℕ

unfoldable pub append : CappedBuffer → List ℕ → CappedBuffer
append c p =
    let room = c.limit - length c.buf in
    if ltb 0 room then record c { buf = c.buf ++ take (min room (length p)) p } else c

unfoldable pub append_all : CappedBuffer → List (List ℕ) → CappedBuffer
unfolding append
append_all c [] = c
append_all c (p ∷ chunks) = append_all (append c p) chunks
