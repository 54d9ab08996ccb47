-- ===== src/Runner/Bounds.antt =====
-- How much the runner keeps of what a process writes.
use mathlib.Core.List.{append-nil, append_assoc}
use go_spoc.Prelude.{
  ℕ, ◌-◌, ◌≤◌, min, ◌≡◌, refl, sym, ap, ◌∙◌, true, List, [], ◌∷◌, ◌++◌, length, take, ltb, leb,
  length-append, length-take, Bool-cases, inl, inr, arith,
}
use go_spoc.Prelude.Eq.{nat_eq}
use go_spoc.Prelude.Int.{ℤ, pos, pos_part, wrap_int64, ◌*ℤ◌}
use go_spoc.Runner.{Ended, ended, run, stdout_writer, stderr_excerpt_bytes}
use go_spoc.Runner.Capped.{
  Sink, CappedWriter, CappedBuffer, room, pass_on, write, write_all, append, append_all,
}
use go_spoc.Runner.Laws.{IsWriter, concat, take_all, take_nil, take-append_past, take-append_front}

pass_on-IsWriter :
    (sink : Sink) (c : CappedWriter) (p : List ℕ)
    → IsWriter c
    → length p ≤ room c
    → IsWriter (pass_on sink c p).1
pass_on-IsWriter sink c p h fits =
    let n = min (sink c.file p) (length p) in
    ground (arith, length-append c.file (take n p), length-take n p)

write-IsWriter :
    (sink : Sink) (c : CappedWriter) (p : List ℕ) → IsWriter c → IsWriter (write sink c p).1
unfolding write
write-IsWriter sink c p h = ground (
  arith,
  length-take (room c) p,
  pass_on-IsWriter sink c p h,
  pass_on-IsWriter sink (record c { truncated = true }) (take (room c) p) h,
)

write_limit : (sink : Sink) (c : CappedWriter) (p : List ℕ) → (write sink c p).1.limit ≡ c.limit
unfolding write
write_limit sink c p = ground arith

write_all_limit :
    (sink : Sink) (c : CappedWriter) (chunks : List (List ℕ))
    → (write_all sink c chunks).limit ≡ c.limit
unfolding write_all
write_all_limit sink c [] = refl
write_all_limit sink c (p ∷ chunks) =
    ground (arith, write_limit sink c p, write_all_limit sink (write sink c p).1 chunks)

write_all-IsWriter :
    (sink : Sink) (c : CappedWriter) (chunks : List (List ℕ))
    → IsWriter c
    → IsWriter (write_all sink c chunks)
unfolding write_all
write_all-IsWriter sink c [] h = h
write_all-IsWriter sink c (p ∷ chunks) h = elim (Bool-cases (write sink c p).0.failed) [
  | inl e ↦ rw e (write-IsWriter sink c p h)
  | inr e ↦ rw e (write_all-IsWriter sink (write sink c p).1 chunks (write-IsWriter sink c p h))
]

-- What is left of the room behind one text is for the next.
take-append :
    {A : Type 0} (n : ℕ) (xs ys : List A)
    → take (min n (length xs)) xs ++ take (n - length xs) ys ≡ take n (xs ++ ys)
take-append n xs ys = elim (Bool-cases (leb (length xs) n)) [
  | inl e ↦
      let h : length xs ≤ n = ground (arith, e) in
      let all : take (min n (length xs)) xs ≡ xs = take_all _ xs (omega (arith, h)) in
      rw all (sym (take-append_past n xs ys h))
  | inr e ↦
      let h : n ≤ length xs = ground (arith, e) in
      let room : n - length xs ≡ 0 = omega (arith, h) in
      let short : min n (length xs) ≡ n = omega (arith, h) in
      rw (room, short) (append-nil (take n xs) ∙ sym (take-append_front n xs ys h))
]

-- One chunk behind what the buffer holds.
append_kept :
    (c : CappedBuffer) (p rest : List ℕ)
    → (append c p).buf ++ take (c.limit - length (append c p).buf) rest
      ≡ c.buf ++ take (c.limit - length c.buf) (p ++ rest)
unfolding append
append_kept c p rest = elim (Bool-cases (ltb 0 (c.limit - length c.buf))) [
  | inl e ↦ rw e (
      append_assoc c.buf (take (min (c.limit - length c.buf) (length p)) p) _
      ∙ ap (λ r. c.buf ++ r)
          (ap (λ k. take (min (c.limit - length c.buf) (length p)) p ++ take k rest)
              (omega (
                arith,
                length-append c.buf (take (min (c.limit - length c.buf) (length p)) p),
                length-take (min (c.limit - length c.buf) (length p)) p,
              ))
            ∙ take-append (c.limit - length c.buf) p rest))
  | inr e ↦ let full : c.limit - length c.buf ≡ 0 = ground (arith, e) in rw (e, full) refl
]

append_limit : (c : CappedBuffer) (p : List ℕ) → (append c p).limit ≡ c.limit
unfolding append
append_limit c p = ground arith

append_all_kept :
    (c : CappedBuffer) (chunks : List (List ℕ))
    → (append_all c chunks).buf ≡ c.buf ++ take (c.limit - length c.buf) (concat chunks)
unfolding append_all
append_all_kept c [] =
    sym (ap (λ r. c.buf ++ r) (take_nil (c.limit - length c.buf)) ∙ append-nil c.buf)
append_all_kept c (p ∷ chunks) =
    append_all_kept (append c p) chunks
    ∙ ap (λ l. (append c p).buf ++ take (l - length (append c p).buf) (concat chunks))
        (append_limit c p)
    ∙ append_kept c p (concat chunks)

-- Of a process that has ended, whatever it wrote in whatever chunks and wherever the disk failed,
-- the output file holds no more bytes than its limit, and the excerpt of its error output is the
-- first 2048 bytes of that output.
pub run_bounds :
    (sink : Sink) (mem_kb output_kb : ℤ) (p : Ended)
    → let (res, file) = run sink mem_kb output_kb (ended p) in
      length file ≤ pos_part (wrap_int64 (output_kb *ℤ pos 1024))
      × res.stderr_excerpt ≡ take stderr_excerpt_bytes (concat p.stderr)
unfolding run
run_bounds sink mem_kb output_kb p =
    let (counted, below) =
      write_all-IsWriter sink (stdout_writer output_kb) p.stdout (refl, omega arith) in
    (
      omega (
        arith,
        counted,
        below,
        ap pos_part (write_all_limit sink (stdout_writer output_kb) p.stdout),
      ),
      append_all_kept (record { limit = stderr_excerpt_bytes; buf = [] }) p.stderr,
    )
