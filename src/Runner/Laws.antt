-- ===== src/Runner/Laws.antt =====
-- What the runner keeps of a process's output.
use mathlib.Core.List.{append-nil, append_assoc}
use go_spoc.Prelude.{
  ℕ, zero, suc, ◌+◌, ◌-◌, ◌≤◌, ◌<◌, min, ◌≡◌, refl, sym, ap, ◌∙◌, true, false, List, [], ◌∷◌, ◌++◌,
  if◌then◌else◌, length, take, ltb, ltb→lt, length-append, length-take, Bool-cases, inl, inr, arith,
  All,
}
use go_spoc.Prelude.Eq.{nat_beq}
use go_spoc.Prelude.Int.{pos_part}
use go_spoc.Runner.Capped.{Sink, CappedWriter, Wrote, room, pass_on, write, write_all}

-- A disk that takes every chunk as a whole.
abbrev pub whole : Sink
whole held chunk = length chunk

abbrev pub concat : List (List ℕ) → List ℕ
concat [] = []
concat (p ∷ chunks) = p ++ concat chunks

pub take-append_front :
    {A : Type 0} (n : ℕ) (xs ys : List A) → n ≤ length xs → take n (xs ++ ys) ≡ take n xs
take-append_front zero xs ys h = refl
take-append_front (suc n) [] ys h = ground (arith, h)
take-append_front (suc n) (x ∷ xs) ys h =
    ap (λ r. x ∷ r) (take-append_front n xs ys (omega (arith, h)))

pub take-append_past :
    {A : Type 0} (n : ℕ) (xs ys : List A)
    → length xs ≤ n
    → take n (xs ++ ys) ≡ xs ++ take (n - length xs) ys
take-append_past n [] ys h = ap (λ k. take k ys) (omega arith)
take-append_past zero (x ∷ xs) ys h = ground (arith, h)
take-append_past (suc n) (x ∷ xs) ys h =
    ap (λ r. x ∷ r)
      (take-append_past n xs ys (omega (arith, h)) ∙ ap (λ k. xs ++ take k ys) (omega arith))

pub take_nil : {A : Type 0} (n : ℕ) → take {A = A} n [] ≡ []
take_nil zero = refl
take_nil (suc n) = refl

pub take_all : {A : Type 0} (n : ℕ) (xs : List A) → length xs ≤ n → take n xs ≡ xs
take_all zero [] h = refl
take_all zero (x ∷ xs) h = ground (arith, h)
take_all (suc n) [] h = refl
take_all (suc n) (x ∷ xs) h = ap (λ r. x ∷ r) (take_all n xs (omega (arith, h)))

abbrev pub NonEmpty : List ℕ → Type 0
NonEmpty p = 0 < length p

-- The writer while no write has failed.
abbrev pub IsWriter : CappedWriter → Type 0
IsWriter c = (c.written ≡ length c.file) × (c.written ≤ pos_part c.limit)

abbrev wrote_all : List ℕ → Wrote
wrote_all p = record { count = length p; failed = false }

pass_on-whole :
    (c : CappedWriter) (p : List ℕ)
    → pass_on whole c p
      ≡ (wrote_all p, record c { written = c.written + length p; file = c.file ++ p })
pass_on-whole c p =
    let m : min (length p) (length p) ≡ length p = omega arith in
    let none_left : ltb (length p) (length p) ≡ false = ground arith in
    rw (m, none_left, take_all (length p) p (omega arith)) refl

module _ (c : CappedWriter) (p : List ℕ) where
  -- A chunk that fits is kept whole, of another what there is room for; the process is told that
  -- all was written.
  write_fits :
      length p ≤ room c
      → 0 < length p
      → write whole c p
        ≡ (wrote_all p, record c { written = c.written + length p; file = c.file ++ p })
  unfolding write
  write_fits fits some_h =
      let spare : nat_beq (room c) 0 ≡ false = ground (arith, fits, some_h) in
      let enough : ltb (room c) (length p) ≡ false = ground (arith, fits) in
      rw (spare, enough) (pass_on-whole c p)

  abbrev cut_writer : CappedWriter
  cut_writer = record c {
    written = c.written + room c;
    truncated = true;
    file = c.file ++ take (room c) p;
  }

  write_cut : room c < length p → write whole c p ≡ (wrote_all p, cut_writer)
  unfolding write
  write_cut cut = elim (Bool-cases (nat_beq (room c) 0)) [
    | inl full ↦
        let no_room : room c ≡ 0 = ground (arith, full) in
        let stay : c.written + room c ≡ c.written = omega (arith, no_room) in
        let kept : c.file ++ take (room c) p ≡ c.file =
          ap (λ n. c.file ++ take n p) no_room ∙ append-nil c.file in
        rw (full, stay, kept) refl
    | inr spare ↦
        let over : ltb (room c) (length p) ≡ true = ground (arith, cut) in
        rw (spare, over)
          (ap (λ t. (record { count = length p; failed = t.0.failed }, t.1))
              (pass_on-whole (record c { truncated = true }) (take (room c) p))
            ∙ ap
                (λ n. (
                  wrote_all p,
                  record c {
                    written = c.written + n;
                    truncated = true;
                    file = c.file ++ take (room c) p;
                  },
                ))
                same_length)
  ]
    where
      same_length : length (take (room c) p) ≡ room c
      same_length = omega (arith, length-take (room c) p, cut)

module _ (c : CappedWriter) (p : List ℕ) (chunks : List (List ℕ)) where
  abbrev fitted : CappedWriter
  fitted = record c { written = c.written + length p; file = c.file ++ p }

  all_fits :
      ltb (room c) (length p) ≡ false
      → 0 < length p
      → write_all whole c (p ∷ chunks) ≡ write_all whole fitted chunks
  unfolding write_all
  all_fits fits h =
      ap (λ t. if t.0.failed then t.1 else write_all whole t.1 chunks)
        (write_fits c p (ground (arith, fits)) h)

  all_cut :
      ltb (room c) (length p) ≡ true
      → write_all whole c (p ∷ chunks) ≡ write_all whole (cut_writer c p) chunks
  unfolding write_all
  all_cut over =
      ap (λ t. if t.0.failed then t.1 else write_all whole t.1 chunks)
        (write_cut c p (ltb→lt (room c) (length p) over))

  no_more : room (cut_writer c p) ≡ 0
  no_more = omega arith

  less_room : room fitted ≡ room c - length p
  less_room = omega arith

all_none : (c : CappedWriter) → write_all whole c [] ≡ c
unfolding write_all
all_none c = refl

-- Across the chunks of a process, none of them empty.
pub write_all_kept :
    (c : CappedWriter) (chunks : List (List ℕ))
    → All NonEmpty chunks
    → (write_all whole c chunks).file ≡ c.file ++ take (room c) (concat chunks)
write_all_kept c [] h =
    ap (λ t. t.file) (all_none c)
    ∙ sym (ap (λ r. c.file ++ r) (take_nil (room c)) ∙ append-nil c.file)
write_all_kept c (p ∷ chunks) h = elim (Bool-cases (ltb (room c) (length p))) [
  | inl over ↦
      ap (λ t. t.file) (all_cut c p chunks over)
      ∙ write_all_kept (cut_writer c p) chunks h.1
      ∙ ap (λ n. (c.file ++ take (room c) p) ++ take n (concat chunks)) (no_more c p chunks)
      ∙ append-nil _
      ∙ ap (λ r. c.file ++ r)
          (sym (take-append_front (room c) p (concat chunks) (ground (arith, over))))
  | inr fits ↦
      ap (λ t. t.file) (all_fits c p chunks fits h.0)
      ∙ write_all_kept (fitted c p chunks) chunks h.1
      ∙ ap (λ n. (c.file ++ p) ++ take n (concat chunks)) (less_room c p chunks)
      ∙ append_assoc c.file p _
      ∙ ap (λ r. c.file ++ r)
          (sym (take-append_past (room c) p (concat chunks) (ground (arith, fits))))
]

pub write_all_truncated :
    (c : CappedWriter) (chunks : List (List ℕ))
    → All NonEmpty chunks
    → (write_all whole c chunks).truncated
      ≡ (if c.truncated then true else ltb (room c) (length (concat chunks)))
write_all_truncated c [] h = ap (λ t. t.truncated) (all_none c) ∙ ground arith
write_all_truncated c (p ∷ chunks) h = elim (Bool-cases (ltb (room c) (length p))) [
  | inl over ↦
      ap (λ t. t.truncated) (all_cut c p chunks over)
      ∙ write_all_truncated (cut_writer c p) chunks h.1
      ∙ ground (arith, over, length-append p (concat chunks))
  | inr fits ↦
      ap (λ t. t.truncated) (all_fits c p chunks fits h.0)
      ∙ write_all_truncated (fitted c p chunks) chunks h.1
      ∙ ground (arith, fits, length-append p (concat chunks))
]
