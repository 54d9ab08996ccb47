-- ===== src/Submission/Spec/Statuses.antt =====
-- The statuses that the tables of internal/submission/repository.go show, as a board.
use go_spoc.Prelude.{
  ◌≤◌, ◌≡◌, refl, Bool, ◌&&◌, List, [], ◌∷◌, ◌++◌, Option, none, some, arith, Bool-cases, inl, inr,
  if◌then◌else◌,
}
use go_spoc.Prelude.Eq.{◌==◌, nat_eq}
use go_spoc.Prelude.Int.{ℤ, int_eq, int_beq_iff}
use go_spoc.Db.{Db, update_where, affected, exists}
use go_spoc.Submission.{Submission, Status, status_eq}
use go_spoc.Submission.Repository.{has_status}
use go_spoc.Submission.Rows.{bit}
use go_spoc.Submission.Stuck.{none_affected}
use go_spoc.Submission.Spec.{Board, turn, is_at}

abbrev pub status_of : ℤ → List Submission → Option Status
status_of id [] = none
status_of id (s ∷ rows) = if s.id == id then some s.status else status_of id rows

-- The board that the tables show.
abbrev pub board_of : Db → Board
board_of db = record { status = λ id. status_of id db.submissions; next = db.next_submission }

-- Whether the INSERT of a submission finds its user and its problem.
abbrev pub knows : Db → ℤ → ℤ → Bool
knows db u p = exists (λ r. r.id == u) db.users && exists (λ r. r.id == p) db.problems

pub status_of-turn :
    (id j : ℤ) (from to : Status) (f : Submission → Submission) (rows : List Submission)
    → ((s : Submission) → (f s).id ≡ s.id)
    → ((s : Submission) → (f s).status ≡ to)
    → status_of id (update_where (has_status j from) f rows)
      ≡ (if j == id then turn from to (status_of id rows) else status_of id rows)
unfolding update_where
status_of-turn id j from to f [] h k = ground arith
status_of-turn id j from to f (s ∷ rows) h k = ground (
  arith,
  h s,
  k s,
  int_beq_iff s.id id,
  int_beq_iff s.id j,
  int_beq_iff j id,
  status_of-turn id j from to f rows h k,
)

pub status_of-kept :
    (id : ℤ) (p : Submission → Bool) (f : Submission → Submission) (rows : List Submission)
    → ((s : Submission) → (f s).id ≡ s.id)
    → ((s : Submission) → (f s).status ≡ s.status)
    → status_of id (update_where p f rows) ≡ status_of id rows
unfolding update_where
status_of-kept id p f [] h k = refl
status_of-kept id p f (s ∷ rows) h k = ground (arith, h s, k s, status_of-kept id p f rows h k)

-- Where an id has one row at most, an UPDATE hits one exactly if the row has the status.
pub affected-is_at :
    (j : ℤ) (st : Status) (rows : List Submission)
    → affected (λ s. s.id == j) rows ≤ 1
    → affected (has_status j st) rows ≡ bit (is_at st (status_of j rows))
unfolding affected
affected-is_at j st [] h = refl
affected-is_at j st (s ∷ rows) h = elim (Bool-cases (s.id == j)) [
  | inl e ↦
      let rest : affected (has_status j st) rows ≡ 0 =
        none_affected (λ (r : Submission). r.id == j) (has_status j st) (λ r k. ground (arith, k))
          rows (ground (arith, h, e)) in
      rw e (omega (arith, rest))
  | inr e ↦ rw e (omega (arith, affected-is_at j st rows (ground (arith, h, e))))
]

pub status_of-append :
    (id : ℤ) (row : Submission) (rows : List Submission)
    → affected (λ s. s.id == row.id) rows ≡ 0
    → status_of id (rows ++ row ∷ [])
      ≡ (if row.id == id then some row.status else status_of id rows)
unfolding affected
status_of-append id row [] h = refl
status_of-append id row (s ∷ rows) h = ground (
  arith,
  h,
  int_beq_iff s.id id,
  int_beq_iff s.id row.id,
  int_beq_iff row.id id,
  status_of-append id row rows,
)
