-- ===== src/Submission/Spec.antt =====
-- What internal/submission/repository.go promises of a submission's status: a small machine on the
-- status of each id, with no tables behind it.
pub mod Statuses
pub mod Matching
pub mod Refines
use go_spoc.Prelude.{
  ℕ, suc, String, Bool, true, false, ◌&&◌, List, [], ◌∷◌, Option, none, some, if◌then◌else◌,
}
use go_spoc.Prelude.Eq.{◌==◌}
use go_spoc.Prelude.Int.{ℤ, pos, int_eq}
use go_spoc.Db.{fits_int4}
use go_spoc.World.{Env, Link, up, refused, lost}
use go_spoc.Submission.{Submission, Status, queued, running, done, failed, status_eq}
use go_spoc.Submission.Repository.{verdict_allowed}
use go_spoc.Submission.Schedule.{Op}

-- The status of each submission that exists, and the next key.
pub record Board : Type 0 where
  pub status : ℤ → Option Status
  pub next : ℕ

-- The row of an id, if it stands in the first status, is put into the second.
abbrev pub turn : Status → Status → Option Status → Option Status
turn from to none = none
turn from to (some s) = if s == from then some to else some s

abbrev pub turn_at : ℤ → Status → Status → Board → Board
turn_at j from to b = record b {
  status = λ id. if j == id then turn from to (b.status id) else b.status id;
}

abbrev pub is_at : Status → Option Status → Bool
is_at st none = false
is_at st (some s) = s == st

-- A verdict that the table takes.
abbrev pub recordable : String → ℤ → ℤ → Bool
recordable verdict runtime_ms memory_kb =
    fits_int4 runtime_ms && fits_int4 memory_kb && verdict_allowed verdict

module _ (known : ℤ → ℤ → Bool) where
  -- A key is drawn whether or not the user and the problem are known.
  abbrev pub put : ℤ → ℤ → Board → Board
  put u p b = record {
    status = λ id. if known u p && pos b.next == id then some queued else b.status id;
    next = suc b.next;
  }

  unfoldable pub act : Op → Board → Board
  act (Op.create u p l s) b = put u p b
  act (Op.mark_running j) b = turn_at j queued running b
  act (Op.mark_done j v r m) b = if recordable v r m then turn_at j running done b else b
  act (Op.mark_failed j) b = turn_at j running failed b
  act (Op.save_test_result t) b = b
  act (Op.set_compile_error j msg) b = b

  -- Whether the caller is told `true`, if its statement is answered.
  unfoldable pub told : Op → Board → Bool
  told (Op.create u p l s) b = false
  told (Op.mark_running j) b = is_at queued (b.status j)
  told (Op.mark_done j v r m) b = recordable v r m && is_at running (b.status j)
  told (Op.mark_failed j) b = is_at running (b.status j)
  told (Op.save_test_result t) b = false
  told (Op.set_compile_error j msg) b = false

  -- A statement that is refused leaves the board as it is.
  abbrev pub act_over : Link → Op → Board → Board
  act_over up o b = act o b
  act_over refused o b = b
  act_over lost o b = act o b

  abbrev pub told_over : Link → Op → Board → Bool
  told_over up o b = told o b
  told_over refused o b = false
  told_over lost o b = false

  -- The same statements on the board, from a call on.
  unfoldable pub replay : List Op → Env → ℕ → Board → Board
  unfolding act
  replay [] env n b = b
  replay (o ∷ os) env n b = replay os env (suc n) (act_over (env.link n) o b)

  -- What the callers are told.
  unfoldable pub replies : List Op → Env → ℕ → Board → List Bool
  unfolding told act
  replies [] env n b = []
  replies (o ∷ os) env n b =
      told_over (env.link n) o b ∷ replies os env (suc n) (act_over (env.link n) o b)
