-- ===== src/Submission/Lifecycle.antt =====
-- The life of a row of `submissions`: where its status can go, and what never changes.
use go_spoc.Prelude.{
  ℕ, ◌≡◌, refl, ◌∙◌, ap, String, Bool, true, false, List, [], ◌∷◌, none, arith, if◌then◌else◌,
  Bool-cases, if_both, ◌⊎◌, inl, inr,
}
use go_spoc.Prelude.Eq.{◌==◌}
use go_spoc.Prelude.Int.{ℤ, int_eq}
use go_spoc.Submission.{
  Submission, Status, queued, running, done, failed, status_eq, status_beq_iff, TestResult,
}
use go_spoc.Result.{Result, ok}
use go_spoc.Db.{Db, DbError, update_where, query_row}
use go_spoc.World.{Env, World, Link, up, refused, lost, settle}
use go_spoc.Submission.Repository.{
  queued_row, has_status, set_running, set_done, set_failed, set_message, insert_submission,
  update_running, update_done, update_failed, insert_result, update_compile_error,
}
use go_spoc.Submission.Rows.{query_row-append, query_row-update}
use go_spoc.Submission.Schedule.{Op, perform, run}

infix 40 ◌⟶◌ ◌⟶*◌
pub data ◌⟶◌ : Status → Status → Type 0 where
  claim : queued ⟶ running
  finish : running ⟶ done
  give_up : running ⟶ failed

pub data ◌⟶*◌ : Status → Status → Type 0 where
  here : {s : Status} → s ⟶* s
  next : {s t u : Status} → s ⟶ t → t ⟶* u → s ⟶* u

⟶*_trans : {s t u : Status} → s ⟶* t → t ⟶* u → s ⟶* u
⟶*_trans here q = q
⟶*_trans (next e p) q = next e (⟶*_trans p q)

abbrev pub is_final : Status → Bool
is_final queued = false
is_final running = false
is_final done = true
is_final failed = true

-- A row without the compiler's message, the one column that is written without a guard.
abbrev pub judged_part : Submission → Submission
judged_part s = record s { compile_error = none }

-- How a row may look later.
pub record Evolves (s t : Submission) : Type 0 where
  pub id : t.id ≡ s.id
  pub user_id : t.user_id ≡ s.user_id
  pub problem_id : t.problem_id ≡ s.problem_id
  pub language : t.language ≡ s.language
  pub source : t.source ≡ s.source
  pub created_at : t.created_at ≡ s.created_at
  pub path : s.status ⟶* t.status
  pub final : is_final s.status ≡ true → judged_part t ≡ judged_part s

Evolves-refl : (s : Submission) → Evolves s s
Evolves-refl s = record {
  id = refl;
  user_id = refl;
  problem_id = refl;
  language = refl;
  source = refl;
  created_at = refl;
  path = here;
  final = λ h. refl;
}

Evolves-trans : {s t u : Submission} → Evolves s t → Evolves t u → Evolves s u
Evolves-trans {s} {t} {u} a b = record {
  id = b.id ∙ a.id;
  user_id = b.user_id ∙ a.user_id;
  problem_id = b.problem_id ∙ a.problem_id;
  language = b.language ∙ a.language;
  source = b.source ∙ a.source;
  created_at = b.created_at ∙ a.created_at;
  path = ⟶*_trans a.path b.path;
  final = λ h.
      let same = a.final h in b.final (ap (λ (r : Submission). is_final r.status) same ∙ h) ∙ same;
}

-- A row that the guard of an UPDATE lets through is changed along an edge.
abbrev Stays : Submission → Submission → Type 0
Stays s t =
    (t.id ≡ s.id)
    × (t.user_id ≡ s.user_id)
    × (t.problem_id ≡ s.problem_id)
    × (t.language ≡ s.language)
    × (t.source ≡ s.source)
    × (t.created_at ≡ s.created_at)

edge-Evolves :
    (s t : Submission) → Stays s t → s.status ⟶ t.status → is_final s.status ≡ false → Evolves s t
edge-Evolves s t h e n = record {
  id = h.0;
  user_id = h.1;
  problem_id = h.2;
  language = h.3;
  source = h.4;
  created_at = h.5;
  path = next e here;
  final = λ f. cc;
}

guarded-Evolves :
    (id : ℤ) (from : Status) (f : Submission → Submission) (s : Submission)
    → ((r : Submission) → r.status ≡ from → Evolves r (f r))
    → Evolves s (if has_status id from s then f s else s)
guarded-Evolves id from f s h = elim (Bool-cases (has_status id from s)) [
  | inl e ↦ rw e (h s (ground (arith, status_beq_iff s.status from)))
  | inr e ↦ rw e (Evolves-refl s)
]

-- What becomes of the row with a given id.
abbrev pub Leads : ℤ → Db → Db → Type 0
Leads id db db' =
    (s : Submission)
    → query_row (λ r. r.id == id) db.submissions ≡ ok s
    → (t : Submission) × (query_row (λ r. r.id == id) db'.submissions ≡ ok t) × Evolves s t

update-Leads :
    (id : ℤ) (p : Submission → Bool) (f : Submission → Submission) (db : Db)
    → ((s : Submission) → (f s).id ≡ s.id)
    → ((s : Submission) → Evolves s (if p s then f s else s))
    → Leads id db (record db { submissions = update_where p f db.submissions })
update-Leads id p f db same h s e = (
  if p s then f s else s,
  query_row-update p (λ r. r.id == id) f db.submissions (λ r. rw (same r)) e,
  h s,
)

stay-Leads : (id : ℤ) (db : Db) → Leads id db db
stay-Leads id db s e = (s, e, Evolves-refl s)

running-Leads : (id j : ℤ) (now : ℕ) (db : Db) → Leads id db (update_running j now db).1
unfolding update_running
running-Leads id j now db =
    update-Leads id (has_status j queued) (set_running now) db (λ s. refl)
      (λ s.
        guarded-Evolves j queued (set_running now) s
          (λ r q. edge-Evolves r _ (refl, refl, refl, refl, refl, refl) (rw q claim) (rw q)))

done-submissions :
    (j : ℤ) (v : String) (r m : ℤ) (now : ℕ) (db : Db)
    → ((update_done j v r m now db).1.submissions ≡ db.submissions)
      ⊎ ((update_done j v r m now db).1.submissions
          ≡ update_where (has_status j running) (set_done v r m now) db.submissions)
unfolding update_done
done-submissions j v r m now db = ground arith

done-Leads :
    (id j : ℤ) (v : String) (r m : ℤ) (now : ℕ) (db : Db)
    → Leads id db (update_done j v r m now db).1
done-Leads id j v r m now db s e = elim (done-submissions j v r m now db) [
  | inl same ↦ rw same (stay-Leads id db s e)
  | inr changed ↦ rw changed (
      update-Leads id (has_status j running) (set_done v r m now) db (λ s. refl)
        (λ s.
          guarded-Evolves j running (set_done v r m now) s
            (λ t q. edge-Evolves t _ (refl, refl, refl, refl, refl, refl) (rw q finish) (rw q)))
        s e)
]

failed-Leads : (id j : ℤ) (now : ℕ) (db : Db) → Leads id db (update_failed j now db).1
unfolding update_failed
failed-Leads id j now db =
    update-Leads id (has_status j running) (set_failed now) db (λ s. refl)
      (λ s.
        guarded-Evolves j running (set_failed now) s
          (λ r q. edge-Evolves r _ (refl, refl, refl, refl, refl, refl) (rw q give_up) (rw q)))

message-Evolves : (s : Submission) (msg : List ℕ) → Evolves s (set_message msg s)
message-Evolves s msg = record {
  id = refl;
  user_id = refl;
  problem_id = refl;
  language = refl;
  source = refl;
  created_at = refl;
  path = here;
  final = λ h. refl;
}

message-Leads : (id j : ℤ) (msg : List ℕ) (db : Db) → Leads id db (update_compile_error j msg db).1
unfolding update_compile_error
message-Leads id j msg db =
    update-Leads id (λ s. s.id == j) (set_message msg) db (λ s. refl)
      (λ s. if_both (Evolves s) (s.id == j) (message-Evolves s msg) (Evolves-refl s))

insert-Leads :
    (id u p : ℤ) (l src : List ℕ) (now : ℕ) (db : Db)
    → Leads id db (insert_submission u p l src now db).1
unfolding insert_submission
insert-Leads id u p l src now db s e =
    let row : Submission = queued_row db.next_submission u p l src now in
    let kept = query_row-append (λ (r : Submission). r.id == id) db.submissions row {x = s} e in
    (s, ground (arith, kept), Evolves-refl s)

result-submissions :
    (t : TestResult) (db : Db) → (insert_result t db).1.submissions ≡ db.submissions
unfolding insert_result
result-submissions t db = ground arith

result-Leads : (id : ℤ) (t : TestResult) (db : Db) → Leads id db (insert_result t db).1
result-Leads id t db s e = (s, rw (result-submissions t db) e, Evolves-refl s)

settle-Leads :
    (id : ℤ) {A : Type 0} (l : Link) (r : Result DbError A × Db) (w : World)
    → Leads id w.db r.1
    → Leads id w.db (settle l r w).1.db
settle-Leads id up r w h = h
settle-Leads id refused r w h = stay-Leads id w.db
settle-Leads id lost r w h = h

pub perform-Leads : (id : ℤ) (o : Op) (env : Env) (w : World) → Leads id w.db (perform o env w).1.db
unfolding perform
perform-Leads id (Op.mark_running j) env w =
    settle-Leads id (env.link w.calls) _ w (running-Leads id j (env.now w.calls) w.db)
perform-Leads id (Op.create u p l s) env w =
    settle-Leads id (env.link w.calls) _ w (insert-Leads id u p l s (env.now w.calls) w.db)
perform-Leads id (Op.mark_done j v r m) env w =
    settle-Leads id (env.link w.calls) _ w (done-Leads id j v r m (env.now w.calls) w.db)
perform-Leads id (Op.mark_failed j) env w =
    settle-Leads id (env.link w.calls) _ w (failed-Leads id j (env.now w.calls) w.db)
perform-Leads id (Op.save_test_result t) env w =
    settle-Leads id (env.link w.calls) _ w (result-Leads id t w.db)
perform-Leads id (Op.set_compile_error j msg) env w =
    settle-Leads id (env.link w.calls) _ w (message-Leads id j msg w.db)

-- In every sequence of the repository's statements, whatever becomes of their answers, a row that
-- is there stays there; its id, owner, problem, language, source and creation time do not change;
-- its status goes only from queued to running and from there to done or failed; and once it is
-- done or failed nothing of it changes but the compiler's message.
pub row_evolves : (id : ℤ) (os : List Op) (env : Env) (w : World) → Leads id w.db (run os env w).db
unfolding run
row_evolves id [] env w s e = (s, e, Evolves-refl s)
row_evolves id (o ∷ os) env w s e =
    let (t, found, first) = perform-Leads id o env w s e in
    let (u, found', rest) = row_evolves id os env (perform o env w).1 t found in
    (u, found', Evolves-trans first rest)
