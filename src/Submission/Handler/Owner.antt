-- ===== src/Submission/Handler/Owner.antt =====
-- Who is shown a submission, and what the stream of its events holds.
use mathlib.Core.Path.{subst}
use go_spoc.Prelude.{
  ℕ, ◌≡◌, refl, sym, Bool, true, false, List, [], ◌∷◌, ◌++◌, Option, none, some, Bool-cases, ◌⊎◌,
  inl, inr, arith, ap,
}
use go_spoc.Prelude.Int.{ℤ, int_eq, int_beq_iff}
use go_spoc.Prelude.Eq.{◌==◌}
use go_spoc.Result.{Result, ok, err}
use go_spoc.Db.{Db, DbError, connection, query_row}
use go_spoc.Http.{Reply, error, json, panic}
use go_spoc.World.{Env, World, Link, up, refused, lost, settle}
use go_spoc.Events.{Event}
use go_spoc.Submission.{Submission}
use go_spoc.Submission.Repository.{find_by_id}
use go_spoc.Submission.Handler.{
  SubmissionResponse, to_response, parse_id, owned, map_reply, load_owned, get_by_id,
}
use go_spoc.Submission.Handler.Stream.{
  is_terminal, snapshot, Signal, cancelled, closed, update, Streamed, write_event, follow, streamed,
  begin, stream,
}

-- The row behind a submission that is shown to a user.
pub record Shown (user : Option ℤ) (path_id : List ℕ) (db : Db) (s : Submission) : Type 0 where
  pub id : ℤ
  pub parsed : parse_id path_id ≡ some id
  pub found : query_row (λ r. r.id == id) db.submissions ≡ ok s
  pub owner : user ≡ some s.user_id

no_row : {e : DbError} {s : Submission} → err e ≡ ok s → ⊥
no_row h = cc

module _ (user_id : ℤ) where
  owned-json :
      (r : Result DbError Submission) {status : ℕ} {s : Submission}
      → owned user_id r ≡ json status s
      → (r ≡ ok s) × (s.user_id ≡ user_id)
  unfolding owned
  owned-json (err e) h = ground (arith, h)
  owned-json (ok t) {s = s} h = elim (Bool-cases (t.user_id == user_id)) [
    | inl e ↦ ground (arith, h, e, int_beq_iff t.user_id user_id)
    | inr e ↦ ground (arith, h, e)
  ]

  settled-json :
      (l : Link) (r : Result DbError Submission) (db : Db) (w : World) {status : ℕ} {s : Submission}
      → owned user_id (settle l (r, db) w).0 ≡ json status s
      → (r ≡ ok s) × (s.user_id ≡ user_id)
  settled-json up r db w h = owned-json r h
  settled-json refused r db w {s = s} h =
      elim (no_row (owned-json (err connection) {s = s} h).0) [ ]
  settled-json lost r db w {s = s} h = elim (no_row (owned-json (err connection) {s = s} h).0) [ ]

-- The row that a request names, shown to its owner.
load_owned-Shown :
    (user_id : ℤ) (path_id : List ℕ) (env : Env) (w : World) (o : Option ℤ) {status : ℕ}
    {s : Submission}
    → parse_id path_id ≡ o
    → (load_owned user_id o env w).0 ≡ json status s
    → Shown (some user_id) path_id w.db s
unfolding load_owned find_by_id
load_owned-Shown user_id path_id env w none e h = cc
load_owned-Shown user_id path_id env w (some id) e h =
    let (found, owner) = settled-json user_id (env.link w.calls) _ w.db w h in
    record { id = id; parsed = e; found = found; owner = ap some (sym owner) }

map_reply-json :
    {A B : Type 0} (f : A → B) (r : Reply A) {status : ℕ} {b : B}
    → map_reply f r ≡ json status b
    → (a : A) × (r ≡ json status a) × (b ≡ f a)
map_reply-json f (error status text) h = cc
map_reply-json f (panic value) h = cc
map_reply-json f (json status a) h = (a, ground (arith, h), ground (arith, h))

-- `GetByID` answers with a submission only the user that owns it, and with the row of the id in
-- the path.
pub get_by_id-Shown :
    (user : Option ℤ) (path_id : List ℕ) (env : Env) (w : World) {status : ℕ}
    {resp : SubmissionResponse}
    → (get_by_id user path_id env w).0 ≡ json status resp
    → (s : Submission) × Shown user path_id w.db s × (resp ≡ to_response s)
unfolding get_by_id
get_by_id-Shown none path_id env w h = cc
get_by_id-Shown (some user_id) path_id env w h =
    let (s, found, e) =
      map_reply-json to_response (load_owned user_id (parse_id path_id) env w).0 h in
    (s, load_owned-Shown user_id path_id env w (parse_id path_id) refl found, e)

-- The events up to the end of the signals.
unfoldable pub updates : List Signal → List Event
updates [] = []
updates (cancelled ∷ _) = []
updates (closed ∷ _) = []
updates (update e ∷ signals) = e ∷ updates signals

-- No event but the last is terminal.
abbrev pub OpenUntilLast : List Event → Type 0
OpenUntilLast [] = Unit
OpenUntilLast (e ∷ []) = Unit
OpenUntilLast (e ∷ f ∷ es) = (is_terminal e.status ≡ false) × OpenUntilLast (f ∷ es)

abbrev pub EndsTerminal : List Event → Type 0
EndsTerminal [] = ⊥
EndsTerminal (e ∷ []) = is_terminal e.status ≡ true
EndsTerminal (e ∷ f ∷ es) = EndsTerminal (f ∷ es)

-- What is written of the events that are there: all of them, or those up to a terminal one.
pub record Written (all es : List Event) : Type 0 where
  pub unread : List Event
  pub split : all ≡ es ++ unread
  pub cut : (unread ≡ []) ⊎ EndsTerminal es
  pub quiet : OpenUntilLast es

event-Written :
    (e : Event) {all : List Event} (later : Streamed)
    → Written all later.events
    → Written (e ∷ all) (write_event e later).events
event-Written e {all} later wr = elim (Bool-cases (is_terminal e.status)) [
  | inl h ↦ rw h (record { unread = all; split = refl; cut = inr h; quiet = tt })
  | inr h ↦ rw h (record {
    unread = wr.unread;
    split = ap (λ rest. e ∷ rest) wr.split;
    cut = longer later.events wr.cut;
    quiet = open_first h later.events wr.quiet;
  })
]
  where
    longer :
        (es : List Event)
        → (wr.unread ≡ []) ⊎ EndsTerminal es
        → (wr.unread ≡ []) ⊎ EndsTerminal (e ∷ es)
    longer es (inl h) = inl h
    longer [] (inr bad) = elim bad [ ]
    longer (f ∷ es) (inr h) = inr h

    open_first :
        is_terminal e.status ≡ false → (es : List Event) → OpenUntilLast es → OpenUntilLast (e ∷ es)
    open_first h [] q = tt
    open_first h (f ∷ es) q = (h, q)

follow-Written : (signals : List Signal) → Written (updates signals) (follow signals).events
unfolding updates follow
follow-Written [] = record { unread = []; split = refl; cut = inl refl; quiet = tt }
follow-Written (cancelled ∷ _) = record { unread = []; split = refl; cut = inl refl; quiet = tt }
follow-Written (closed ∷ _) = record { unread = []; split = refl; cut = inl refl; quiet = tt }
follow-Written (update e ∷ signals) = event-Written e (follow signals) (follow-Written signals)

streamed-Written :
    (signals : List Signal) (r : Reply Submission) {status : ℕ} {x : Streamed}
    → streamed signals r ≡ json status x
    → (s : Submission) × (r ≡ json status s) × Written (snapshot s ∷ updates signals) x.events
streamed-Written signals (error status text) h = cc
streamed-Written signals (panic value) h = cc
streamed-Written signals (json status s) {x = x} h =
    let same : write_event (snapshot s) (follow signals) ≡ x = ground (arith, h) in
    (
      s,
      ground (arith, h),
      subst (λ (y : Streamed). Written (snapshot s ∷ updates signals) y.events) same
          (event-Written (snapshot s) (follow signals) (follow-Written signals)),
    )

begin-Written :
    (flushes : Bool) (user_id : ℤ) (path_id : List ℕ) (o : Option ℤ) (signals : List Signal)
    (env : Env) (w : World) {status : ℕ} {x : Streamed}
    → parse_id path_id ≡ o
    → (begin flushes user_id o signals env w).0 ≡ json status x
    → (s : Submission) × Shown (some user_id) path_id w.db s
      × Written (snapshot s ∷ updates signals) x.events
unfolding begin
begin-Written flushes user_id path_id none signals env w e h = cc
begin-Written false user_id path_id (some id) signals env w e h = cc
begin-Written true user_id path_id (some id) signals env w e h =
    let (s, found, written) = streamed-Written signals (load_owned user_id (some id) env w).0 h in
    (s, load_owned-Shown user_id path_id env w (some id) e found, written)

-- A stream that begins is shown to the submission's owner; its first event is the row as it was
-- read, the events that follow are those received, in their order, up to the first that is done
-- or failed, and no more is written behind such an event.
pub stream-Written :
    (flushes : Bool) (user : Option ℤ) (path_id : List ℕ) (signals : List Signal) (env : Env)
    (w : World) {status : ℕ} {x : Streamed}
    → (stream flushes user path_id signals env w).0 ≡ json status x
    → (s : Submission) × Shown user path_id w.db s × Written (snapshot s ∷ updates signals) x.events
unfolding stream
stream-Written flushes none path_id signals env w h = cc
stream-Written flushes (some user_id) path_id signals env w h =
    begin-Written flushes user_id path_id (parse_id path_id) signals env w refl h
