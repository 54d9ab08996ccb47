-- ===== src/Sweeper/Ticks.antt =====
-- What the sweeper does over many ticks.
use mathlib.Core.List.{append_assoc, append-nil}
use go_spoc.Prelude.{
  ℕ, zero, suc, ◌≡◌, refl, sym, ap, ◌∙◌, true, ◌&&◌, List, [], ◌∷◌, ◌++◌, arith, Bool-cases, inl,
  inr,
}
use go_spoc.Prelude.Eq.{◌==◌}
use go_spoc.Prelude.Int.{ℤ, pos, int_eq, int_beq_iff, ◌-ℤ◌}
use go_spoc.Submission.Repository.{is_stale, list_stale_queued}
use go_spoc.Db.{exists}
use go_spoc.World.{Env, World, Command, Link, xadd, up, refused, lost, transact}
use go_spoc.Queue.{job_fields}
use go_spoc.Sweeper.{swept, sweep, run, Wake, tick, cancelled}
use go_spoc.Sweeper.Laws.{enqueued, exists-stale_ids, sweep_sent}

-- The tables are the same, and some commands may be sent behind the earlier ones.
record Quiet (w w' : World) : Type 0 where
  more : List Command
  sent : w'.sent ≡ w.sent ++ more
  db : w'.db ≡ w.db

chained : {u v w : World} → Quiet u v → Quiet v w → Quiet u w
chained {u} p q = record {
  more = p.more ++ q.more;
  sent = q.sent ∙ ap (λ ms. ms ++ q.more) p.sent ∙ append_assoc u.sent p.more q.more;
  db = q.db ∙ p.db;
}

still : {w w' : World} → w'.sent ≡ w.sent → w'.db ≡ w.db → Quiet w w'
still {w} p q = record { more = []; sent = p ∙ sym (append-nil w.sent); db = q }

sweep-Quiet : (stale_after : ℤ) (env : Env) (w : World) → Quiet w (sweep stale_after env w).1
unfolding sweep list_stale_queued transact swept
sweep-Quiet stale_after env w = go (env.link w.calls) refl
  where
    go : (l : Link) → env.link w.calls ≡ l → Quiet w (sweep stale_after env w).1
    go up e =
        let (sent, db) = sweep_sent stale_after env w e in record { more = _; sent = sent; db = db }
    go refused e = rw e (still refl refl)
    go lost e = rw e (still refl refl)

run-Quiet :
    (stale_after : ℤ) (wakes : List Wake) (env : Env) (w : World)
    → Quiet w (run stale_after wakes env w).1
unfolding run
run-Quiet stale_after [] env w = still refl refl
run-Quiet stale_after (cancelled ∷ wakes) env w = still refl refl
run-Quiet stale_after (tick ∷ wakes) env w =
    chained (sweep-Quiet stale_after env w)
      (run-Quiet stale_after wakes env (sweep stale_after env w).1)

-- The command stands among the others.
pub record Sent (c : Command) (ms : List Command) : Type 0 where
  pub before : List Command
  pub after : List Command
  pub stands : ms ≡ before ++ c ∷ after

Sent-append : (c : Command) (ms ns : List Command) → Sent c ns → Sent c (ms ++ ns)
Sent-append c ms ns s = record {
  before = ms ++ s.before;
  after = s.after;
  stands = ap (λ ks. ms ++ ks) s.stands ∙ sym (append_assoc ms s.before _);
}

Sent-before : (c : Command) (ms ns : List Command) → Sent c ms → Sent c (ms ++ ns)
Sent-before c ms ns s = record {
  before = s.before;
  after = s.after ++ ns;
  stands = ap (λ ks. ks ++ ns) s.stands ∙ append_assoc s.before (c ∷ s.after) ns;
}

abbrev pub resend : ℤ → Command
resend id = xadd (job_fields (record { submission_id = id }))

enqueued-Sent :
    (id : ℤ) (ids : List ℤ) → exists (λ i. i == id) ids ≡ true → Sent (resend id) (enqueued ids)
unfolding exists
enqueued-Sent id [] h = cc
enqueued-Sent id (i ∷ ids) h = elim (Bool-cases (i == id)) [
  | inl e ↦ record {
    before = [];
    after = enqueued ids;
    stands = ap (λ k. resend k ∷ enqueued ids) ((int_beq_iff i id).0 e);
  }
  | inr e ↦
      Sent-append (resend id) (resend i ∷ []) (enqueued ids)
        (enqueued-Sent id ids (ground (arith, e, h)))
]

-- The next n ticks.
abbrev pub ticks : ℕ → List Wake → List Wake
ticks zero wakes = wakes
ticks (suc n) wakes = tick ∷ ticks n wakes

abbrev pub after_ticks : ℤ → ℕ → Env → World → World
after_ticks stale_after n env w = (run stale_after (ticks n []) env w).1

-- If a submission is queued in the tables that a sweeper starts on, and some later tick finds its
-- row last written before that tick's cutoff and has its query answered, then the sweeper sends
-- an XADD of its id, whatever became of the earlier ticks and whatever comes behind this one.
pub run-resends :
    (id stale_after : ℤ) (n : ℕ) (wakes : List Wake) (env : Env) (w : World)
    → env.link (after_ticks stale_after n env w).calls ≡ up
    → exists
        (λ s.
          s.id == id
          && is_stale
              (pos (env.wall_clock (after_ticks stale_after n env w).calls) -ℤ stale_after)
              s)
        w.db.submissions
      ≡ true
    → Sent (resend id) (run stale_after (ticks n (tick ∷ wakes)) env w).1.sent
unfolding run
run-resends id stale_after zero wakes env w h stale =
    let (sent, db) = sweep_sent stale_after env w h in
    let found = exists-stale_ids id _ w.db ∙ stale in
    let rest = run-Quiet stale_after wakes env (sweep stale_after env w).1 in
    rw (rest.sent, sent)
      (Sent-before (resend id) _ rest.more
        (Sent-append (resend id) w.sent _ (enqueued-Sent id _ found)))
run-resends id stale_after (suc n) wakes env w h stale =
    let q = sweep-Quiet stale_after env w in
    run-resends id stale_after n wakes env (sweep stale_after env w).1 h (rw q.db stale)
