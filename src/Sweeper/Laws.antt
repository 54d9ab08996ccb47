-- ===== src/Sweeper/Laws.antt =====
-- What a sweep finds, and what it sends.
use mathlib.Core.List.{append_assoc, append-nil}
use go_spoc.Prelude.{◌≡◌, refl, sym, ◌∙◌, Bool, ◌&&◌, List, [], ◌∷◌, ◌++◌, map, arith}
use go_spoc.Prelude.Eq.{◌==◌}
use go_spoc.Prelude.Int.{ℤ, pos, int_eq, ◌-ℤ◌}
use go_spoc.Submission.{Submission}
use go_spoc.Submission.Repository.{is_stale, stale_ids}
use go_spoc.Result.{ok}
use go_spoc.Db.{Db, exists, select}
use go_spoc.Db.Order.{order_by, insert_by}
use go_spoc.Db.Order.Sorted.{IsAscending, IsSorted-map, order_by-IsSorted}
use go_spoc.World.{Env, World, Command, xadd, up}
use go_spoc.Queue.{job_fields, enqueue}
use go_spoc.Sweeper.{enqueue_all, swept, sweep}

module _ {ℓ} {A : Type ℓ} (p : A → Bool) where
  exists-insert_by :
      (before : A → A → Bool) (x : A) (ys : List A)
      → exists p (insert_by before x ys) ≡ exists p (x ∷ ys)
  unfolding exists insert_by
  exists-insert_by before x [] = refl
  exists-insert_by before x (y ∷ ys) = ground (arith, exists-insert_by before x ys)

  exists-order_by :
      (before : A → A → Bool) (xs : List A) → exists p (order_by before xs) ≡ exists p xs
  unfolding exists order_by
  exists-order_by before [] = refl
  exists-order_by before (x ∷ xs) =
      exists-insert_by before x (order_by before xs) ∙ ground (arith, exists-order_by before xs)

  exists-select :
      (q : A → Bool) (xs : List A) → exists p (select q xs) ≡ exists (λ x. p x && q x) xs
  unfolding exists select
  exists-select q [] = refl
  exists-select q (x ∷ xs) = ground (arith, exists-select q xs)

exists-map_id :
    (id : ℤ) (rows : List Submission)
    → exists (λ i. i == id) (map (λ s. s.id) rows) ≡ exists (λ s. s.id == id) rows
unfolding exists
exists-map_id id [] = refl
exists-map_id id (s ∷ rows) = ground (arith, exists-map_id id rows)

-- The sweep's list holds an id exactly when a row with this id is queued and was last written
-- before the cutoff.
pub exists-stale_ids :
    (id : ℤ) (cutoff : ℤ) (db : Db)
    → exists (λ i. i == id) (stale_ids cutoff db)
      ≡ exists (λ s. s.id == id && is_stale cutoff s) db.submissions
unfolding stale_ids
exists-stale_ids id cutoff db =
    exists-map_id id _
    ∙ exists-order_by (λ s. s.id == id) _ (select (is_stale cutoff) db.submissions)
    ∙ exists-select (λ s. s.id == id) (is_stale cutoff) db.submissions

-- The list is in ascending order.
pub stale_ids-IsAscending : (cutoff : ℤ) (db : Db) → IsAscending (stale_ids cutoff db)
unfolding stale_ids
stale_ids-IsAscending cutoff db =
    IsSorted-map (λ s. s.id) _
      (order_by-IsSorted (λ s. s.id) (select (is_stale cutoff) db.submissions))

abbrev pub enqueued : List ℤ → List Command
enqueued ids = map (λ id. xadd (job_fields (record { submission_id = id }))) ids

enqueue_all_sent :
    (ids : List ℤ) (env : Env) (w : World)
    → ((enqueue_all ids env w).1.sent ≡ w.sent ++ enqueued ids)
      × ((enqueue_all ids env w).1.db ≡ w.db)
unfolding enqueue_all
enqueue_all_sent [] env w = (sym (append-nil w.sent), refl)
enqueue_all_sent (id ∷ ids) env w =
    let (sent, db) = enqueue_all_sent ids env (enqueue (record { submission_id = id }) env w).1 in
    (sent ∙ append_assoc w.sent _ _, db)

pub swept_sent :
    (ids : List ℤ) (env : Env) (w : World)
    → ((swept (ok ids) env w).1.sent ≡ w.sent ++ enqueued ids)
      × ((swept (ok ids) env w).1.db ≡ w.db)
unfolding swept
swept_sent [] env w = (sym (append-nil w.sent), refl)
swept_sent (id ∷ ids) env w = enqueue_all_sent (id ∷ ids) env w

-- A sweep whose query is answered sends one XADD for each stale id, in the order of the list,
-- whether or not Redis accepts the earlier ones, and changes no table.
pub sweep_sent :
    (stale_after : ℤ) (env : Env) (w : World)
    → env.link w.calls ≡ up
    → ((sweep stale_after env w).1.sent
        ≡ w.sent ++ enqueued (stale_ids (pos (env.wall_clock w.calls) -ℤ stale_after) w.db))
      × ((sweep stale_after env w).1.db ≡ w.db)
unfolding sweep
sweep_sent stale_after env w h =
    rw h (swept_sent (stale_ids (pos (env.wall_clock w.calls) -ℤ stale_after) w.db) env _)
