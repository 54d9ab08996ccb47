-- ===== src/Submission/Stuck.antt =====
-- What the sweep and the claim make of a submission that is running.
use go_spoc.Prelude.{
  ℕ, ◌≤◌, ◌≡◌, refl, ap, ◌∙◌, Bool, true, false, ◌&&◌, List, [], ◌∷◌, Bool-cases, inl, inr, arith,
}
use go_spoc.Prelude.Eq.{◌==◌, nat_eq}
use go_spoc.Prelude.Int.{ℤ, int_eq}
use go_spoc.Result.{ok}
use go_spoc.Db.{Db, query_row, affected, exists}
use go_spoc.Submission.{Submission, queued, running, status_eq}
use go_spoc.Submission.Repository.{update_running, stale_ids, is_stale, has_status}
use go_spoc.Submission.Claims.{IsKeyed}
use go_spoc.Sweeper.Laws.{exists-stale_ids}

module _ {A : Type 0} (q r : A → Bool) (narrower : (x : A) → r x ≡ true → q x ≡ true) where
  pub none_affected : (xs : List A) → affected q xs ≤ 0 → affected r xs ≡ 0
  unfolding affected
  none_affected [] h = refl
  none_affected (x ∷ xs) h = ground (arith, h, narrower x, none_affected xs)

  -- Where one row at most passes a test and the row that passes fails a narrower test, no row
  -- passes that.
  only_row :
      (xs : List A) {s : A}
      → affected q xs ≤ 1
      → query_row q xs ≡ ok s
      → r s ≡ false
      → affected r xs ≡ 0
  unfolding affected query_row
  only_row [] h e f = cc
  only_row (x ∷ xs) {s} h e f = elim (Bool-cases (q x)) [
    | inl hit ↦
        let e' = rw hit at e in
        let same : x ≡ s = ground (arith, e') in
        let out : r x ≡ false = ap r same ∙ f in ground (arith, h, hit, out, none_affected xs)
    | inr miss ↦
        let e' = rw miss at e in
        ground (arith, h, miss, narrower x, only_row xs {s = s} (ground (arith, h, miss)) e' f)
  ]

exists-affected :
    {A : Type 0} (r : A → Bool) (xs : List A) → affected r xs ≡ 0 → exists r xs ≡ false
unfolding exists affected
exists-affected r [] h = refl
exists-affected r (x ∷ xs) h = ground (arith, h, exists-affected r xs)

-- While the only row of an id is running, no caller claims it and no sweep lists it.
pub running_is_stuck :
    (id : ℤ) (db : Db) {s : Submission}
    → IsKeyed db
    → query_row (λ r. r.id == id) db.submissions ≡ ok s
    → s.status ≡ running
    → (now : ℕ) (cutoff : ℤ)
    → ((update_running id now db).0 ≡ ok false)
      × (exists (λ i. i == id) (stale_ids cutoff db) ≡ false)
unfolding update_running
running_is_stuck id db {s} keyed found status now cutoff =
    let alone : affected (λ r. r.id == id) db.submissions ≤ 1 = omega (arith, keyed id) in
    let unclaimed : affected (has_status id queued) db.submissions ≡ 0 =
      only_row (λ r. r.id == id) (has_status id queued) (λ x h. ground (arith, h)) db.submissions
        alone found (ground (arith, status)) in
    let unswept : affected (λ r. r.id == id && is_stale cutoff r) db.submissions ≡ 0 =
      only_row (λ r. r.id == id) (λ r. r.id == id && is_stale cutoff r) (λ x h. ground (arith, h))
        db.submissions alone found (ground (arith, status)) in
    (
      ap (λ n. ok (n == 1)) unclaimed,
      exists-stale_ids id cutoff db ∙ exists-affected _ db.submissions unswept,
    )
