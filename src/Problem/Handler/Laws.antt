-- ===== src/Problem/Handler/Laws.antt =====
-- What a request to create a problem stores.
use go_spoc.Prelude.{
  ℕ, ◌≡◌, ◌≢◌, refl, ap, ◌∙◌, false, ◌&&◌, [], ◌∷◌, ◌++◌, none, some, is_empty, Bool-cases,
  Option-cases, inl, inr, arith,
}
use go_spoc.Prelude.Eq.{◌==◌, list_eq, nat_eq}
use go_spoc.Prelude.Int.{pos, ◌<ℤ◌}
use go_spoc.Result.{Result, ok, err}
use go_spoc.Db.{Db, DbError, exists, fits_int4}
use go_spoc.Http.{json}
use go_spoc.World.{Env, World, Link, up, refused, lost, settle, transact}
use go_spoc.Problem.{Problem}
use go_spoc.Problem.Repository.{insert_problem}
use go_spoc.Problem.Repository as Problems
use go_spoc.Problem.Handler.{CreateRequest, created, clean, refusal, submit, create}

-- A problem that is complete, and stands behind the others, none of which has its slug.
pub record Stored (before after : Db) (p : Problem) : Type 0 where
  pub slug : p.slug ≢ []
  pub title : p.title ≢ []
  pub statement : p.statement ≢ []
  pub time : pos 0 <ℤ p.time_limit_ms
  pub memory : pos 0 <ℤ p.memory_limit_kb
  pub fresh : exists (λ q. q.slug == p.slug) before.problems ≡ false
  pub added : after.problems ≡ before.problems ++ p ∷ []

created-json :
    (l : Link) (r : Result DbError Problem) (db : Db) (w : World) {status : ℕ} {p : Problem}
    → created (settle l (r, db) w).0 ≡ json status p
    → (r ≡ ok p) × ((settle l (r, db) w).1.db ≡ db)
created-json up (ok p) db w h = (ground (arith, h), refl)
created-json up (err e) db w h = cc
created-json refused r db w h = cc
created-json lost r db w h = cc

module _ (req : CreateRequest) (db : Db) where
  abbrev row : Problem
  row = record {
    id = pos db.next_problem;
    slug = req.slug;
    title = req.title;
    statement = req.statement;
    time_limit_ms = req.time_limit_ms;
    memory_limit_kb = req.memory_limit_kb;
  }

  abbrev inserted : Result DbError Problem × Db
  inserted =
      insert_problem req.slug req.title req.statement req.time_limit_ms req.memory_limit_kb db

  inserted-ok :
      {p : Problem}
      → inserted.0 ≡ ok p
      → (p ≡ row)
        × (exists (λ q. q.slug == req.slug) db.problems ≡ false)
        × (inserted.1.problems ≡ db.problems ++ row ∷ [])
  unfolding insert_problem
  inserted-ok h = elim (Bool-cases (fits_int4 req.time_limit_ms && fits_int4 req.memory_limit_kb)) [
    | inr e ↦ let h' = rw e at h in cc
    | inl e ↦ elim (Bool-cases (exists (λ q. q.slug == req.slug) db.problems)) [
      | inl taken ↦ let h' = rw (e, taken) at h in cc
      | inr fresh ↦ let h' = rw (e, fresh) at h in rw (e, fresh) (ground (arith, h'), refl, refl)
    ]
  ]

  row-Stored :
      refusal req ≡ none
      → exists (λ q. q.slug == req.slug) db.problems ≡ false
      → {after : Db} → after.problems ≡ db.problems ++ row ∷ []
      → Stored db after row
  unfolding refusal
  row-Stored h fresh added = record {
    slug = λ e. ground (arith, h, ap is_empty e);
    title = λ e. ground (arith, h, ap is_empty e);
    statement = λ e. ground (arith, h, ap is_empty e);
    time = ground (arith, h);
    memory = ground (arith, h);
    fresh = fresh;
    added = added;
  }

module _ (unicode_lower : ℕ → ℕ) (body : CreateRequest) (env : Env) (w : World) where
  abbrev req : CreateRequest
  req = clean unicode_lower body

  -- A request that is answered with a problem has stored it: with a slug, a title and a statement,
  -- with positive limits, and with a slug that no other problem has.
  pub create-Stored :
      {status : ℕ} {p : Problem}
      → (create unicode_lower (some body) env w).0 ≡ json status p
      → Stored w.db (create unicode_lower (some body) env w).1.db p
  unfolding create submit Problems.create transact
  create-Stored {p = p} h = elim (Option-cases (refusal req)) [
    | inr (text, e) ↦ let h' = rw e at h in cc
    | inl e ↦
        let h' = rw e at h in
        let (stored, kept) = created-json (env.link w.calls) _ _ w h' in
        let (same, fresh, added) = inserted-ok req w.db stored in
        rw e (rw same (row-Stored req w.db e fresh (ap (λ db. db.problems) kept ∙ added)))
  ]
