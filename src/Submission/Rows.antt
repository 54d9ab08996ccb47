-- ===== src/Submission/Rows.antt =====
-- What the statements of SQL do to counts and to the row that a key selects.
use go_spoc.Prelude.{
  ℕ, ◌+◌, ◌≤◌, ◌≡◌, refl, Bool, true, false, List, [], ◌∷◌, ◌++◌, arith, if◌then◌else◌,
}
use go_spoc.Result.{ok}
use go_spoc.Db.{update_where, affected, query_row}

abbrev pub bit : Bool → ℕ
bit b = if b then 1 else 0

module _ {ℓ} {A : Type ℓ} where
  pub affected-append :
      (q : A → Bool) (xs : List A) (y : A) → affected q (xs ++ y ∷ []) ≡ affected q xs + bit (q y)
  unfolding affected
  affected-append q [] y = omega arith
  affected-append q (x ∷ xs) y = omega (arith, affected-append q xs y)

  module _ (p q : A → Bool) (f : A → A) where
    -- An UPDATE that brings no row under a test raises no count of it.
    pub affected-update-le :
        (xs : List A)
        → ((x : A) → p x ≡ true → bit (q (f x)) ≤ bit (q x))
        → affected q (update_where p f xs) ≤ affected q xs
    unfolding affected update_where
    affected-update-le [] h = omega arith
    affected-update-le (x ∷ xs) h = ground (arith, h x, affected-update-le xs h)

    -- One that takes every row out from under the test leaves none.
    pub affected-update_zero :
        (xs : List A)
        → ((x : A) → p x ≡ true → q (f x) ≡ false)
        → ((x : A) → p x ≡ false → q x ≡ false)
        → affected q (update_where p f xs) ≡ 0
    unfolding affected update_where
    affected-update_zero [] h k = refl
    affected-update_zero (x ∷ xs) h k = ground (arith, h x, k x, affected-update_zero xs h k)

module _ {ℓ} {A : Type ℓ} where
  pub query_row-append :
      (q : A → Bool) (xs : List A) (y : A) {x : A}
      → query_row q xs ≡ ok x
      → query_row q (xs ++ y ∷ []) ≡ ok x
  unfolding query_row
  query_row-append q [] y e = cc
  query_row-append q (z ∷ xs) y {x} e = ground (arith, query_row-append q xs y {x = x})

  -- An UPDATE that keeps a test leaves the row that the test selects, itself updated or not.
  pub query_row-update :
      (p q : A → Bool) (f : A → A) (xs : List A) {x : A}
      → ((y : A) → q (f y) ≡ q y)
      → query_row q xs ≡ ok x
      → query_row q (update_where p f xs) ≡ ok (if p x then f x else x)
  unfolding query_row update_where
  query_row-update p q f [] h e = cc
  query_row-update p q f (z ∷ xs) {x} h e = ground (arith, h z, query_row-update p q f xs {x = x} h)

  -- The row that a query finds passes its test.
  pub query_row-holds : (q : A → Bool) (xs : List A) {x : A} → query_row q xs ≡ ok x → q x ≡ true
  unfolding query_row
  query_row-holds q [] e = cc
  query_row-holds q (y ∷ xs) {x} e = ground (arith, query_row-holds q xs {x = x})
