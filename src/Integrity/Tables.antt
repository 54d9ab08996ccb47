-- ===== src/Integrity/Tables.antt =====
-- What a new row and an UPDATE do to a table.
use go_spoc.Prelude.{
  ℕ, suc, ◌+◌, ◌≤◌, ◌≡◌, refl, Bool, true, false, List, [], ◌∷◌, ◌++◌, All, arith, Bool-cases, inl,
  inr,
}
use go_spoc.Prelude.Eq.{◌==◌}
use go_spoc.Prelude.Int.{ℤ, pos, negsuc, int_eq}
use go_spoc.Db.{affected, exists, update_where}
use go_spoc.Submission.Claims.{unborn_at}
use go_spoc.Submission.Rows.{affected-append}

module _ {A : Type 0} where
  pub exists-append :
      (q : A → Bool) (xs ys : List A) → exists q xs ≡ true → exists q (xs ++ ys) ≡ true
  unfolding exists
  exists-append q [] ys h = cc
  exists-append q (x ∷ xs) ys h = ground (arith, h, exists-append q xs ys)

  pub exists-update :
      (q p : A → Bool) (f : A → A) (xs : List A)
      → ((x : A) → q (f x) ≡ q x)
      → exists q (update_where p f xs) ≡ exists q xs
  unfolding exists update_where
  exists-update q p f [] h = refl
  exists-update q p f (x ∷ xs) h = ground (arith, h x, exists-update q p f xs h)

  pub affected_none : (q : A → Bool) (xs : List A) → exists q xs ≡ false → affected q xs ≡ 0
  unfolding exists affected
  affected_none q [] h = refl
  affected_none q (x ∷ xs) h = ground (arith, h, affected_none q xs)

module _ {A : Type 0} (P : A → Type 0) where
  pub All-append : (xs : List A) (y : A) → All P xs → P y → All P (xs ++ y ∷ [])
  All-append [] y h k = (k, tt)
  All-append (x ∷ xs) y (h, hs) k = (h, All-append xs y hs k)

  -- What holds of every row holds of the rows of an UPDATE, if it holds of those that change.
  pub All-update :
      (p : A → Bool) (f : A → A) (xs : List A)
      → ((x : A) → p x ≡ true → P x → P (f x))
      → All P xs
      → All P (update_where p f xs)
  unfolding update_where
  All-update p f [] k h = tt
  All-update p f (x ∷ xs) k (h, hs) = elim (Bool-cases (p x)) [
    | inl e ↦ rw e (k x e h, All-update p f xs k hs)
    | inr e ↦ rw e (h, All-update p f xs k hs)
  ]

  pub All-map : (Q : A → Type 0) (xs : List A) → ((x : A) → P x → Q x) → All P xs → All Q xs
  All-map Q [] k h = tt
  All-map Q (x ∷ xs) k (h, hs) = (k x h, All-map Q xs k hs)

-- A table with a UNIQUE key, of which `q` tests the rows.
module _ {A C : Type 0} (q : C → A → Bool) where
  pub unique-append :
      (xs : List A) (row : A) (own : C)
      → ((c : C) → affected (q c) xs ≤ 1)
      → exists (q own) xs ≡ false
      → ((c : C) → q c row ≡ true → c ≡ own)
      → (c : C) → affected (q c) (xs ++ row ∷ []) ≤ 1
  unique-append xs row own h free mine c = elim (Bool-cases (q c row)) [
    | inl e ↦
        let same : affected (q c) xs ≡ 0 = rw (mine c e) (affected_none (q own) xs free) in
        ground (arith, affected-append (q c) xs row, e, same)
    | inr e ↦ ground (arith, affected-append (q c) xs row, e, h c)
  ]

-- A table with a BIGSERIAL key.
module _ {A : Type 0} (id_of : A → ℤ) where
  abbrev IsFresh : List A → ℕ → Type 0
  IsFresh xs next = (id : ℤ) → affected (λ x. id_of x == id) xs + unborn_at id next ≤ 1

  pub IsFresh-suc : (xs : List A) (next : ℕ) → IsFresh xs next → IsFresh xs (suc next)
  IsFresh-suc xs next h (pos n) = ground (arith, h (pos n))
  IsFresh-suc xs next h (negsuc n) = h (negsuc n)

  pub IsFresh-append :
      (xs : List A) (row : A) (next : ℕ)
      → id_of row ≡ pos next
      → IsFresh xs next
      → IsFresh (xs ++ row ∷ []) (suc next)
  IsFresh-append xs row next e h (pos n) =
      ground (arith, affected-append (λ (x : A). id_of x == pos n) xs row, e, h (pos n))
  IsFresh-append xs row next e h (negsuc n) =
      ground (arith, affected-append (λ (x : A). id_of x == negsuc n) xs row, e, h (negsuc n))
