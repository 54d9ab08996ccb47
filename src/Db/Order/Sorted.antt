-- ===== src/Db/Order/Sorted.antt =====
-- ORDER BY sorts.
use go_spoc.Prelude.{Bool, List, [], ◌∷◌, map, arith, All, Bool-cases, inl, inr}
use go_spoc.Prelude.Int.{ℤ, ◌≤ℤ◌, ltb_ℤ}
use go_spoc.Db.Order.{insert_by, order_by}

-- Every key is at most the later ones.
abbrev pub IsSorted {ℓ} : {A : Type ℓ} → (A → ℤ) → List A → Type 0
IsSorted key [] = Unit
IsSorted key (x ∷ xs) = All (λ y. key x ≤ℤ key y) xs × IsSorted key xs

abbrev pub IsAscending : List ℤ → Type 0
IsAscending = IsSorted (λ z. z)

module _ {ℓ} {A : Type ℓ} (key : A → ℤ) where
  abbrev before : A → A → Bool
  before x y = ltb_ℤ (key x) (key y)

  insert_by-All :
      (a : ℤ) (x : A) (ys : List A)
      → a ≤ℤ key x
      → All (λ y. a ≤ℤ key y) ys
      → All (λ y. a ≤ℤ key y) (insert_by before x ys)
  unfolding insert_by
  insert_by-All a x [] h hs = (h, tt)
  insert_by-All a x (y ∷ ys) h hs = elim (Bool-cases (before y x)) [
    | inl e ↦ rw e (hs.0, insert_by-All a x ys h hs.1)
    | inr e ↦ rw e (h, hs)
  ]

  All-le : (a b : ℤ) (ys : List A) → a ≤ℤ b → All (λ y. b ≤ℤ key y) ys → All (λ y. a ≤ℤ key y) ys
  All-le a b [] h hs = tt
  All-le a b (y ∷ ys) h hs = (omega (arith, hs.0), All-le a b ys h hs.1)

  insert_by-IsSorted :
      (x : A) (ys : List A) → IsSorted key ys → IsSorted key (insert_by before x ys)
  unfolding insert_by
  insert_by-IsSorted x [] h = (tt, tt)
  insert_by-IsSorted x (y ∷ ys) h = elim (Bool-cases (before y x)) [
    | inl e ↦ rw e (insert_by-All (key y) x ys (ground arith) h.0, insert_by-IsSorted x ys h.1)
    | inr e ↦
        let least : key x ≤ℤ key y = ground arith in
        rw e ((least, All-le (key x) (key y) ys least h.0), h)
  ]

  pub order_by-IsSorted : (xs : List A) → IsSorted key (order_by before xs)
  unfolding order_by
  order_by-IsSorted [] = tt
  order_by-IsSorted (x ∷ xs) = insert_by-IsSorted x (order_by before xs) (order_by-IsSorted xs)

  All-map : (a : ℤ) (xs : List A) → All (λ y. a ≤ℤ key y) xs → All (λ z. a ≤ℤ z) (map key xs)
  All-map a [] h = tt
  All-map a (x ∷ xs) h = (h.0, All-map a xs h.1)

  pub IsSorted-map : (xs : List A) → IsSorted key xs → IsAscending (map key xs)
  IsSorted-map [] h = tt
  IsSorted-map (x ∷ xs) h = (All-map (key x) xs h.0, IsSorted-map xs h.1)
