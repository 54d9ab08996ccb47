-- ===== src/Strings/Lines.antt =====
-- Splitting, joining and trimming: what the comparison of outputs rests on.
use go_spoc.Prelude.{
  ℕ, zero, suc, ◌≡◌, refl, ◌≢◌, inl, inr, Bool, ◌&&◌, List, [], ◌∷◌, ◌++◌, arith, All, get_or,
  is_empty, ap, sym, ◌∙◌, Bool-cases,
}
use go_spoc.Strings.{trim_right, split, join, cons_first}

-- No line of a split holds the separator.
abbrev pub Free : ℕ → List ℕ → Type 0
Free sep l = All (λ c. c ≢ sep) l

cons_first-Free :
    (sep c : ℕ) (ls : List (List ℕ))
    → c ≢ sep
    → All (Free sep) ls
    → All (Free sep) (cons_first c ls)
cons_first-Free sep c [] h k = ((h, tt), tt)
cons_first-Free sep c (l ∷ ls) h k = ((h, k.0), k.1)

pub split-Free : (sep : ℕ) (s : List ℕ) → All (Free sep) (split sep s)
unfolding split
split-Free sep [] = (tt, tt)
split-Free sep (c ∷ s) = ground (arith, split-Free sep s, cons_first-Free sep c (split sep s))

pub split-append :
    (sep : ℕ) (l s : List ℕ) → Free sep l → split sep (l ++ sep ∷ s) ≡ l ∷ split sep s
unfolding split
split-append sep [] s h = ground arith
split-append sep (c ∷ l) s h = ground (arith, split-append sep l s h.1, h.0)

pub split-one : (sep : ℕ) (l : List ℕ) → Free sep l → split sep l ≡ l ∷ []
unfolding split
split-one sep [] h = refl
split-one sep (c ∷ l) h = ground (arith, split-one sep l h.1, h.0)

-- Lines that were joined are found again.
pub split-join :
    (sep : ℕ) (l : List ℕ) (ls : List (List ℕ))
    → All (Free sep) (l ∷ ls)
    → split sep (join sep (l ∷ ls)) ≡ l ∷ ls
unfolding join
split-join sep l [] h = split-one sep l h.0
split-join sep l (m ∷ ls) h =
    split-append sep l (join sep (m ∷ ls)) h.0 ∙ ap (λ r. l ∷ r) (split-join sep m ls h.1)

module _ {ℓ κ} {A : Type ℓ} (P : A → Type κ) (p : A → Bool) where
  pub trim_right-All : (xs : List A) → All P xs → All P (trim_right p xs)
  unfolding trim_right
  trim_right-All [] h = tt
  trim_right-All (x ∷ xs) h = elim (Bool-cases (p x && is_empty (trim_right p xs))) [
    | inl e ↦ rw e tt
    | inr e ↦ rw e (h.0, trim_right-All xs h.1)
  ]

-- What is left after the last line is dropped while it is empty is never one empty line.
pub trim_right-ne-blank : (ls : List (List ℕ)) → trim_right is_empty ls ≢ [] ∷ []
unfolding trim_right
trim_right-ne-blank [] = cc
trim_right-ne-blank ([] ∷ ls) = ground arith
trim_right-ne-blank ((c ∷ l) ∷ ls) = ground arith

-- Dropping empty lines at the end changes no position, a missing line being read as empty.
pub get_or-trim_right :
    (ls : List (List ℕ)) (i : ℕ) → get_or (trim_right is_empty ls) i [] ≡ get_or ls i []
unfolding trim_right
get_or-trim_right [] i = refl
get_or-trim_right (l ∷ ls) zero = ground arith
get_or-trim_right (l ∷ ls) (suc i) = ground (arith, get_or-trim_right ls i)

-- Lists of lines that agree at every position agree once their empty ends are dropped.
pub trim_right_ext :
    (ls ms : List (List ℕ))
    → ((i : ℕ) → get_or ls i [] ≡ get_or ms i [])
    → trim_right is_empty ls ≡ trim_right is_empty ms
unfolding trim_right
trim_right_ext [] [] h = refl
trim_right_ext [] (m ∷ ms) h = ground (arith, h 0, trim_right_ext [] ms (λ i. h (suc i)))
trim_right_ext (l ∷ ls) [] h = ground (arith, h 0, trim_right_ext ls [] (λ i. h (suc i)))
trim_right_ext (l ∷ ls) (m ∷ ms) h = ground (arith, h 0, trim_right_ext ls ms (λ i. h (suc i)))

join-nil : (sep : ℕ) → split sep (join sep []) ≡ [] ∷ []
unfolding join split
join-nil sep = refl

pub join-injective :
    (sep : ℕ) (ls ms : List (List ℕ))
    → All (Free sep) ls
    → All (Free sep) ms
    → ls ≢ [] ∷ []
    → ms ≢ [] ∷ []
    → join sep ls ≡ join sep ms
    → ls ≡ ms
join-injective sep [] [] f g a b e = refl
join-injective sep [] (m ∷ ms) f g a b e =
    absurd (b (sym (split-join sep m ms g) ∙ ap (split sep) (sym e) ∙ join-nil sep))
join-injective sep (l ∷ ls) [] f g a b e =
    absurd (a (sym (split-join sep l ls f) ∙ ap (split sep) e ∙ join-nil sep))
join-injective sep (l ∷ ls) (m ∷ ms) f g a b e =
    sym (split-join sep l ls f) ∙ ap (split sep) e ∙ split-join sep m ms g
