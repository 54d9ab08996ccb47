-- ===== src/Judge/Lines.antt =====
-- The lines of a text, read off from left to right, and when two texts agree line by line.
use mathlib.Core.Path.{subst}
use go_spoc.Prelude.{
  ℕ, zero, suc, ◌≡◌, ◌↔◌, ◌⊎◌, refl, sym, ap, ◌∙◌, Bool, true, false, ◌&&◌, List, [], ◌∷◌, ◌++◌,
  All, Bool-cases, inl, inr, arith, is_empty, if◌then◌else◌, get_or, map,
}
use go_spoc.Prelude.Eq.{◌==◌, nat_eq}
use go_spoc.Strings.{trim_right, split, cons_first}
use go_spoc.Judge.Normalize.{is_blank, trim_blanks, trimmed_lines, replace_crlf}

abbrev feed_next : List ℕ → Bool
feed_next [] = false
feed_next (c ∷ _) = c == 10

-- A line ends at a line feed, or at a carriage return with a line feed behind it.
abbrev pub head_line : List ℕ → List ℕ
head_line [] = []
head_line (c ∷ s) =
    let rest = head_line s in
    if c == 10 then [] else if c == 13 && feed_next s then [] else c ∷ rest

abbrev pub behind_line : List ℕ → List ℕ
behind_line [] = []
behind_line (c ∷ s) = let rest = behind_line s in if c == 10 then s else rest

-- The i-th line, which is empty if there is none.
abbrev pub line_at : ℕ → List ℕ → List ℕ
line_at zero s = head_line s
line_at (suc i) s = line_at i (behind_line s)

abbrev pub IsBlank : ℕ → Type 0
IsBlank c = (c ≡ 32) ⊎ (c ≡ 9)

-- Two lines that differ at most in the spaces and tabs at their ends.
pub record SameInk (l m : List ℕ) : Type 0 where
  pub ink : List ℕ
  pub end_l : List ℕ
  pub end_m : List ℕ
  pub split_l : l ≡ ink ++ end_l
  pub split_m : m ≡ ink ++ end_m
  pub blank_l : All IsBlank end_l
  pub blank_m : All IsBlank end_m

trim_blanks-append : (l b : List ℕ) → All IsBlank b → trim_blanks (l ++ b) ≡ trim_blanks l
unfolding trim_right
trim_blanks-append [] [] h = refl
trim_blanks-append [] (c ∷ b) h = ground (arith, h.0, trim_blanks-append [] b h.1)
trim_blanks-append (c ∷ l) b h = ground (arith, trim_blanks-append l b h)

-- What trim_blanks takes away.
abbrev Trimmed : List ℕ → Type 0
Trimmed l = (b : List ℕ) × (l ≡ trim_blanks l ++ b) × All IsBlank b

all-IsBlank : (l t b : List ℕ) → is_empty t ≡ true → l ≡ t ++ b → All IsBlank b → All IsBlank l
all-IsBlank l [] b e p h = subst (All IsBlank) (sym p) h
all-IsBlank l (x ∷ t) b e p h = cc

trim_blanks-Trimmed : (l : List ℕ) → Trimmed l
unfolding trim_right
trim_blanks-Trimmed [] = ([], refl, tt)
trim_blanks-Trimmed (c ∷ l) =
    let (b, p, h) = trim_blanks-Trimmed l in
    elim (Bool-cases (is_blank c && is_empty (trim_blanks l))) [
      | inl e ↦ rw e (
        c ∷ l,
        refl,
        (ground (arith, e), all-IsBlank l (trim_blanks l) b (ground (arith, e)) p h),
      )
      | inr e ↦ rw e (b, ap (λ k. c ∷ k) p, h)
    ]

pub trim_blanks_iff : (l m : List ℕ) → (trim_blanks l ≡ trim_blanks m) ↔ SameInk l m
trim_blanks_iff l m = (
  λ e.
      let (b, p, h) = trim_blanks-Trimmed l in
      let (c, q, k) = trim_blanks-Trimmed m in
      record {
        ink = trim_blanks l;
        end_l = b;
        end_m = c;
        split_l = p;
        split_m = q ∙ ap (λ t. t ++ c) (sym e);
        blank_l = h;
        blank_m = k;
      },
  λ r.
      ap trim_blanks r.split_l
      ∙ trim_blanks-append r.ink r.end_l r.blank_l
      ∙ sym (trim_blanks-append r.ink r.end_m r.blank_m)
      ∙ sym (ap trim_blanks r.split_m),
)

get_or-cons_first :
    (c : ℕ) (ls : List (List ℕ)) → get_or (cons_first c ls) 0 [] ≡ c ∷ get_or ls 0 []
get_or-cons_first c [] = refl
get_or-cons_first c (l ∷ ls) = refl

get_or-cons_first-suc :
    (c i : ℕ) (ls : List (List ℕ)) → get_or (cons_first c ls) (suc i) [] ≡ get_or ls (suc i) []
get_or-cons_first-suc c i [] = refl
get_or-cons_first-suc c i (l ∷ ls) = refl

first_line : (s : List ℕ) → get_or (split 10 (replace_crlf s)) 0 [] ≡ head_line s
unfolding split replace_crlf
first_line [] = refl
first_line (c ∷ []) = ground arith
first_line (c ∷ d ∷ s) =
    ground (arith, first_line (d ∷ s), get_or-cons_first c (split 10 (replace_crlf (d ∷ s))))

later_line :
    (s : List ℕ) (i : ℕ)
    → get_or (split 10 (replace_crlf s)) (suc i) []
      ≡ get_or (split 10 (replace_crlf (behind_line s))) i []
unfolding split replace_crlf
later_line [] zero = refl
later_line [] (suc i) = refl
later_line (c ∷ s) i =
    ground (arith, later_line s i, get_or-cons_first-suc c i (split 10 (replace_crlf s)))

get_or-split : (i : ℕ) (s : List ℕ) → get_or (split 10 (replace_crlf s)) i [] ≡ line_at i s
get_or-split zero s = first_line s
get_or-split (suc i) s = later_line s i ∙ get_or-split i (behind_line s)

get_or-map_trim :
    (ls : List (List ℕ)) (i : ℕ) → get_or (map trim_blanks ls) i [] ≡ trim_blanks (get_or ls i [])
unfolding trim_right
get_or-map_trim [] i = refl
get_or-map_trim (l ∷ ls) zero = refl
get_or-map_trim (l ∷ ls) (suc i) = get_or-map_trim ls i

pub get_or-trimmed_lines :
    (s : List ℕ) (i : ℕ) → get_or (trimmed_lines s) i [] ≡ trim_blanks (line_at i s)
get_or-trimmed_lines s i =
    get_or-map_trim (split 10 (replace_crlf s)) i ∙ ap trim_blanks (get_or-split i s)
